-- ===== src/Lib.antt =====
-- A model of AgentForge, a multi-tenant agent platform (src/agentforge), and what has been proved of it.
--
-- The parts, and the files that model them:
--
--   Agent        the single-agent loop. Agent/State, Agent/Schema and Agent/Registry are the state, the
--                tool schemas and the tool registry (src/agentforge/agent/state.py,
--                src/agentforge/tools/base.py, src/agentforge/tools/registry.py); Agent/Nodes is
--                src/agentforge/agent/graph.py node by node; Agent/Orchestrator is
--                `Agent_Orchestrator.run`; Agent/Fallback is the deterministic strategy of
--                src/agentforge/agent/selection.py.
--   MultiAgent   the collaboration of several roles. MultiAgent/Graph is
--                src/agentforge/multiagent/graph.py, MultiAgent/Orchestrator is
--                `Multi_Agent_Orchestrator.run`, MultiAgent/Approval the human approval gate of
--                src/agentforge/multiagent/approval.py, MultiAgent/Streaming the event stream of
--                src/agentforge/multiagent/streaming.py, which steps a run by the same routing.
--   Webhooks     durable delivery of events. Webhooks/Outbox is the in-memory outbox of
--                src/agentforge/webhooks/outbox.py, Webhooks/Subscriptions the in-memory stores of
--                src/agentforge/webhooks/store.py, Webhooks/Dispatcher is
--                src/agentforge/webhooks/dispatcher.py, Webhooks/Emitter is src/agentforge/webhooks/emitter.py and
--                Webhooks/Worker one pass of src/agentforge/webhooks/worker.py over them; Webhooks/Worker/Calls
--                puts passes in one sequence with what the platform calls of the stores between them: the enqueueing
--                and the requeue of entries, the creation, the change and the deletion of subscriptions, which takes
--                a subscription's delivery log along, and test deliveries. Webhooks/Urls and
--                Webhooks/Signing are the admission of URLs and the signatures of
--                src/agentforge/webhooks/security.py, and Webhooks/Transport is src/agentforge/webhooks/transport.py.
--   Chunking     src/agentforge/chunking/chunker.py: the overlapping windows of a document.
--   Rag          retrieval and grounded answers: src/agentforge/retrieval/retriever.py and
--                src/agentforge/rag/service.py.
--   Ingestion    src/agentforge/ingestion/service.py: from the bytes of a document to its vectors and records,
--                with the rollback of a write that fails.
--   Memory       src/agentforge/memory/short_term.py: the working context held to a budget.
--   Enterprise   Enterprise/Rbac is src/agentforge/enterprise/rbac.py, Enterprise/RateLimit the fixed-window
--                limiter of src/agentforge/enterprise/rate_limit.py, Enterprise/ApiKeys the API keys of
--                src/agentforge/enterprise/api_keys.py, Enterprise/Audit the audit trail of
--                src/agentforge/enterprise/audit.py.
--   Identity     the in-memory store of users, organizations, memberships and teams of
--                src/agentforge/enterprise/identity.py.
--   Guardrails   src/agentforge/observability/guardrails/base.py: guardrails in order, and the refusal.
--   Usage        what a call of a language model costs, and the report on it: src/agentforge/observability/cost.py,
--                src/agentforge/observability/usage and src/agentforge/observability/analytics.py.
--   Budget       Budget and Budget/Calendar are src/agentforge/observability/budget.py: the calendar month, the
--                budgets, and the guard with its cache. Budget/Alerts is
--                src/agentforge/observability/budget_alerts.py: the claims, and the workers that announce.
--   Prompts      the registry of versioned prompts of src/agentforge/observability/prompt_registry, over its
--                in-memory store.
--   Tracing      the in-memory recorder of src/agentforge/tracing/recorder.py.
--   Graph        the rule by which LangGraph runs a compiled graph: a walk from node to node until the
--                end, an exception, or the recursion limit. `Agent` and `MultiAgent` both run on it.
--   Common       what the parts share: tests on numbers, lists, a `dict`, signed integers, JSON values,
--                texts as lists of code points, printed integers, and Python's stable sort.
--
-- How the state and the operations correspond. A dataclass is a record with the same fields; a method that
-- mutates an object takes the state and returns the new one; an exception is a constructor of the result
-- or `none`. Whatever another object keeps (a tool, a role, a strategy, a transport, a clock) is a state
-- `W` that is passed on, so no call is assumed to be pure. `graph.invoke` of LangGraph is a parameter; the
-- theorems that use it assume that it walks the graph as documented. A UUID is its 128-bit number, an
-- instant a number of microseconds, a finite float a multiple of 2^-1074, and a message built from a
-- template the constructor of that template. Trace steps and streamed events, which the code sends
-- best-effort, are lists in the state.
--
-- Bounds and fuel. The walk of a graph has the code's own recursion limits as fuel: 3 * limit + 10 steps
-- for the agent loop, 2 * max_rounds + phases + 25 for the collaboration; a measure that falls with every
-- node compares them with the bounds of the run. The loop of a multi-agent stream has the bound on
-- the rounds as fuel, since every pass of it adds a round, and the loop of the chunker the length of
-- the text, since every window begins further on; a number is printed with itself and one more as fuel.
-- Numbers are unbounded, as Python's are.
--
-- Not modelled: the HTTP API, the PostgreSQL stores, the LLM, embedding and vector-store adapters, the
-- document parsers, authentication, and the web console; the streaming of a single
-- run, conversations and long-term memory; the roles of the collaboration and the LLM strategy, whose answers come from a model; NaN and infinities;
-- the polling thread of the delivery worker.
pub mod Common
pub mod Graph
pub mod Agent
pub mod MultiAgent
pub mod Webhooks
pub mod Chunking
pub mod Memory
pub mod Enterprise
pub mod Guardrails
pub mod Prompts
pub mod Rag
pub mod Identity
pub mod Ingestion
pub mod Usage
pub mod Budget
pub mod Tracing
