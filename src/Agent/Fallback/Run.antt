-- ===== src/Agent/Fallback/Run.antt =====
-- Runs of the agent loop under the fallback strategy of agent/selection.py.
use agentforgev.Common.{
  ℕ, suc, ◌+◌, ◌*◌, ◌≤◌, ◌≡◌, ◌≢◌, ◌⊎◌, ◌↔◌, false, not, Bool, ◌==◌, apart, Bool-cases, inl, inr,
  refl, ap, ◌∙◌, String, Option, none, some, true, [], ◌∷◌, text_keys, arith,
}
use agentforgev.Common.Dict.{Dict}
use agentforgev.Common.Value.{Value}
use agentforgev.Graph.Rule.{walk_next, walk_end}
use agentforgev.Graph.{Graph, Run, finished, walk, ok}
use agentforgev.Agent.State.{
  Content, text, no_call_staged, not_registered, invalid, ObservationKind, tool_result,
  tool_not_found, validation_error, tool_execution_error, ToolCall, tool_decision, final_decision,
  AgentState, Observation, final_answer, resolve_iteration_limit,
}
use agentforgev.Agent.Registry.{Tool, ToolOutcome, list_specs}
use agentforgev.Agent.Nodes.{
  is_non_empty, Machine, Node, build_agent_graph, reason_node, reason, dispatch, observe_outcome,
  act, observe, finalize, decide, route_after_observe, act_node, observe_node, finalize_node,
  record_step, reason_step, tool_call_step, observe_step,
}
use agentforgev.Agent.Orchestrator.{Request, initial_state, run, guarded}
use package.text.Mathlib.TextEquality.{eq_iff}
use agentforgev.Agent.Dispatch.{dispatch_cases}
use agentforgev.Agent.Fallback.{
  fallback, is_offered, fallback_decision, rag_call, compose_answer, names, is_tool_result,
}

-- The answer to a request after one observation: what a tool returned, if it is not an empty text, and the
-- request itself otherwise.
abbrev pub IsComposed : String → Observation → Content → Type 0
IsComposed request o c =
    ((o.kind ≡ tool_result) × (o.content ≢ text "") × (c ≡ o.content))
    ⊎ ((o.kind ≢ tool_result) × (c ≡ text request))
    ⊎ ((o.content ≡ text "") × (c ≡ text request))

-- One cycle and the final answer.
pub record IsAnswered (request : String) (o : Observation) (s : AgentState) : Type 0 where
  pub cycles : s.iteration_count ≡ 1
  pub seen : s.observations ≡ o ∷ []
  pub reasoned : s.termination_reason ≡ some final_answer
  pub answered : (c : Content) × (s.answer ≡ some c) × IsComposed request o c

is_tool_result_iff : (k : ObservationKind) → (is_tool_result k ≡ true) ↔ (k ≡ tool_result)
is_tool_result_iff tool_result = (λ h. refl, λ h. refl)
is_tool_result_iff tool_not_found = (λ h. cc, λ h. cc)
is_tool_result_iff validation_error = (λ h. cc, λ h. cc)
is_tool_result_iff tool_execution_error = (λ h. cc, λ h. cc)

same_text : {a b : String} → text a ≡ text b → a ≡ b
same_text e = cc

true_of_not : (b : Bool) → not b ≡ false → b ≡ true
true_of_not true h = refl
true_of_not false h = cc

is_non_empty_iff : (c : Content) → (is_non_empty c ≡ false) ↔ (c ≡ text "")
is_non_empty_iff (text s) = (
  (λ h. ap text ((eq_iff s "").0 (true_of_not (s == "") h))),
  (λ h. ap not ((eq_iff s "").1 (same_text h))),
)
is_non_empty_iff no_call_staged = (λ h. cc, λ h. cc)
is_non_empty_iff (not_registered n) = (λ h. cc, λ h. cc)
is_non_empty_iff (invalid r) = (λ h. cc, λ h. cc)

compose_answer-IsComposed :
    (o : Observation) (request : String) → IsComposed request o (compose_answer (o ∷ []) request)
unfolding compose_answer
compose_answer-IsComposed o request = elim (Bool-cases (is_tool_result o.kind)) [
  | inl result ↦ elim (Bool-cases (is_non_empty o.content)) [
    | inl full ↦ inl (
      (is_tool_result_iff o.kind).0 result,
      (λ e. apart (is_non_empty o.content) full ((is_non_empty_iff o.content).1 e)),
      rw result (rw full refl),
    )
    | inr empty ↦ inr (inr ((is_non_empty_iff o.content).0 empty, rw result (rw empty refl)))
  ]
  | inr other ↦ inr (
      inl (
        (λ e. apart (is_tool_result o.kind) ((is_tool_result_iff o.kind).1 e) other),
        rw other refl,
      ))
]

module _ {W : Type 0} (name : String) (tools : Dict String (Tool W)) (s : AgentState) (w w' : W)
    (o : Observation) (offered : is_offered name (list_specs tools) ≡ true)
    (named : names o.tool_name name ≡ true)
    (sent : dispatch tools (some (rag_call name s.user_request)) w ≡ (some o, w')) where
  abbrev g : Graph Node (Machine W)
  g = unfold build_agent_graph in build_agent_graph (fallback name) tools

  -- The state of a new run, and the states behind its nodes.
  abbrev start : Machine W
  start = record {
    state = record s {
      observations = [];
      iteration_count = 0;
      pending_tool_call = none;
      pending_observation = none;
      answer = none;
      termination_reason = none;
    };
    trace = [];
    world = w;
  }

  abbrev called : Machine W
  called =
      record_step
        (record start { state = decide (tool_decision (rag_call name s.user_request)) start.state })
        (record { step_type = reason_step; tool_name = none; outcome = none; count = none })

  abbrev acted : Machine W
  acted =
      record_step
        (record called { state = record called.state { pending_observation = some o }; world = w' })
        (record {
          step_type = tool_call_step;
          tool_name = some name;
          outcome = some o.kind;
          count = none;
        })

  reason-called : reason (fallback name) tools start ≡ ok called
  unfolding reason fallback_decision
  reason-called = rw offered

  act-acted : act tools called ≡ ok acted
  unfolding act
  act-acted = rw sent

  abbrev observed : Machine W
  observed =
      record_step
        (record acted {
          state = record acted.state {
            observations = o ∷ [];
            iteration_count = 1;
            pending_observation = none;
            pending_tool_call = none;
          };
        })
        (record { step_type = observe_step; tool_name = none; outcome = none; count = some 1 })

  abbrev decided : Machine W
  decided =
      record_step
        (record observed {
          state = decide (final_decision (compose_answer (o ∷ []) s.user_request)) observed.state;
        })
        (record { step_type = reason_step; tool_name = none; outcome = none; count = none })

  observe-observed : observe acted ≡ ok observed
  unfolding observe
  observe-observed = refl

  reason-decided : reason (fallback name) tools observed ≡ ok decided
  unfolding reason fallback_decision
  reason-decided = rw (offered, named)

  finalize-decided : finalize decided.state ≡ decided.state
  unfolding finalize
  finalize-decided = refl

  route-observed : 2 ≤ s.iteration_limit → route_after_observe observed.state ≡ reason_node
  unfolding route_after_observe
  route-observed h = ground arith

  walk-decided :
      (k : ℕ)
      → 2 ≤ s.iteration_limit
      → walk g (suc (suc (suc (suc (suc k))))) reason_node start ≡ finished decided
  unfolding build_agent_graph
  walk-decided k h =
      walk_next g _ reason_node act_node start called reason-called refl
      ∙ walk_next g _ act_node observe_node called acted act-acted refl
      ∙ walk_next g _ observe_node reason_node acted observed observe-observed
          (ap some (route-observed h))
      ∙ walk_next g _ reason_node finalize_node observed decided reason-decided refl
      ∙ walk_end g _ finalize_node decided decided
          (ap (λ t. ok (record decided { state = t })) finalize-decided) refl

outcome_named :
    (c : ToolCall) (r : ToolOutcome) (o : Observation)
    → observe_outcome c r ≡ some o
    → o.tool_name ≡ some c.tool_name
outcome_named c r o e = ground arith

-- Whatever becomes of a call, its observation carries the name that was called.
dispatch_named :
    {W : Type 0} (tools : Dict String (Tool W)) (c : ToolCall) (w w' : W) (o : Observation)
    → dispatch tools (some c) w ≡ (some o, w')
    → o.tool_name ≡ some c.tool_name
dispatch_named tools c w w' o e = elim (dispatch_cases tools c w) [
  | inl (o', same, _, named, _) ↦ let q : o ≡ o' = cc in rw q named
  | inr (tool, _, _, same, _) ↦ outcome_named c (tool.invoke c.arguments w).0 o (cc)
]

call-names-true :
    (name : String) (o : Observation) → o.tool_name ≡ some name → names o.tool_name name ≡ true
call-names-true name o e = rw e ((eq_iff name name).1 refl)

fuel_for : (l : ℕ) → 3 * l + 10 ≡ suc (suc (suc (suc (suc (3 * l + 5)))))
fuel_for l = omega arith

-- With the search tool on offer and a limit of two or more, a run under the fallback strategy makes
-- exactly one cycle, whatever the tool call comes to, unless it crashes: the run ends with a final
-- answer, which is what the tool returned if that is not an empty text, and the request itself if the tool
-- returned an empty text or the one observation is that of a failure.
pub fallback-run :
    {W : Type 0} (name : String) (invoke : Graph Node (Machine W) → ℕ → Machine W → Run (Machine W))
    (documented : (g : Graph Node (Machine W)) (k : ℕ) (m : Machine W)
      → invoke g k m ≡ walk g k g.entry m)
    (tools : Dict String (Tool W)) (configured : Option Value) (r : Request) (w w' : W)
    (o : Observation)
    → is_offered name (list_specs tools) ≡ true
    → dispatch tools (some (rag_call name r.user_request)) w ≡ (some o, w')
    → 2 ≤ (resolve_iteration_limit configured).0
    → (m : Machine W) × (run invoke (fallback name) tools configured r w ≡ finished m)
      × IsAnswered r.user_request o m.state
unfolding run
fallback-run name invoke documented tools configured r w w' o offered sent h =
    let l = (resolve_iteration_limit configured).0 in
    let s = initial_state configured r in
    let named =
      call-names-true name o (dispatch_named tools (rag_call name r.user_request) w w' o sent) in
    (
      decided name tools s w w' o offered named sent,
      rw documented (
          ap guarded (
            ap
              (λ k.
                walk (build_agent_graph (fallback name) tools) k reason_node
                  (start name tools s w w' o offered named sent))
              (fuel_for l)
            ∙ walk-decided name tools s w w' o offered named sent (3 * l + 5) h)),
      record {
        cycles = refl;
        seen = refl;
        reasoned = refl;
        answered = (
          compose_answer (o ∷ []) r.user_request,
          refl,
          compose_answer-IsComposed o r.user_request,
        );
      },
    )
