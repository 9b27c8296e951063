-- ===== src/Usage/Tests.antt =====
-- Runs of the report of observability/analytics.py.
use agentforgev.Common.{
  ℕ, ◌+◌, ◌≡◌, refl, ◌&&◌, String, Option, none, some, [], ◌∷◌, leb, ◌==◌, number_keys, filter,
}
use agentforgev.Common.Sort.{sort_by}
use agentforgev.Usage.{
  TokenCount, CostModel, cost_for, UsageStore, record_usage, list_usage, group_sum, usage_report,
  user_key,
}
use agentforgev.Usage.Partition.{IsPartition, usage_report-IsPartition}

abbrev model : CostModel
model = record {
  rates = (("groq", "small"), record { prompt_per_1k = 50; completion_per_1k = 80 }) ∷ [];
  default_rate = record { prompt_per_1k = 0; completion_per_1k = 0 };
}

abbrev counted : TokenCount
counted = record { prompt = 10; completion = 2 }

abbrev call_model : ℕ → String → ℕ → Option ℕ → UsageStore → UsageStore
call_model id name org user s = (record_usage model id (100 + id) name "small" counted org user s).1

-- Two calls of the organization 1, and one of another between them.
abbrev store : UsageStore
store = call_model 3 "groq" 1 (some 4) (call_model 2 "groq" 2 none (call_model 1 "local" 1 none []))

abbrev uuid_text : ℕ → String
uuid_text n = "u"

usage_report-IsPartition_example :
    let report = usage_report uuid_text 1 0 500 store in
    let records =
      filter (λ r. (r.org_id == 1) && leb 0 r.created_at && leb r.created_at 500) store in
    IsPartition (λ r. r.provider) records report.total_tokens report.total_cost report.by_provider
    × IsPartition (λ r. r.model) records report.total_tokens report.total_cost report.by_model
    × IsPartition
        (λ r. user_key uuid_text r.user_id)
        records
        report.total_tokens
        report.total_cost
        report.by_user
usage_report-IsPartition_example = usage_report-IsPartition uuid_text 1 0 500 store

two_providers :
    (usage_report uuid_text 1 0 500 store).by_provider
    ≡ record { key = "groq"; total_tokens = 12; total_cost = 660 }
      ∷ record { key = "local"; total_tokens = 12; total_cost = 0 }
      ∷ []
unfolding usage_report list_usage group_sum sort_by record_usage cost_for
two_providers = refl
