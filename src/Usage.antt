-- ===== src/Usage.antt =====
-- observability/cost.py, observability/usage and observability/analytics.py: what a call of a language model
-- costs, the in-memory store of usage, and the report over it. An amount of money is a number of its
-- smallest unit; that unit is a thousandth of the unit of the rates, which are per thousand tokens.
pub mod Partition
mod Tests
use Prim.Native.Nat.{Ordering}
use Prim.Native.String.{compare}
use agentforgev.Common.{
  ℕ, ◌+◌, ◌*◌, String, Bool, true, false, ◌&&◌, Option, none, some, List, [], ◌∷◌, ◌++◌, leb, ◌==◌,
  number_keys, text_keys, pair_keys, filter, map, if◌then◌else◌,
}
use agentforgev.Common.Dict.{Dict, keys, lookup, insert}
use agentforgev.Common.Sort.{sort_by}

pub record TokenCount : Type 0 where
  pub prompt : ℕ
  pub completion : ℕ

abbrev pub total : TokenCount → ℕ
total t = t.prompt + t.completion

pub record Rate : Type 0 where
  pub prompt_per_1k : ℕ
  pub completion_per_1k : ℕ

pub record CostModel : Type 0 where
  pub rates : Dict (String × String) Rate
  pub default_rate : Rate

-- d.get(key, default)
abbrev pub get_or {ℓ} : {A : Type ℓ} → A → Option A → A
get_or default none = default
get_or default (some v) = v

unfoldable pub cost_for : CostModel → String → String → TokenCount → ℕ
cost_for m provider model tokens =
    let rate = get_or m.default_rate (lookup (provider, model) m.rates) in
    tokens.prompt * rate.prompt_per_1k + tokens.completion * rate.completion_per_1k

pub record UsageRecord : Type 0 where
  pub id : ℕ
  pub org_id : ℕ
  pub user_id : Option ℕ
  pub provider : String
  pub model : String
  pub prompt_tokens : ℕ
  pub completion_tokens : ℕ
  pub total_tokens : ℕ
  pub cost : ℕ
  pub created_at : ℕ

-- The records in the order they were added.
abbrev pub UsageStore : Type 0
UsageStore = List UsageRecord

abbrev pub add : UsageRecord → UsageStore → UsageStore
add r s = s ++ r ∷ []

-- `Usage_Recorder.record`, with the identifier and the time that it draws.
unfoldable pub record_usage :
    CostModel
    → ℕ
    → ℕ
    → String
    → String
    → TokenCount
    → ℕ
    → Option ℕ
    → UsageStore
    → UsageRecord × UsageStore
record_usage m id now provider model tokens org user s =
    let r : UsageRecord = record {
      id = id;
      org_id = org;
      user_id = user;
      provider = provider;
      model = model;
      prompt_tokens = tokens.prompt;
      completion_tokens = tokens.completion;
      total_tokens = total tokens;
      cost = cost_for m provider model tokens;
      created_at = now;
    } in
    (r, add r s)

unfoldable pub list_usage : ℕ → ℕ → ℕ → UsageStore → List UsageRecord
list_usage org start stop s =
    filter (λ r. (r.org_id == org) && leb start r.created_at && leb r.created_at stop) s

pub record BreakdownEntry : Type 0 where
  pub key : String
  pub total_tokens : ℕ
  pub total_cost : ℕ

-- d[k] = d.get(k, 0) + n
abbrev pub add_at : String → ℕ → Dict String ℕ → Dict String ℕ
add_at k n d = insert k (get_or 0 (lookup k d) + n) d

-- A loop of `_group_sum`: an amount of each record, added up by its key.
abbrev pub sums_by :
    (UsageRecord → String) → (UsageRecord → ℕ) → List UsageRecord → Dict String ℕ → Dict String ℕ
sums_by key amount [] d = d
sums_by key amount (r ∷ rs) d = sums_by key amount rs (add_at (key r) (amount r) d)

abbrev pub leb_text : String → String → Bool
leb_text a b = elim (compare a b) [ Ordering.gt ↦ false | _ ↦ true ]

unfoldable pub group_sum : List UsageRecord → (UsageRecord → String) → List BreakdownEntry
group_sum records key =
    let tokens_by_key = sums_by key (λ r. r.total_tokens) records [] in
    let cost_by_key = sums_by key (λ r. r.cost) records [] in
    map
      (λ k. record {
        key = k;
        total_tokens = get_or 0 (lookup k tokens_by_key);
        total_cost = get_or 0 (lookup k cost_by_key);
      })
      (sort_by leb_text (keys tokens_by_key))

abbrev pub total_of {ℓ} : {A : Type ℓ} → (A → ℕ) → List A → ℕ
total_of f [] = 0
total_of f (x ∷ xs) = f x + total_of f xs

pub record UsageReport : Type 0 where
  pub org_id : ℕ
  pub start : ℕ
  pub stop : ℕ
  pub total_tokens : ℕ
  pub total_cost : ℕ
  pub by_provider : List BreakdownEntry
  pub by_model : List BreakdownEntry
  pub by_user : List BreakdownEntry

-- str(user_id), given how a UUID is written, and "" for none
abbrev pub user_key : (ℕ → String) → Option ℕ → String
user_key uuid_text none = ""
user_key uuid_text (some id) = uuid_text id

unfoldable pub usage_report : (ℕ → String) → ℕ → ℕ → ℕ → UsageStore → UsageReport
usage_report uuid_text org start stop s =
    let records = list_usage org start stop s in
    record {
      org_id = org;
      start = start;
      stop = stop;
      total_tokens = total_of (λ r. r.total_tokens) records;
      total_cost = total_of (λ r. r.cost) records;
      by_provider = group_sum records (λ r. r.provider);
      by_model = group_sum records (λ r. r.model);
      by_user = group_sum records (λ r. user_key uuid_text r.user_id);
    }
