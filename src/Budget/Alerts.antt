-- ===== src/Budget/Alerts.antt =====
-- observability/budget_alerts.py: each threshold of a budget is announced once in a period. The claims are shared;
-- every worker runs `announce` with the memo of its process, one store or dispatcher call at a time.
-- The in-memory claims do not raise; a dispatch may fail before it has enqueued anything.
pub mod Steps
pub mod Once
mod Tests
use agentforgev.Common.{
  ℕ, zero, suc, ◌+◌, ◌*◌, Bool, true, false, not, ◌&&◌, ◌||◌, Option, none, some, List, [], ◌∷◌,
  ◌++◌, leb, ◌==◌, number_keys, pair_keys, filter, length, if◌then◌else◌,
}
use agentforgev.Common.Dict.{Dict, keys, lookup, insert, erase, has_key, remove_where}
use agentforgev.Common.Sort.{sort_by}
use agentforgev.Budget.Calendar.{instant}
use agentforgev.Budget.{BudgetStatus, BudgetStore, Percent, percent_used, limit_of}

abbrev pub budget_thresholds : List ℕ
budget_thresholds = 80 ∷ 100 ∷ []

abbrev pub is_zero_limit : Option ℕ → Bool
is_zero_limit none = false
is_zero_limit (some limit) = limit == 0

unfoldable pub crossed_thresholds : Option Percent → Option ℕ → List ℕ
crossed_thresholds none limit = []
crossed_thresholds (some p) limit =
    if is_zero_limit limit
    then 100 ∷ []
    else filter (λ t. leb (t * p.over) p.amount) budget_thresholds

-- The organization, the start of the period, and the threshold.
abbrev pub AlertKey : Type 0
AlertKey = ℕ × (ℕ × ℕ)

abbrev pub key_for : BudgetStatus → ℕ → AlertKey
key_for s threshold = (s.org_id, (instant s.period_start, threshold))

-- `_claims`, with the time of each claim.
abbrev pub Claims : Type 0
Claims = Dict AlertKey ℕ

unfoldable pub claim : AlertKey → ℕ → Claims → Bool × Claims
claim key now c = if has_key key c then (false, c) else (true, insert key now c)

unfoldable pub release : AlertKey → Claims → Bool × Claims
release key c = (has_key key c, erase key c)

abbrev pub is_in : ℕ → List ℕ → Bool
is_in t [] = false
is_in t (k ∷ ks) = (k == t) || is_in t ks

abbrev pub is_dropped : ℕ → ℕ → List ℕ → AlertKey → Bool
is_dropped org start keep k = (k.0 == org) && (k.1.0 == start) && not (is_in k.1.1 keep)

unfoldable pub release_except : ℕ → ℕ → List ℕ → Claims → ℕ × Claims
release_except org start keep c = (
  length (filter (is_dropped org start keep) (keys c)),
  remove_where (is_dropped org start keep) c,
)

-- `claimed`: the thresholds that are claimed, ascending
abbrev pub thresholds_of : ℕ → ℕ → List AlertKey → List ℕ
thresholds_of org start [] = []
thresholds_of org start (k ∷ ks) =
    let rest = thresholds_of org start ks in
    if (k.0 == org) && (k.1.0 == start) then k.1.1 ∷ rest else rest

abbrev pub claimed : ℕ → ℕ → Claims → List ℕ
claimed org start c = sort_by leb (thresholds_of org start (keys c))

-- The number of attempts, or `_SETTLED`.
pub data Attempts : Type 0 where
  tried : ℕ → Attempts
  settled : Attempts

abbrev pub Memo : Type 0
Memo = Dict AlertKey (ℕ × Attempts)

abbrev pub may_announce : Option (ℕ × Attempts) → ℕ → Bool
may_announce none now = true
may_announce (some (at, settled)) now = false
may_announce (some (at, tried n)) now = leb at now

abbrev pub is_announceable : Memo → BudgetStatus → ℕ → ℕ → Bool
is_announceable memo s now threshold = may_announce (lookup (key_for s threshold) memo) now

unfoldable pub pending : Memo → ℕ → BudgetStatus → List ℕ
pending memo now s =
    if not s.spend_is_authoritative
    then []
    else filter (is_announceable memo s now) (crossed_thresholds (percent_used s) s.limit_amount)

abbrev pub attempts_after : Option (ℕ × Attempts) → Attempts
attempts_after none = tried 1
attempts_after (some (at, tried n)) = tried (n + 1)
attempts_after (some (at, settled)) = tried 0

abbrev pub record_attempt : AlertKey → ℕ → Memo → Memo
record_attempt key now memo = insert key (now, attempts_after (lookup key memo)) memo

abbrev pub clear_attempts : AlertKey → ℕ → Memo → Memo
clear_attempts key now memo = insert key (now, settled) memo

abbrev pub same_limit : Option ℕ → Option ℕ → Bool
same_limit none none = true
same_limit (some a) (some b) = a == b
same_limit a b = false

-- `_ceiling_is_current`, with the budgets if they were wired.
abbrev pub ceiling_is_current : Option BudgetStore → BudgetStatus → Bool
ceiling_is_current none s = true
ceiling_is_current (some budgets) s = same_limit (limit_of (lookup s.org_id budgets)) s.limit_amount

-- Where a worker stands in `announce`: at the head of the loop, with a claim that it is to announce, or with a
-- claim that it is to release since nothing was enqueued.
pub data Phase : Type 0 where
  idle : Phase
  looping : BudgetStatus → List ℕ → Phase
  emitting : BudgetStatus → ℕ → List ℕ → Phase
  releasing : BudgetStatus → ℕ → List ℕ → Phase

pub record Worker : Type 0 where
  pub memo : Memo
  pub phase : Phase

-- The claims and what was enqueued, the last of it in front.
pub record Shared : Type 0 where
  pub claims : Claims
  pub sent : List AlertKey

abbrev pub start_phase : Bool → BudgetStatus → List ℕ → Phase
start_phase current s [] = idle
start_phase false s (t ∷ ts) = idle
start_phase true s (t ∷ ts) = looping s (t ∷ ts)

-- The start of `announce`, by a worker that is idle.
unfoldable pub start_announce : Option BudgetStore → ℕ → BudgetStatus → Worker → Worker
start_announce budgets now s w = record w {
  phase = start_phase (ceiling_is_current budgets s) s (pending w.memo now s);
}

abbrev pub after_claim : Bool × Claims → BudgetStatus → ℕ → List ℕ → Memo → Shared → Worker × Shared
after_claim (true, c) s t ts memo sh =
    (record { memo = memo; phase = emitting s t ts }, record sh { claims = c })
after_claim (false, c) s t ts memo sh =
    (record { memo = memo; phase = looping s ts }, record sh { claims = c })

-- `failed` is `failed_before_enqueue` of the outcome of the dispatch.
abbrev pub after_dispatch : Bool → ℕ → BudgetStatus → ℕ → List ℕ → Memo → Shared → Worker × Shared
after_dispatch true now s t ts memo sh = (record { memo = memo; phase = releasing s t ts }, sh)
after_dispatch false now s t ts memo sh = (
  record { memo = clear_attempts (key_for s t) now memo; phase = looping s ts },
  record sh { sent = key_for s t ∷ sh.sent },
)

-- The next call of a worker, at the instant `now`; if it is a dispatch, `failed` says how it ends.
abbrev pub advance : Phase → Bool → ℕ → Memo → Shared → Worker × Shared
advance idle failed now memo sh = (record { memo = memo; phase = idle }, sh)
advance (looping s []) failed now memo sh = (record { memo = memo; phase = idle }, sh)
advance (looping s (t ∷ ts)) failed now memo sh =
    after_claim (claim (key_for s t) now sh.claims) s t ts (record_attempt (key_for s t) now memo)
      sh
advance (emitting s t ts) failed now memo sh = after_dispatch failed now s t ts memo sh
advance (releasing s t ts) failed now memo sh = (
  record { memo = memo; phase = looping s ts },
  record sh { claims = (release (key_for s t) sh.claims).1 },
)

unfoldable pub advance_worker : Bool → ℕ → Worker → Shared → Worker × Shared
advance_worker failed now w sh = advance w.phase failed now w.memo sh

abbrev pub reconcile_if : Bool → ℕ → ℕ → List ℕ → Worker → Shared → ℕ × (Worker × Shared)
reconcile_if false org start keep w sh = (0, (w, sh))
reconcile_if true org start keep w sh =
    let (dropped, claims) = release_except org start keep sh.claims in
    (
      dropped,
      (
        record w { memo = remove_where (is_dropped org start keep) w.memo },
        record sh { claims = claims },
      ),
    )

-- `reconcile`, on the claims and on the memo of the worker that runs it.
unfoldable pub reconcile : BudgetStatus → Worker → Shared → ℕ × (Worker × Shared)
reconcile s w sh =
    reconcile_if s.spend_is_authoritative s.org_id (instant s.period_start)
      (crossed_thresholds (percent_used s) s.limit_amount) w sh
