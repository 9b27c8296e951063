-- ===== src/Budget.antt =====
-- observability/budget.py: the ceiling on the spend of an organization in a calendar month, and the decision
-- about it. Amounts are as in `Usage`; a share in percent is a fraction.
pub mod Calendar
pub mod Guard
pub mod Alerts
mod Tests
use agentforgev.Common.{
  ℕ, ◌+◌, ◌-◌, ◌*◌, Bool, true, false, not, ◌&&◌, Option, none, some, List, [], ◌∷◌, ltb, leb, ◌==◌,
  number_keys, pair_keys, if◌then◌else◌,
}
use agentforgev.Common.Dict.{Dict, lookup, insert, erase, has_key, remove_where}
use Calendar.{Moment, instant, current_period}

pub data BudgetAction : Type 0 where
  warn block : BudgetAction

pub record SpendBudget : Type 0 where
  pub org_id : ℕ
  pub limit_amount : ℕ
  pub action : BudgetAction
  pub created_at : ℕ
  pub updated_at : ℕ

pub record BudgetStatus : Type 0 where
  pub org_id : ℕ
  pub period_start : Moment
  pub period_end : Moment
  pub spent : ℕ
  pub limit_amount : Option ℕ
  pub action : Option BudgetAction
  pub exceeded : Bool
  pub blocked : Bool
  pub spend_is_authoritative : Bool

-- headroom, floored at zero
abbrev pub remaining_of : Option ℕ → ℕ → Option ℕ
remaining_of none spent = none
remaining_of (some limit) spent = some (limit - spent)

abbrev pub remaining : BudgetStatus → Option ℕ
remaining s = remaining_of s.limit_amount s.spent

-- A number of percent, as a numerator over a denominator.
pub record Percent : Type 0 where
  pub amount : ℕ
  pub over : ℕ

abbrev pub percent_of : Option ℕ → ℕ → Option Percent
percent_of none spent = none
percent_of (some limit) spent =
    if limit == 0
    then some record { amount = 100; over = 1 }
    else some record { amount = spent * 100; over = limit }

unfoldable pub percent_used : BudgetStatus → Option Percent
percent_used s = percent_of s.limit_amount s.spent

abbrev pub BudgetStore : Type 0
BudgetStore = Dict ℕ SpendBudget

abbrev pub get_budget : ℕ → BudgetStore → Option SpendBudget
get_budget org s = lookup org s

abbrev pub created_or : Option SpendBudget → ℕ → ℕ
created_or none now = now
created_or (some old) now = old.created_at

unfoldable pub upsert_budget : ℕ → ℕ → BudgetAction → ℕ → BudgetStore → SpendBudget × BudgetStore
upsert_budget org limit action now s =
    let budget : SpendBudget = record {
      org_id = org;
      limit_amount = limit;
      action = action;
      created_at = created_or (lookup org s) now;
      updated_at = now;
    } in
    (budget, insert org budget s)

unfoldable pub delete_budget : ℕ → BudgetStore → Bool × BudgetStore
delete_budget org s = (has_key org s, erase org s)

-- (org, start of the period) -> (computed at, spend)
abbrev pub SpendCache : Type 0
SpendCache = Dict (ℕ × ℕ) (ℕ × ℕ)

pub record BudgetGuard : Type 0 where
  pub cache : SpendCache
  pub cache_micros : ℕ

abbrev pub limit_of : Option SpendBudget → Option ℕ
limit_of none = none
limit_of (some b) = some b.limit_amount

abbrev pub action_of : Option SpendBudget → Option BudgetAction
action_of none = none
action_of (some b) = some b.action

abbrev pub is_exceeded : Option ℕ → ℕ → Bool
is_exceeded none spent = false
is_exceeded (some limit) spent = leb limit spent

abbrev pub is_block : Option BudgetAction → Bool
is_block (some block) = true
is_block (some warn) = false
is_block none = false

-- `(now - computed_at).total_seconds() < cache_seconds`, also when the clock went back.
abbrev pub fresh_spend : Option (ℕ × ℕ) → ℕ → ℕ → Option ℕ
fresh_spend none now cache_micros = none
fresh_spend (some (at, spent)) now cache_micros =
    if ltb now (at + cache_micros) then some spent else none

abbrev pub forget_others : ℕ × ℕ → SpendCache → SpendCache
forget_others key cache = remove_where (λ k. (k.0 == key.0) && not (k == key)) cache

-- The total of the report over the period so far, or `none` when the report raises.
abbrev pub counted_spend : Option ℕ → ℕ × ℕ → ℕ → BudgetGuard → (ℕ × Bool) × BudgetGuard
counted_spend none key now g = ((0, false), g)
counted_spend (some spent) key now g =
    ((spent, true), record g { cache = insert key (now, spent) (forget_others key g.cache) })

abbrev pub cached_or_counted :
    Option ℕ → Option ℕ → ℕ × ℕ → ℕ → BudgetGuard → (ℕ × Bool) × BudgetGuard
cached_or_counted (some spent) report key now g = ((spent, true), g)
cached_or_counted none report key now g = counted_spend report key now g

-- `report start stop` is what `usage_report` answers as the total cost of the organization.
unfoldable pub spend_for_period :
    (ℕ → ℕ → Option ℕ) → ℕ → ℕ → ℕ → BudgetGuard → (ℕ × Bool) × BudgetGuard
spend_for_period report org start now g =
    let key : ℕ × ℕ = (org, start) in
    cached_or_counted (fresh_spend (lookup key g.cache) now g.cache_micros) (report start now) key
      now g

unfoldable pub status :
    (ℕ → ℕ → Option ℕ) → BudgetStore → ℕ → Moment → BudgetGuard → BudgetStatus × BudgetGuard
status report budgets org now g =
    let (start, stop) = current_period now in
    let budget = lookup org budgets in
    let ((spent, authoritative), g') =
      spend_for_period report org (instant start) (instant now) g in
    (
      record {
        org_id = org;
        period_start = start;
        period_end = stop;
        spent = spent;
        limit_amount = limit_of budget;
        action = action_of budget;
        exceeded = is_exceeded (limit_of budget) spent;
        blocked = is_exceeded (limit_of budget) spent && is_block (action_of budget);
        spend_is_authoritative = authoritative;
      },
      g',
    )

unfoldable pub invalidate : ℕ → BudgetGuard → BudgetGuard
invalidate org g = record g { cache = remove_where (λ k. k.0 == org) g.cache }
