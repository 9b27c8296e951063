-- ===== src/Budget/Tests.antt =====
-- Runs of observability/budget.py.
use agentforgev.Common.{
  ◌+◌, ◌*◌, ◌≤◌, ◌<◌, ◌≡◌, ◌↔◌, refl, true, number_keys, none, some, List, [], ◌∷◌, arith,
}
use agentforgev.Common.Dict.{lookup}
use agentforgev.Budget.{
  warn, block, SpendBudget, BudgetStore, upsert_budget, delete_budget, status, spend_for_period,
}
use agentforgev.Budget.Calendar.{
  Moment, instant, current_period, add_days, next_day, days_in_month, days_before_year,
}
use agentforgev.Budget.Calendar.Period.{IsMoment, at, current_period_bounds}
use agentforgev.Budget.Guard.{GuardCall, status_call, guard_after, SpendCases, status_cases}

abbrev leap_day : Moment
leap_day = record { year = 2024; month = 2; day = 29; micros = 5 }

leap_day-IsMoment : IsMoment leap_day
unfolding days_in_month
leap_day-IsMoment = omega arith

current_period_bounds_example :
    let (start, stop) = current_period leap_day in
    (start ≡ at leap_day.year leap_day.month 1)
    × (instant start ≤ instant leap_day)
    × (instant leap_day < instant stop)
    × (stop ≡ at stop.year stop.month 1)
    × (stop.year * 12 + stop.month ≡ leap_day.year * 12 + leap_day.month + 1)
    × ((current_period stop).0 ≡ stop)
current_period_bounds_example = current_period_bounds leap_day leap_day-IsMoment

ends_in_march : (current_period leap_day).1 ≡ at 2024 3 1
unfolding current_period add_days next_day days_in_month
ends_in_march = refl

ends_next_year :
    (current_period record { year = 2023; month = 12; day = 31; micros = 0 }).1 ≡ at 2024 1 1
unfolding current_period add_days next_day days_in_month
ends_next_year = refl

abbrev budgets : BudgetStore
budgets = (upsert_budget 7 500 block 10 (upsert_budget 7 400 warn 5 []).1).1

keeps_created_at :
    lookup 7 budgets
    ≡ some
        record { org_id = 7; limit_amount = 500; action = block; created_at = 5; updated_at = 10 }
unfolding upsert_budget
keeps_created_at = refl

is_gone : lookup 7 (delete_budget 7 budgets).1 ≡ none
unfolding upsert_budget delete_budget
is_gone = refl

abbrev a_second_later : Moment
a_second_later = record leap_day { micros = 1000005 }

-- The first call counts 600, and the second would count 900.
abbrev past : List GuardCall
past = status_call (λ start stop. some 600) budgets 7 leap_day ∷ []

status_cases_example :
    let s =
      (status (λ start stop. some 900) budgets 7 a_second_later (guard_after 30000000 past)).0 in
    SpendCases
      (λ start stop. some 900)
      7
      a_second_later
      30000000
      past
      s.spent
      s.spend_is_authoritative
    × ((s.blocked ≡ true) ↔ (
        (b : SpendBudget) × (lookup 7 budgets ≡ some b)
        × (b.limit_amount ≤ s.spent)
        × (b.action ≡ block)))
status_cases_example = status_cases 30000000 past (λ start stop. some 900) budgets 7 a_second_later

blocked_by_the_cache :
    (status (λ start stop. some 900) budgets 7 a_second_later (guard_after 30000000 past)).0.spent
    ≡ 600
unfolding status spend_for_period current_period add_days next_day days_in_month instant
    days_before_year upsert_budget
blocked_by_the_cache = refl
