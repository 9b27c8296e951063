-- ===== src/Budget/Alerts/Tests.antt =====
-- Runs of observability/budget_alerts.py.
use agentforgev.Common.{ℕ, ◌+◌, ◌≤◌, ◌≡◌, refl, true, false, none, some, List, [], ◌∷◌, map}
use agentforgev.Budget.{warn, BudgetStatus, percent_used}
use agentforgev.Budget.Calendar.{instant, days_in_month, days_before_year}
use agentforgev.Budget.Calendar.Period.{at}
use agentforgev.Budget.Alerts.{
  key_for, claim, release, pending, crossed_thresholds, start_announce, advance_worker,
}
use agentforgev.Budget.Alerts.Steps.{Step, start_step, call_step, System, run, times, drop_count}
use agentforgev.Budget.Alerts.Once.{idle_with, announced_once}

-- 90 of 100 are spent.
abbrev near : BudgetStatus
near = record {
  org_id = 7;
  period_start = at 2 3 1;
  period_end = at 2 4 1;
  spent = 90;
  limit_amount = some 100;
  action = some warn;
  exceeded = false;
  blocked = false;
  spend_is_authoritative = true;
}

abbrev start : System
start = record {
  workers = map idle_with ([] ∷ [] ∷ []);
  shared = record { claims = []; sent = [] };
}

-- Both workers take up the status before either claims; the first dispatch fails.
abbrev schedule : List (ℕ × Step)
schedule =
    (0, start_step none 1 near)
    ∷ (1, start_step none 1 near)
    ∷ (0, call_step false 2)
    ∷ (1, call_step false 2)
    ∷ (0, call_step true 3)
    ∷ (0, call_step false 4)
    ∷ (0, call_step false 5)
    ∷ (0, start_step none 6 near)
    ∷ (0, call_step false 7)
    ∷ (0, call_step false 8)
    ∷ []

announced_once_example :
    times (key_for near 80) (run schedule start).shared.sent
    ≤ 1 + drop_count (key_for near 80) schedule start
announced_once_example = announced_once (key_for near 80) ([] ∷ [] ∷ []) [] schedule

announced_at_last : (run schedule start).shared.sent ≡ key_for near 80 ∷ []
unfolding start_announce advance_worker claim release pending crossed_thresholds percent_used
    instant days_before_year days_in_month
announced_at_last = refl
