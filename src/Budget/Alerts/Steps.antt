-- ===== src/Budget/Alerts/Steps.antt =====
-- The steps of the workers of observability/budget_alerts.py in any order, and how often a threshold is announced.
use agentforgev.Common.{
  ℕ, zero, suc, ◌+◌, ◌≤◌, Bool, true, false, ◌&&◌, Option, List, [], ◌∷◌, ◌==◌, number_keys,
  pair_keys, if◌then◌else◌,
}
use agentforgev.Common.Dict.{has_key}
use agentforgev.Budget.Calendar.{instant}
use agentforgev.Budget.{BudgetStatus, BudgetStore, percent_used}
use agentforgev.Budget.Alerts.{
  crossed_thresholds, AlertKey, key_for, is_dropped, Phase, idle, looping, emitting, releasing,
  Worker, Shared, start_announce, advance_worker, reconcile,
}

-- What a worker does next: take up a status, make its next call, or reconcile.
pub data Step : Type 0 where
  start_step : Option BudgetStore → ℕ → BudgetStatus → Step
  call_step : Bool → ℕ → Step
  reconcile_step : BudgetStatus → Step

abbrev pub is_idle : Phase → Bool
is_idle idle = true
is_idle (looping s ts) = false
is_idle (emitting s t ts) = false
is_idle (releasing s t ts) = false

abbrev pub step : Step → Worker → Shared → Worker × Shared
step (start_step budgets now s) w sh =
    (if is_idle w.phase then start_announce budgets now s w else w, sh)
step (call_step failed now) w sh = advance_worker failed now w sh
step (reconcile_step s) w sh = (reconcile s w sh).1

pub record System : Type 0 where
  pub workers : List Worker
  pub shared : Shared

-- The worker at a place makes a step; at a place where there is none, nothing happens.
abbrev pub step_at : ℕ → Step → List Worker → Shared → List Worker × Shared
step_at i x [] sh = ([], sh)
step_at zero x (w ∷ ws) sh = let (w', sh') = step x w sh in (w' ∷ ws, sh')
step_at (suc i) x (w ∷ ws) sh = let (ws', sh') = step_at i x ws sh in (w ∷ ws', sh')

abbrev pub system_step : ℕ × Step → System → System
system_step (i, x) y =
    let (ws, sh) = step_at i x y.workers y.shared in record { workers = ws; shared = sh }

abbrev pub run : List (ℕ × Step) → System → System
run [] y = y
run (x ∷ xs) y = run xs (system_step x y)

abbrev pub bit : Bool → ℕ
bit b = if b then 1 else 0

-- How often a key was enqueued.
abbrev pub times : AlertKey → List AlertKey → ℕ
times k [] = 0
times k (j ∷ js) = bit (j == k) + times k js

-- Whether a step of a worker is a reconciliation that drops the claim of a key.
abbrev pub drops : AlertKey → Step → Shared → Bool
drops k (start_step budgets now s) sh = false
drops k (call_step failed now) sh = false
drops k (reconcile_step s) sh =
    s.spend_is_authoritative
    && (is_dropped s.org_id (instant s.period_start)
          (crossed_thresholds (percent_used s) s.limit_amount) k
        && has_key k sh.claims)

abbrev pub drop_count : AlertKey → List (ℕ × Step) → System → ℕ
drop_count k [] y = 0
drop_count k (x ∷ xs) y = bit (drops k x.1 y.shared) + drop_count k xs (system_step x y)

abbrev pub in_flight : AlertKey → Phase → ℕ
in_flight k idle = 0
in_flight k (looping s ts) = 0
in_flight k (emitting s t ts) = bit (key_for s t == k)
in_flight k (releasing s t ts) = bit (key_for s t == k)

abbrev pub all_in_flight : AlertKey → List Worker → ℕ
all_in_flight k [] = 0
all_in_flight k (w ∷ ws) = in_flight k w.phase + all_in_flight k ws

-- What a step may add to the announcements made and in flight, against the claims.
abbrev pub Balanced : AlertKey → ℕ → Worker → Shared → Worker × Shared → Type 0
Balanced k d w sh (w', sh') =
    times k sh'.sent + in_flight k w'.phase + bit (has_key k sh.claims)
    ≤ times k sh.sent + in_flight k w.phase + bit (has_key k sh'.claims) + d
