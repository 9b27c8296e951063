-- ===== src/Budget/Alerts/Once.antt =====
-- observability/budget_alerts.py: however the calls of the workers interleave, nothing is announced twice.
use agentforgev.Common.{
  ℕ, zero, suc, ◌+◌, ◌≤◌, ◌≡◌, refl, sym, ap, ◌∙◌, Bool, Bool-cases, true, false, ◌&&◌, inl, inr,
  List, [], ◌∷◌, ◌==◌, number_keys, pair_keys, map, arith, if◌then◌else◌,
}
use agentforgev.Common.Dict.{
  insert, erase, has_key, remove_where, has_key-insert, has_key-erase_ne, has_key-remove_where,
}
use agentforgev.Budget.Calendar.{instant}
use agentforgev.Budget.{BudgetStatus, percent_used}
use agentforgev.Budget.Alerts.{
  crossed_thresholds, AlertKey, key_for, Claims, claim, release, is_dropped, release_except, Memo,
  record_attempt, Phase, idle, looping, emitting, releasing, Worker, Shared, start_phase,
  start_announce, after_claim, advance, advance_worker, reconcile, reconcile_if, ceiling_is_current,
  pending,
}
use agentforgev.Budget.Alerts.Steps.{
  Step, is_idle, step, System, step_at, system_step, run, bit, times, drops, drop_count, in_flight,
  all_in_flight, Balanced, start_step, call_step, reconcile_step,
}

bit-le_one : (b : Bool) → bit b ≤ 1
bit-le_one true = omega arith
bit-le_one false = omega arith

module _ (k : AlertKey) where
  claim-Balanced :
      (s : BudgetStatus) (t : ℕ) (ts : List ℕ) (now : ℕ) (memo memo' : Memo) (sh : Shared)
      → Balanced k 0
          (record { memo = memo; phase = looping s (t ∷ ts) })
          sh
          (after_claim (claim (key_for s t) now sh.claims) s t ts memo' sh)
  unfolding claim
  claim-Balanced s t ts now memo memo' sh = elim (Bool-cases (has_key (key_for s t) sh.claims)) [
    | inl q ↦ rw q (omega arith)
    | inr q ↦ rw q (elim (Bool-cases (key_for s t == k)) [
      | inl e ↦
          (let absent : has_key k sh.claims ≡ false =
              ap (λ j. has_key j sh.claims) (sym ((pair_keys.equals_iff (key_for s t) k).0 e))
              ∙ q in
            let here : has_key k (insert (key_for s t) now sh.claims) ≡ true =
              has_key-insert (key_for s t) k now sh.claims ∙ rw e refl in
            rw e (rw absent (rw here (omega arith))))
      | inr e ↦
          (let here : has_key k (insert (key_for s t) now sh.claims) ≡ has_key k sh.claims =
              has_key-insert (key_for s t) k now sh.claims ∙ rw e refl in
            rw e (rw here (omega arith)))
    ])
  ]

  release-Balanced :
      (s : BudgetStatus) (t : ℕ) (ts : List ℕ) (memo memo' : Memo) (sh : Shared)
      → Balanced k 0
          (record { memo = memo; phase = releasing s t ts })
          sh
          (
            record { memo = memo'; phase = looping s ts },
            record sh { claims = (release (key_for s t) sh.claims).1 },
          )
  unfolding release
  release-Balanced s t ts memo memo' sh = elim (Bool-cases (key_for s t == k)) [
    | inl q ↦ rw q (
        omega (
          arith,
          bit-le_one (has_key k sh.claims),
          bit-le_one (has_key k (erase (key_for s t) sh.claims)),
        ))
    | inr q ↦ rw q (elim (Bool-cases (has_key k sh.claims)) [
      | inl h ↦
          (let kept : has_key k (erase (key_for s t) sh.claims) ≡ true =
              has_key-erase_ne (key_for s t) k sh.claims
                (λ e. cc (q, (pair_keys.equals_iff (key_for s t) k).1 e)) h in
            rw h (rw kept (omega arith)))
      | inr h ↦ rw h (omega arith)
    ])
  ]

  advance-Balanced :
      (phase : Phase) (failed : Bool) (now : ℕ) (memo : Memo) (sh : Shared)
      → Balanced k 0 (record { memo = memo; phase = phase }) sh (advance phase failed now memo sh)
  advance-Balanced idle failed now memo sh = omega arith
  advance-Balanced (looping s []) failed now memo sh = omega arith
  advance-Balanced (looping s (t ∷ ts)) failed now memo sh =
      claim-Balanced s t ts now memo (record_attempt (key_for s t) now memo) sh
  advance-Balanced (emitting s t ts) true now memo sh = omega arith
  advance-Balanced (emitting s t ts) false now memo sh = omega arith
  advance-Balanced (releasing s t ts) failed now memo sh = release-Balanced s t ts memo memo sh

  reconcile_if-Balanced :
      (authoritative : Bool) (org start : ℕ) (keep : List ℕ) (w : Worker) (sh : Shared)
      → Balanced k
          (bit (authoritative && (is_dropped org start keep k && has_key k sh.claims)))
          w
          sh
          (reconcile_if authoritative org start keep w sh).1
  unfolding release_except
  reconcile_if-Balanced false org start keep w sh = omega arith
  reconcile_if-Balanced true org start keep w sh =
      let p = is_dropped org start keep in
      elim (Bool-cases (p k)) [
        | inl d ↦
            (let gone : has_key k (remove_where p sh.claims) ≡ false =
                has_key-remove_where p k sh.claims ∙ rw d refl in
              rw d (rw gone (omega arith)))
        | inr d ↦
            (let kept : has_key k (remove_where p sh.claims) ≡ has_key k sh.claims =
                has_key-remove_where p k sh.claims ∙ rw d refl in
              rw d (rw kept (omega arith)))
      ]

  start_phase-in_flight :
      (current : Bool) (s : BudgetStatus) (ts : List ℕ) → in_flight k (start_phase current s ts) ≡ 0
  start_phase-in_flight current s [] = refl
  start_phase-in_flight false s (t ∷ ts) = refl
  start_phase-in_flight true s (t ∷ ts) = refl

  started_or_not :
      (b : Bool) (w w' : Worker)
      → in_flight k w'.phase ≡ 0
      → in_flight k (if b then w' else w).phase ≤ in_flight k w.phase
  started_or_not true w w' h = omega (arith, h)
  started_or_not false w w' h = omega arith

  step-Balanced :
      (x : Step) (w : Worker) (sh : Shared) → Balanced k (bit (drops k x sh)) w sh (step x w sh)
  unfolding start_announce advance_worker reconcile
  step-Balanced (start_step budgets now s) w sh = omega (
    arith,
    started_or_not (is_idle w.phase) w (start_announce budgets now s w)
        (start_phase-in_flight (ceiling_is_current budgets s) s (pending w.memo now s)),
  )
  step-Balanced (call_step failed now) w sh = advance-Balanced w.phase failed now w.memo sh
  step-Balanced (reconcile_step s) w sh =
      reconcile_if-Balanced s.spend_is_authoritative s.org_id (instant s.period_start)
        (crossed_thresholds (percent_used s) s.limit_amount) w sh

  step_at-Balanced :
      (i : ℕ) (x : Step) (ws : List Worker) (sh : Shared)
      → let (ws', sh') = step_at i x ws sh in
        times k sh'.sent + all_in_flight k ws' + bit (has_key k sh.claims)
        ≤ times k sh.sent + all_in_flight k ws + bit (has_key k sh'.claims) + bit (drops k x sh)
  step_at-Balanced i x [] sh = omega arith
  step_at-Balanced zero x (w ∷ ws) sh = omega (arith, step-Balanced x w sh)
  step_at-Balanced (suc i) x (w ∷ ws) sh = omega (arith, step_at-Balanced i x ws sh)

  run-Balanced :
      (xs : List (ℕ × Step)) (y : System)
      → let y' = run xs y in
        times k y'.shared.sent + all_in_flight k y'.workers + bit (has_key k y.shared.claims)
        ≤ times k y.shared.sent
          + all_in_flight k y.workers
          + bit (has_key k y'.shared.claims)
          + drop_count k xs y
  run-Balanced [] y = omega arith
  run-Balanced ((i, x) ∷ xs) y =
      omega (arith, step_at-Balanced i x y.workers y.shared, run-Balanced xs (system_step (i, x) y))

abbrev pub idle_with : Memo → Worker
idle_with memo = record { memo = memo; phase = idle }

all_idle : (k : AlertKey) (memos : List Memo) → all_in_flight k (map idle_with memos) ≡ 0
all_idle k [] = refl
all_idle k (m ∷ memos) = omega (arith, all_idle k memos)

pub announced_once :
    (k : AlertKey) (memos : List Memo) (claims : Claims) (xs : List (ℕ × Step))
    → let y : System = record {
      workers = map idle_with memos;
      shared = record { claims = claims; sent = [] };
    } in
      times k (run xs y).shared.sent ≤ 1 + drop_count k xs y
announced_once k memos claims xs =
    let y : System = record {
      workers = map idle_with memos;
      shared = record { claims = claims; sent = [] };
    } in
    omega (
      arith,
      run-Balanced k xs y,
      all_idle k memos,
      bit-le_one (has_key k (run xs y).shared.claims),
    )
