-- ===== src/Budget/Calendar/Period.antt =====
-- observability/budget.py: the period of a moment is the calendar month around it.
use agentforgev.Common.{
  ℕ, zero, suc, ◌+◌, ◌-◌, ◌*◌, ◌≤◌, ◌<◌, ◌≡◌, refl, sym, ap, ◌∙◌, Bool-cases, true, false, inl, inr,
  ◌⊎◌, ltb, number_keys, arith, if◌then◌else◌,
}
use agentforgev.Budget.Calendar.{
  Moment, days_in_month, days_before_month, days_before_year, micros_per_day, day_number, instant,
  next_day, add_days, current_period,
}

-- A date that exists, and a time of day.
pub record IsMoment (t : Moment) : Type 0 where
  pub month_from : 1 ≤ t.month
  pub month_to : t.month ≤ 12
  pub day_from : 1 ≤ t.day
  pub day_to : t.day ≤ days_in_month t.year t.month
  pub within_day : t.micros < micros_per_day

days_in_month_bounds : (y m : ℕ) → (28 ≤ days_in_month y m) × (days_in_month y m ≤ 31)
unfolding days_in_month
days_in_month_bounds y m = ground arith

abbrev pub at : ℕ → ℕ → ℕ → Moment
at y m d = record { year = y; month = m; day = d; micros = 0 }

abbrev pub following : ℕ → ℕ → Moment
following y m = if ltb m 12 then at y (m + 1) 1 else at (y + 1) 1 1

add_days_within : (n y m d : ℕ) → d + n ≤ days_in_month y m → add_days n (at y m d) ≡ at y m (d + n)
unfolding add_days next_day
add_days_within zero y m d h = ap (at y m) (omega arith)
add_days_within (suc n) y m d h =
    let step : next_day (at y m d) ≡ at y m (d + 1) = ground arith in
    let q : d + 1 + n ≡ d + suc n = omega arith in
    ap (add_days n) step ∙ add_days_within n y m (d + 1) (omega arith) ∙ ap (at y m) q

add_days-add : (a b : ℕ) (t : Moment) → add_days (a + b) t ≡ add_days b (add_days a t)
unfolding add_days
add_days-add zero b t = let q : zero + b ≡ b = omega arith in ap (λ n. add_days n t) q
add_days-add (suc a) b t =
    let q : suc a + b ≡ suc (a + b) = omega arith in
    ap (λ n. add_days n t) q ∙ add_days-add a b (next_day t)

next_day_of_last : (y m : ℕ) → next_day (at y m (days_in_month y m)) ≡ following y m
unfolding next_day
next_day_of_last y m = ground arith

-- 31 days after the first of a month lie in the month after it.
add_days_31 :
    (y m : ℕ) → add_days 31 (at y m 1) ≡ record (following y m) { day = 32 - days_in_month y m }
unfolding add_days
add_days_31 y m =
    let l = days_in_month y m in
    let b = days_in_month_bounds y m in
    let split : 31 ≡ (l - 1) + suc (31 - l) = omega (arith, b) in
    let last : 1 + (l - 1) ≡ l = omega (arith, b) in
    ap (λ n. add_days n (at y m 1)) split
    ∙ add_days-add (l - 1) (suc (31 - l)) (at y m 1)
    ∙ ap (add_days (suc (31 - l)))
        (add_days_within (l - 1) y m 1 (omega (arith, b)) ∙ ap (at y m) last)
    ∙ ap (add_days (31 - l)) (next_day_of_last y m)
    ∙ into_next (Bool-cases (ltb m 12))
  where
    rest :
        (y' m' : ℕ)
        → add_days (31 - days_in_month y m) (at y' m' 1) ≡ at y' m' (32 - days_in_month y m)
    rest y' m' =
        let b = days_in_month_bounds y m in
        let b' = days_in_month_bounds y' m' in
        let q : 1 + (31 - days_in_month y m) ≡ 32 - days_in_month y m = omega (arith, b) in
        add_days_within (31 - days_in_month y m) y' m' 1 (omega (arith, b, b')) ∙ ap (at y' m') q

    into_next :
        (ltb m 12 ≡ true) ⊎ (ltb m 12 ≡ false)
        → add_days (31 - days_in_month y m) (following y m)
          ≡ record (following y m) { day = 32 - days_in_month y m }
    into_next (inl h) = rw h (rest y (m + 1))
    into_next (inr h) = rw h (rest (y + 1) 1)

days_before_year_next :
    (y : ℕ)
    → days_before_year (y + 1) ≡ days_before_year y + days_before_month y 11 + days_in_month y 12
unfolding days_before_year
days_before_year_next y =
    let q : y + 1 ≡ suc y = omega arith in
    let r : days_before_year (y + 1) ≡ days_before_year (suc y) = ap days_before_year q in
    omega (arith, r)

day_number-following :
    (y m : ℕ)
    → 1 ≤ m
    → m ≤ 12
    → day_number (following y m) ≡ day_number (at y m 1) + days_in_month y m
day_number-following y zero h k = absurd (omega arith)
day_number-following y (suc m) h k =
    let here : suc m - 1 ≡ m = omega arith in
    let there : suc m + 1 - 1 ≡ suc m = omega arith in
    let one : m + 1 ≡ suc m = omega arith in
    let first : days_before_month y (suc m - 1) ≡ days_before_month y m =
      ap (days_before_month y) here in
    let length : days_in_month y (m + 1) ≡ days_in_month y (suc m) = ap (days_in_month y) one in
    elim (Bool-cases (ltb (suc m) 12)) [
      | inl q ↦
          (let next : days_before_month y (suc m + 1 - 1)
                ≡ days_before_month y m + days_in_month y (m + 1) =
              ap (days_before_month y) there in
            rw q (omega (arith, first, next, length)))
      | inr q ↦
          (let last : suc m ≡ 12 = ground (arith, q, k) in
            let before : days_before_month y (suc m - 1) ≡ days_before_month y 11 =
              ap (λ n. days_before_month y (n - 1)) last in
            let twelve : days_in_month y (suc m) ≡ days_in_month y 12 = ap (days_in_month y) last in
            rw q (new_year before twelve))
    ]
  where
    new_year :
        days_before_month y (suc m - 1) ≡ days_before_month y 11
        → days_in_month y (suc m) ≡ days_in_month y 12
        → day_number (at (y + 1) 1 1) ≡ day_number (at y (suc m) 1) + days_in_month y (suc m)
    new_year before twelve = omega (arith, before, twelve, days_before_year_next y)

current_period_start : (now : Moment) → (current_period now).0 ≡ at now.year now.month 1
unfolding current_period
current_period_start now = refl

current_period_stop : (now : Moment) → (current_period now).1 ≡ following now.year now.month
unfolding current_period
current_period_stop now =
    let back : Moment → Moment = λ t. record t { day = 1 } in
    ap back (add_days_31 now.year now.month) ∙ first (Bool-cases (ltb now.month 12))
  where
    first :
        (ltb now.month 12 ≡ true) ⊎ (ltb now.month 12 ≡ false)
        → record (following now.year now.month) { day = 1 } ≡ following now.year now.month
    first (inl h) = rw h refl
    first (inr h) = rw h refl

instant_of_month :
    (now : Moment)
    → IsMoment now
    → (instant (at now.year now.month 1) ≤ instant now)
      × (instant now < instant (following now.year now.month))
unfolding instant
instant_of_month now h =
    let q = day_number-following now.year now.month h.month_from h.month_to in
    let m : (following now.year now.month).micros ≡ 0 = ground arith in
    (omega (arith, h.day_from), omega (arith, q, m, h.day_from, h.day_to, h.within_day))

first-following : (y m : ℕ) → at (following y m).year (following y m).month 1 ≡ following y m
first-following y m = elim (Bool-cases (ltb m 12)) [ inl h ↦ rw h refl | inr h ↦ rw h refl ]

month_after :
    (y m : ℕ) → m ≤ 12 → (following y m).year * 12 + (following y m).month ≡ y * 12 + m + 1
month_after y m h = elim (Bool-cases (ltb m 12)) [
  | inl q ↦ rw q (omega arith)
  | inr q ↦ (let last : m ≡ 12 = ground arith in rw q (omega (arith, last)))
]

-- The period of a moment runs from the first of its month to the first of the next month, the end not included:
-- the moment lies in it, the end is one month after the start, and the next period starts where this one
-- ends. So the periods neither overlap nor leave a gap, and each moment has exactly one.
pub current_period_bounds :
    (now : Moment)
    → IsMoment now
    → let (start, stop) = current_period now in
      (start ≡ at now.year now.month 1)
      × (instant start ≤ instant now)
      × (instant now < instant stop)
      × (stop ≡ at stop.year stop.month 1)
      × (stop.year * 12 + stop.month ≡ now.year * 12 + now.month + 1)
      × ((current_period stop).0 ≡ stop)
current_period_bounds now h = rw (current_period_start now) (
    rw (current_period_stop now) (
      refl,
      (instant_of_month now h).0,
      (instant_of_month now h).1,
      sym (first-following now.year now.month),
      month_after now.year now.month (h.month_to),
      current_period_start (following now.year now.month) ∙ first-following now.year now.month,
    ))
