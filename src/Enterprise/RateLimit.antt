-- ===== src/Enterprise/RateLimit.antt =====
-- enterprise/rate_limit.py: the fixed-window limiter over its in-memory counters, whose keys are those of
-- the Redis limiter. The time is what `int(clock())` returns. A limit of 0 seconds is a division
-- by zero in Python; the windows here are positive.
use agentforgev.Common.{
  ℕ, ◌+◌, ◌*◌, ◌/◌, ◌<◌, ◌≡◌, ◌↔◌, ◌∙◌, refl, sym, ap, zero, suc, ◌&&◌, String, HasEq, Bool,
  Bool-cases, inl, inr, true, false, Option, none, some, List, [], ◌∷◌, ltb, ◌==◌, number_keys,
  text_keys, pair_keys, arith, if◌then◌else◌,
}
use native.Mathlib.Nat.{mul-div_cancel}
use agentforgev.Common.Dict.{Dict, lookup, insert, lookup-insert}

pub record Limiter : Type 0 where
  pub max_requests : ℕ
  pub window_seconds : ℕ

abbrev pub Counters : Type 0
Counters = Dict (String × ℕ) ℕ

abbrev pub window_start : ℕ → ℕ → ℕ
window_start window now = now / window * window

abbrev pub or_zero : Option ℕ → ℕ
or_zero none = 0
or_zero (some n) = n

abbrev pub key_of : Limiter → String → ℕ → String × ℕ
key_of l principal now = (principal, window_start l.window_seconds now)

-- Whether the request is permitted; `false` is the error 429. A refused request is counted, too.
unfoldable pub check : Limiter → String → ℕ → Counters → Bool × Counters
check l principal now d =
    let key = key_of l principal now in
    let current = or_zero (lookup key d) + 1 in
    ((if ltb l.max_requests current then false else true), insert key current d)

-- `NoOp_Rate_Limiter.check`
unfoldable pub check_noop : String → ℕ → Counters → Bool × Counters
check_noop principal now d = (true, d)

-- A request of a principal at a time.
abbrev pub Asked : Type 0
Asked = String × ℕ

-- The counters after some requests, the first one first.
abbrev pub check_all : Limiter → List Asked → Counters → Counters
check_all l [] d = d
check_all l ((p, t) ∷ rs) d = check_all l rs (check l p t d).1

module _ {K : Type 0} ⦃e : HasEq K⦄ where
  -- Counting one more under a key.
  count_one :
      (k j : K) (d : Dict K ℕ) (b : Bool)
      → (k == j) ≡ b
      → or_zero (lookup j (insert k (or_zero (lookup k d) + 1) d))
        ≡ (if b then or_zero (lookup j d) + 1 else or_zero (lookup j d))
  count_one k j d true h =
      let n = or_zero (lookup k d) + 1 in
      let q : lookup j (insert k n d) ≡ some n = lookup-insert k j n d ∙ rw h refl in
      ap or_zero q ∙ ap (λ i. or_zero (lookup i d) + 1) ((e.equals_iff k j).0 h)
  count_one k j d false h =
      let n = or_zero (lookup k d) + 1 in
      let q : lookup j (insert k n d) ≡ lookup j d = lookup-insert k j n d ∙ rw h refl in
      ap or_zero q

module _ (l : Limiter) where
  -- How many of the requests are the principal's and fall into the window of that time.
  abbrev pub asked : String → ℕ → List Asked → ℕ
  asked p t [] = 0
  asked p t ((q, u) ∷ rs) =
      let rest = asked p t rs in
      if (q == p) && (u / l.window_seconds == t / l.window_seconds) then rest + 1 else rest

  quotients_equal : (w a b : ℕ) → (a * w ≡ b * w → a ≡ b) → (a * w == b * w) ≡ (a == b)
  quotients_equal w a b back = ground (
    arith,
    number_keys.equals_iff (a * w) (b * w),
    number_keys.equals_iff a b,
    ap (λ n. n * w),
    back,
  )

  cancel : (w u t : ℕ) → u / w * w ≡ t / w * w → u / w ≡ t / w
  cancel zero u t e = omega arith
  cancel (suc w) u t e =
      let pos : 0 < suc w = omega arith in
      sym (mul-div_cancel (u / suc w) pos) ∙ ap (λ n. n / suc w) e ∙ mul-div_cancel (t / suc w) pos

  same_window :
      (u t : ℕ)
      → (window_start l.window_seconds u == window_start l.window_seconds t)
        ≡ (u / l.window_seconds == t / l.window_seconds)
  same_window u t = let w = l.window_seconds in quotients_equal w (u / w) (t / w) (cancel w u t)

  same_key :
      (p q : String) (u t : ℕ)
      → (key_of l q u == key_of l p t)
        ≡ ((q == p) && (u / l.window_seconds == t / l.window_seconds))
  same_key p q u t = ap (λ b. (q == p) && b) (same_window u t)

  counter_after :
      (p : String) (t : ℕ) (rs : List Asked) (d : Counters)
      → or_zero (lookup (key_of l p t) (check_all l rs d))
        ≡ or_zero (lookup (key_of l p t) d) + asked p t rs
  unfolding check
  counter_after p t [] d = omega arith
  counter_after p t ((q, u) ∷ rs) d =
      let d' = (check l q u d).1 in
      let one = count_one (key_of l q u) (key_of l p t) d in
      elim (Bool-cases (key_of l q u == key_of l p t)) [
        | inl same ↦
            rw (sym (same_key p q u t) ∙ same)
              (omega (arith, counter_after p t rs d', one true same))
        | inr other ↦
            rw (sym (same_key p q u t) ∙ other)
              (omega (arith, counter_after p t rs d', one false other))
      ]

  -- After any requests, a request is permitted exactly when fewer than the maximum of the earlier ones,
  -- refused ones included, were the same principal's in the same window. So no principal gets more than
  -- the maximum in one window, and what others ask makes no difference.
  pub check_iff :
      (rs : List Asked) (p : String) (t : ℕ)
      → ((check l p t (check_all l rs [])).0 ≡ true) ↔ (asked p t rs < l.max_requests)
  unfolding check
  check_iff rs p t = ground (arith, counter_after p t rs [])
