-- ===== src/Budget/Guard.antt =====
-- observability/budget.py: where the spend comes from that `Budget_Guard.status` reports and decides by.
use agentforgev.Common.{
  ℕ, ◌+◌, ◌≤◌, ◌<◌, ◌≡◌, ◌≢◌, ◌↔◌, refl, sym, ap, ◌∙◌, Bool, Bool-cases, true, false, ◌&&◌, Option,
  none, some, inl, inr, ◌⊎◌, List, [], ◌∷◌, ltb, ltb→lt, ◌==◌, number_keys, pair_keys, arith,
}
use agentforgev.Common.Dict.{Dict, lookup, lookup-of_insert, remove_where, lookup-remove_where}
use agentforgev.Budget.Calendar.{Moment, instant, current_period}
use agentforgev.Budget.{
  BudgetAction, warn, block, SpendBudget, BudgetStore, BudgetGuard, limit_of, action_of,
  is_exceeded, is_block, fresh_spend, forget_others, counted_spend, cached_or_counted,
  spend_for_period, status, invalidate,
}

-- The calls of a guard. What the report would answer, and the budgets there are, may differ at each of them.
pub data GuardCall : Type 0 where
  status_call : (ℕ → ℕ → Option ℕ) → BudgetStore → ℕ → Moment → GuardCall
  invalidate_call : ℕ → GuardCall

abbrev pub period_of : Moment → ℕ
period_of now = instant (current_period now).0

-- The guard after some calls, the last of them in front.
abbrev pub guard_after : ℕ → List GuardCall → BudgetGuard
guard_after cache_micros [] = record { cache = []; cache_micros = cache_micros }
guard_after cache_micros (status_call report budgets org now ∷ past) =
    (status report budgets org now (guard_after cache_micros past)).1
guard_after cache_micros (invalidate_call org ∷ past) =
    invalidate org (guard_after cache_micros past)

-- Of the calls since the guard was last told to forget the organization, one asked for the same period at
-- the instant `at`, and the report then answered `spent`.
abbrev pub WasCounted : ℕ × ℕ → ℕ → ℕ → List GuardCall → Type 0
WasCounted key at spent [] = ⊥
WasCounted key at spent (status_call report budgets org now ∷ past) =
    ((key ≡ (org, period_of now))
      × (at ≡ instant now)
      × (report (period_of now) (instant now) ≡ some spent))
    ⊎ WasCounted key at spent past
WasCounted key at spent (invalidate_call org ∷ past) = (key.0 ≢ org) × WasCounted key at spent past

abbrev Explained : List GuardCall → BudgetGuard → Type 0
Explained past g =
    (key : ℕ × ℕ) (at spent : ℕ)
    → lookup key g.cache ≡ some (at, spent)
    → WasCounted key at spent past

lookup-of_remove_where :
    {V : Type 0} (p : ℕ × ℕ → Bool) (k : ℕ × ℕ) (v : V) (d : Dict (ℕ × ℕ) V)
    → lookup k (remove_where p d) ≡ some v
    → (p k ≡ false) × (lookup k d ≡ some v)
lookup-of_remove_where p k v d h = elim (Bool-cases (p k)) [
  | inl q ↦
      (let n : lookup k (remove_where p d) ≡ none = lookup-remove_where p k d ∙ rw q refl in
        cc (n, h))
  | inr q ↦ (q, sym (lookup-remove_where p k d ∙ rw q refl) ∙ h)
]

module _ (report : ℕ → ℕ → Option ℕ) (budgets : BudgetStore) (org : ℕ) (now : Moment)
    (past : List GuardCall) where
  counted_spend-Explained :
      (o : Option ℕ) (g : BudgetGuard)
      → report (period_of now) (instant now) ≡ o
      → Explained past g
      → Explained
          (status_call report budgets org now ∷ past)
          (counted_spend o (org, period_of now) (instant now) g).1
  counted_spend-Explained none g e h key at spent l = inr (h key at spent l)
  counted_spend-Explained (some n) g e h key at spent l =
      elim (lookup-of_insert (org, period_of now) key (instant now, n) (at, spent)
        (forget_others (org, period_of now) g.cache) l) [
          | inl (q, r) ↦ inl (sym q, sym (ap (λ p. p.0) r), e ∙ ap (λ p. some p.1) r)
          | inr (q, l') ↦
              inr (h key at spent (lookup-of_remove_where _ key (at, spent) g.cache l').1)
        ]

  cached_or_counted-Explained :
      (c : Option ℕ) (g : BudgetGuard)
      → Explained past g
      → Explained
          (status_call report budgets org now ∷ past)
          (cached_or_counted c
            (report (period_of now) (instant now))
            (org, period_of now)
            (instant now)
            g).1
  cached_or_counted-Explained (some n) g h key at spent l = inr (h key at spent l)
  cached_or_counted-Explained none g h key at spent l =
      counted_spend-Explained (report (period_of now) (instant now)) g refl h key at spent l

guard_after-Explained :
    (cache_micros : ℕ) (past : List GuardCall) → Explained past (guard_after cache_micros past)
unfolding status spend_for_period invalidate
guard_after-Explained cache_micros [] key at spent l = cc l
guard_after-Explained cache_micros (status_call report budgets org now ∷ past) key at spent l =
    let g = guard_after cache_micros past in
    cached_or_counted-Explained report budgets org now past
      (fresh_spend (lookup (org, period_of now) g.cache) (instant now) g.cache_micros) g
      (guard_after-Explained cache_micros past) key at spent l
guard_after-Explained cache_micros (invalidate_call org ∷ past) key at spent l =
    let g = guard_after cache_micros past in
    let (p, l') = lookup-of_remove_where (λ k. k.0 == org) key (at, spent) g.cache l in
    (
      (λ q. cc (p, (number_keys.equals_iff key.0 org).1 q)),
      guard_after-Explained cache_micros past key at spent l',
    )

cache_micros-guard_after :
    (cache_micros : ℕ) (past : List GuardCall)
    → (guard_after cache_micros past).cache_micros ≡ cache_micros
unfolding status spend_for_period invalidate
cache_micros-guard_after cache_micros [] = refl
cache_micros-guard_after cache_micros (status_call report budgets org now ∷ past) =
    let g = guard_after cache_micros past in
    kept (fresh_spend (lookup (org, period_of now) g.cache) (instant now) g.cache_micros)
      (report (period_of now) (instant now)) (org, period_of now) (instant now) g
    ∙ cache_micros-guard_after cache_micros past
  where
    kept :
        (c r : Option ℕ) (key : ℕ × ℕ) (now : ℕ) (g : BudgetGuard)
        → (cached_or_counted c r key now g).1.cache_micros ≡ g.cache_micros
    kept (some n) r key now g = refl
    kept none none key now g = refl
    kept none (some n) key now g = refl
cache_micros-guard_after cache_micros (invalidate_call org ∷ past) =
    cache_micros-guard_after cache_micros past

-- How the spend of a status came about: counted now, counted before and not yet too old, or not known.
abbrev pub SpendCases : (ℕ → ℕ → Option ℕ) → ℕ → Moment → ℕ → List GuardCall → ℕ → Bool → Type 0
SpendCases report org now cache_micros past spent authoritative =
    ((authoritative ≡ true) × (report (period_of now) (instant now) ≡ some spent))
    ⊎ (((authoritative ≡ true)
          × ((at : ℕ) × WasCounted (org, period_of now) at spent past
              × (instant now < at + cache_micros)))
        ⊎ ((authoritative ≡ false) × (spent ≡ 0) × (report (period_of now) (instant now) ≡ none)))

counted_spend_cases :
    (report : ℕ → ℕ → Option ℕ) (org : ℕ) (now : Moment) (cache_micros : ℕ) (past : List GuardCall)
    (o : Option ℕ) (g : BudgetGuard)
    → report (period_of now) (instant now) ≡ o
    → let r = (counted_spend o (org, period_of now) (instant now) g).0 in
      SpendCases report org now cache_micros past r.0 r.1
counted_spend_cases report org now cache_micros past none g e = inr (inr (refl, refl, e))
counted_spend_cases report org now cache_micros past (some n) g e = inl (refl, e)

fresh_spend_cases :
    (report : ℕ → ℕ → Option ℕ) (org : ℕ) (now : Moment) (cache_micros : ℕ) (past : List GuardCall)
    (c : Option (ℕ × ℕ)) (g : BudgetGuard)
    → ((at n : ℕ) → c ≡ some (at, n) → WasCounted (org, period_of now) at n past)
    → let r =
        (cached_or_counted
          (fresh_spend c (instant now) cache_micros)
          (report (period_of now) (instant now))
          (org, period_of now)
          (instant now)
          g).0 in
      SpendCases report org now cache_micros past r.0 r.1
fresh_spend_cases report org now cache_micros past none g h =
    counted_spend_cases report org now cache_micros past (report (period_of now) (instant now)) g
      refl
fresh_spend_cases report org now cache_micros past (some (at, n)) g h =
    elim (Bool-cases (ltb (instant now) (at + cache_micros))) [
      | inl q ↦
          rw q (inr (inl (refl, (at, h at n refl, ltb→lt (instant now) (at + cache_micros) q))))
      | inr q ↦ rw q (
          counted_spend_cases report org now cache_micros past
            (report (period_of now) (instant now)) g refl)
    ]

is_blocked_iff :
    (b : Option SpendBudget) (spent : ℕ)
    → (is_exceeded (limit_of b) spent && is_block (action_of b) ≡ true)
      ↔ ((x : SpendBudget) × (b ≡ some x) × (x.limit_amount ≤ spent) × (x.action ≡ block))
is_blocked_iff none spent = ((λ h. cc h), (λ h. cc (h.1)))
is_blocked_iff (some x) spent = (
  (λ h. (x, refl, ground arith, is_block-eq x.action (ground arith))),
  (λ (y, e, l, a). ground (arith, e, l, a)),
)
  where
    is_block-eq : (a : BudgetAction) → is_block (some a) ≡ true → a ≡ block
    is_block-eq block h = refl
    is_block-eq warn h = cc h

-- Ask a guard for the status of an organization, after any calls. The spend in it is what the report
-- answers now for the period so far; or what it answered to an earlier call for the same organization
-- and the same period, less than the cache time ago and since the guard was last told to forget the
-- organization; or it is marked as not authoritative, and then it is 0 and the report has raised. And the
-- organization is blocked exactly if it has a budget with the action `block` and this spend has reached
-- the limit.
pub status_cases :
    (cache_micros : ℕ) (past : List GuardCall) (report : ℕ → ℕ → Option ℕ) (budgets : BudgetStore)
    (org : ℕ) (now : Moment)
    → let s = (status report budgets org now (guard_after cache_micros past)).0 in
      SpendCases report org now cache_micros past s.spent s.spend_is_authoritative
      × ((s.blocked ≡ true) ↔ (
          (b : SpendBudget) × (lookup org budgets ≡ some b)
          × (b.limit_amount ≤ s.spent)
          × (b.action ≡ block)))
unfolding status spend_for_period
status_cases cache_micros past report budgets org now =
    let g = guard_after cache_micros past in
    let key : ℕ × ℕ = (org, period_of now) in
    (
      rw (cache_micros-guard_after cache_micros past) (
          fresh_spend_cases report org now cache_micros past (lookup key g.cache) g
            (λ at n l. guard_after-Explained cache_micros past key at n l)),
      is_blocked_iff (lookup org budgets) _,
    )
