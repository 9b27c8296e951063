-- ===== src/Webhooks/Outbox/Requeue.antt =====
-- `requeue` of webhooks/outbox.py, and the schedule of `next_attempt_delay`.
use agentforgev.Common.{
  ℕ, suc, ◌-◌, ◌*◌, ◌^◌, ◌≡◌, ◌≢◌, ◌⊎◌, ◌∙◌, inl, inr, refl, sym, ap, min, true, Option, none, some,
  arith, ◌==◌, number_keys, Bool-cases,
}
use agentforgev.Common.Dict.{lookup, lookup-insert_self, lookup-insert_ne}
use agentforgev.Webhooks.Entry.{Entry, is_abandoned, next_attempt_delay, max_attempt_delay, is_due}
use agentforgev.Webhooks.Outbox.{Outbox, get, requeue, requeue_found, requeued, if_owned}

-- An entry of the organization that was given up.
abbrev pub CanRequeue : ℕ → ℕ → Outbox → Entry → Type 0
CanRequeue org id box e =
    (lookup id box ≡ some e) × (e.org_id ≡ org) × (is_abandoned e.status ≡ true)

module _ (org id now : ℕ) (box : Outbox) where
  -- The call changed nothing.
  abbrev pub Refused : Option Entry × Outbox → Type 0
  Refused r = (r.0 ≡ none) × (r.1 ≡ box) × ((e : Entry) → CanRequeue org id box e → ⊥)

  -- The entry can be claimed at once, with all its attempts before it.
  abbrev pub Requeued : Option Entry × Outbox → Type 0
  Requeued r =
      (e : Entry) × CanRequeue org id box e
      × (r.0 ≡ some (requeued now e))
      × (lookup id r.1 ≡ some (requeued now e))
      × ((requeued now e).attempts ≡ 0)
      × (is_due now (requeued now e) ≡ true)
      × ((k : ℕ) → id ≢ k → lookup k r.1 ≡ lookup k box)

  owned_cases :
      (o : Option Entry) (found : lookup id box ≡ o)
      → Refused (requeue_found (if_owned org o) id now box)
        ⊎ Requeued (requeue_found (if_owned org o) id now box)
  unfolding is_due
  owned_cases none found = inl (refl, refl, (λ e (l, _, _). cc))
  owned_cases (some e) found = elim (Bool-cases (e.org_id == org)) [
    | inr other ↦ simp other (
        inl (
          refl,
          refl,
          (λ x (l, o, _).
              let both : some x ≡ some e = sym l ∙ found in
              let q : x ≡ e = cc in
              let o' : e.org_id ≡ org = ap (λ (t : Entry). t.org_id) (sym q) ∙ o in ground arith),
        ))
    | inl own ↦ elim (Bool-cases (is_abandoned e.status)) [
      | inl gone ↦ simp own (
          simp gone (
            inr (
              e,
              (found, ground arith, gone),
              refl,
              lookup-insert_self id (requeued now e) box,
              refl,
              ground arith,
              (λ k h. lookup-insert_ne id k (requeued now e) box h),
            )))
      | inr kept ↦ simp own (
          simp kept (
            inl (
              refl,
              refl,
              (λ x (l, _, a).
                  let both : some x ≡ some e = sym l ∙ found in
                  let q : x ≡ e = cc in
                  let a' : is_abandoned e.status ≡ true =
                    ap (λ (t : Entry). is_abandoned t.status) (sym q) ∙ a in
                  ground arith),
            )))
    ]
  ]

  -- An operator can requeue exactly the abandoned entries of the own organization: such an entry is due
  -- at once, free of its lease and of its attempts, and no other entry changes; anything else is refused
  -- and changes nothing.
  pub requeue_cases : Refused (requeue org id now box) ⊎ Requeued (requeue org id now box)
  unfolding requeue get
  requeue_cases = owned_cases (lookup id box) refl

power_suc : (n : ℕ) → 2 ^ (suc n) ≡ 2 * 2 ^ n
power_suc n = omega arith

out_of : (a x : ℕ) → a * (2 * x) ≡ 2 * (a * x)
out_of a x = omega arith

-- The first retry waits for the base, and each one after it twice as long as the one before, up to six
-- hours.
pub next_attempt_delay_doubles :
    (base n : ℕ)
    → (next_attempt_delay 1 base ≡ min base max_attempt_delay)
      × (next_attempt_delay (suc (suc n)) base
          ≡ min (2 * next_attempt_delay (suc n) base) max_attempt_delay)
unfolding next_attempt_delay
next_attempt_delay_doubles base n =
    let x = 2 ^ (suc n - 1) in
    let e : suc n - 1 ≡ n = omega arith in
    let e' : suc (suc n) - 1 ≡ suc n = omega arith in
    let p : 2 ^ (suc (suc n) - 1) ≡ 2 * x =
      ap (λ k. 2 ^ k) e' ∙ power_suc n ∙ ap (λ k. 2 * 2 ^ k) (sym e) in
    let q : base * 2 ^ (suc (suc n) - 1) ≡ 2 * (base * x) = ap (λ y. base * y) p ∙ out_of base x in
    (omega arith, omega (arith, q))
