-- ===== src/Webhooks/Outbox/Keyed.antt =====
-- The outbox of webhooks/outbox.py as a dict from ids to the entries that carry them.
use agentforgev.Common.{
  ℕ, ◌≡◌, ◌≢◌, ◌∙◌, ◌⊎◌, inl, inr, refl, ap, false, none, some, List, [], ◌∷◌, arith, ◌==◌,
  number_keys, Bool-cases,
}
use agentforgev.Common.Dict.{
  lookup, insert, erase, values, lookup-insert, lookup-insert_ne, lookup-erase_ne,
}
use agentforgev.Common.Sort.{In}
use agentforgev.Webhooks.Entry.{Entry, leased}
use agentforgev.Webhooks.Outbox.{Outbox, lease_all}

-- Every entry stands under its own id, and no id is listed twice.
abbrev pub IsKeyed : Outbox → Type 0
IsKeyed [] = Unit
IsKeyed ((k, e) ∷ d) = (k ≡ e.id) × (lookup k d ≡ none) × IsKeyed d

pub value_of_lookup : (k : ℕ) (x : Entry) (d : Outbox) → lookup k d ≡ some x → In x (values d)
value_of_lookup k x [] h = cc
value_of_lookup k x ((j, e) ∷ d) h = elim (Bool-cases (j == k)) [
  | inl q ↦ inl (let r : some e ≡ some x = rw q at h in cc)
  | inr q ↦ inr (value_of_lookup k x d (rw q at h))
]

pub lookup_of_value :
    (x : Entry) (d : Outbox) → IsKeyed d → In x (values d) → lookup x.id d ≡ some x
lookup_of_value x [] h m = absurd m
lookup_of_value x ((j, e) ∷ d) h (inl q) = ground arith
lookup_of_value x ((j, e) ∷ d) h (inr m) = ground (arith, lookup_of_value x d h.2 m)

-- An entry that is found stands under its own id.
pub id_of_lookup : (k : ℕ) (x : Entry) (d : Outbox) → IsKeyed d → lookup k d ≡ some x → x.id ≡ k
id_of_lookup k x [] h e = cc
id_of_lookup k x ((j, y) ∷ d) h e = ground (arith, id_of_lookup k x d h.2)

pub insert-IsKeyed :
    (k : ℕ) (e : Entry) (d : Outbox) → k ≡ e.id → IsKeyed d → IsKeyed (insert k e d)
insert-IsKeyed k e [] q h = (q, refl, tt)
insert-IsKeyed k e ((j, y) ∷ d) q h =
    ground (arith, insert-IsKeyed k e d q h.2, lookup-insert_ne k j e d)

pub erase-IsKeyed : (k : ℕ) (d : Outbox) → IsKeyed d → IsKeyed (erase k d)
erase-IsKeyed k [] h = h
erase-IsKeyed k ((j, y) ∷ d) h = ground (arith, erase-IsKeyed k d h.2, lookup-erase_ne k j d)

pub lookup-erase_keyed : (k : ℕ) (d : Outbox) → IsKeyed d → lookup k (erase k d) ≡ none
lookup-erase_keyed k [] h = refl
lookup-erase_keyed k ((j, y) ∷ d) h = ground (arith, lookup-erase_keyed k d h.2)

pub lease_all-IsKeyed :
    (now : ℕ) (es : List Entry) (d : Outbox) → IsKeyed d → IsKeyed (lease_all now es d)
lease_all-IsKeyed now [] d h = h
lease_all-IsKeyed now (e ∷ es) d h =
    lease_all-IsKeyed now es (insert e.id (leased now e) d)
      (insert-IsKeyed e.id (leased now e) d refl h)

pub lookup-lease_all_other :
    (now k : ℕ) (es : List Entry) (d : Outbox)
    → ((x : Entry) → In x es → x.id ≢ k)
    → lookup k (lease_all now es d) ≡ lookup k d
lookup-lease_all_other now k [] d h = refl
lookup-lease_all_other now k (e ∷ es) d h =
    lookup-lease_all_other now k es (insert e.id (leased now e) d) (λ x m. h x (inr m))
    ∙ lookup-insert_ne e.id k (leased now e) d (h e (inl refl))

lookup-insert-leased :
    (now : ℕ) (c x : Entry) (es : List Entry) (d : Outbox)
    → (x.id ≡ c.id → x ≡ c)
    → In c (x ∷ es) ⊎ (lookup c.id d ≡ some (leased now c))
    → In c es ⊎ (lookup c.id (insert x.id (leased now x) d) ≡ some (leased now c))
lookup-insert-leased now c x es d same m = elim (Bool-cases (x.id == c.id)) [
  | inl q ↦ inr (
      lookup-insert x.id c.id (leased now x) d
      ∙ rw q (ap (λ y. some (leased now y)) (same (ground arith))))
  | inr q ↦ elim m [
    | inl (inl e) ↦ absurd (not_self c x e q)
    | inl (inr n) ↦ inl n
    | inr l ↦ inr (lookup-insert x.id c.id (leased now x) d ∙ rw q l)
  ]
]
  where
    not_self : (a b : Entry) → a ≡ b → (b.id == a.id) ≡ false → ⊥
    not_self a b e q = let i : a.id ≡ b.id = ap (λ (t : Entry). t.id) e in ground arith

-- Where no two of the chosen entries share an id, each is found leased.
pub lookup-lease_all :
    (now : ℕ) (c : Entry) (es : List Entry) (d : Outbox)
    → ((x : Entry) → In x es → x.id ≡ c.id → x ≡ c)
    → In c es ⊎ (lookup c.id d ≡ some (leased now c))
    → lookup c.id (lease_all now es d) ≡ some (leased now c)
lookup-lease_all now c [] d same (inl m) = absurd m
lookup-lease_all now c [] d same (inr e) = e
lookup-lease_all now c (x ∷ es) d same m =
    lookup-lease_all now c es (insert x.id (leased now x) d) (λ y k. same y (inr k))
      (lookup-insert-leased now c x es d (same x (inl refl)) m)
