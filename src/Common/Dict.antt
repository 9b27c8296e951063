-- ===== src/Common/Dict.antt =====
-- Python's `dict`, in insertion order, as an association list over keys with `==`.
use agentforgev.Common.Tests.{HasEq, ◌==◌, if◌then◌else◌, Bool-cases}
use mathlib.Core.Path.{◌≡◌, refl, sym, ap, ◌∙◌}
use mathlib.Core.Logic.{◌≢◌, ◌⊎◌, inl, inr}
use mathlib.Core.Bool.{Bool, true, false, not, ◌&&◌, ◌||◌}
use mathlib.Core.Option.{Option, none, some}
use mathlib.Core.List.{List, [], ◌∷◌}
use native.Mathlib.Omega.{arith}

abbrev pub Dict {ℓ κ} : Type ℓ → Type κ → Type (ℓ ⊔ κ)
Dict K V = List (K × V)

module _ {ℓ κ} {K : Type ℓ} {V : Type κ} where
  -- d.keys()
  abbrev pub keys : Dict K V → List K
  keys [] = []
  keys ((k, v) ∷ d) = k ∷ keys d

  -- d.values()
  abbrev pub values : Dict K V → List V
  values [] = []
  values ((k, v) ∷ d) = v ∷ values d

module _ {ℓ κ} {K : Type ℓ} {V : Type κ} ⦃e : HasEq K⦄ where
  -- d.get(k)
  abbrev pub lookup : K → Dict K V → Option V
  lookup k [] = none
  lookup k ((j, v) ∷ d) = if j == k then some v else lookup k d

  -- d[k] = v: an old key keeps its place, a new one comes last
  abbrev pub insert : K → V → Dict K V → Dict K V
  insert k v [] = (k, v) ∷ []
  insert k v ((j, w) ∷ d) = if j == k then (j, v) ∷ d else (j, w) ∷ insert k v d

  -- d.pop(k, None)
  abbrev pub erase : K → Dict K V → Dict K V
  erase k [] = []
  erase k ((j, v) ∷ d) = if j == k then d else (j, v) ∷ erase k d

  -- k in d
  abbrev pub has_key : K → Dict K V → Bool
  has_key k [] = false
  has_key k ((j, v) ∷ d) = (j == k) || has_key k d

  pub has_key-insert :
      (k j : K) (v : V) (d : Dict K V) → has_key j (insert k v d) ≡ ((k == j) || has_key j d)
  has_key-insert k j v [] = refl
  has_key-insert k j v ((i, w) ∷ d) =
      ground (arith, e.equals_iff k j, e.equals_iff i k, e.equals_iff i j, has_key-insert k j v d)

  -- `erase` adds no key, and takes no other.
  pub has_key-of_erase :
      (k j : K) (d : Dict K V) → has_key j (erase k d) ≡ true → has_key j d ≡ true
  has_key-of_erase k j [] h = h
  has_key-of_erase k j ((i, w) ∷ d) h = ground (arith, has_key-of_erase k j d)

  pub has_key-erase_ne :
      (k j : K) (d : Dict K V) → k ≢ j → has_key j d ≡ true → has_key j (erase k d) ≡ true
  has_key-erase_ne k j [] n h = h
  has_key-erase_ne k j ((i, w) ∷ d) n h =
      ground (arith, e.equals_iff i k, e.equals_iff i j, has_key-erase_ne k j d n)

  pub has_key-of_lookup : (k : K) (v : V) (d : Dict K V) → lookup k d ≡ some v → has_key k d ≡ true
  has_key-of_lookup k v [] h = cc
  has_key-of_lookup k v ((i, w) ∷ d) h = ground (arith, has_key-of_lookup k v d)

  pub lookup-of_not_has_key : (k : K) (d : Dict K V) → has_key k d ≡ false → lookup k d ≡ none
  lookup-of_not_has_key k [] h = refl
  lookup-of_not_has_key k ((i, w) ∷ d) h = ground (arith, lookup-of_not_has_key k d)

  -- for key in [k for k in d if p(k)]: del d[key]
  abbrev pub remove_where : (K → Bool) → Dict K V → Dict K V
  remove_where p [] = []
  remove_where p ((j, v) ∷ d) = let rest = remove_where p d in if p j then rest else (j, v) ∷ rest

  pub has_key-of_remove_where :
      (p : K → Bool) (k : K) (d : Dict K V)
      → has_key k (remove_where p d) ≡ true
      → (has_key k d ≡ true) × (p k ≡ false)
  has_key-of_remove_where p k [] h = cc
  has_key-of_remove_where p k ((i, w) ∷ d) h = elim (Bool-cases (p i)) [
    | inl gone ↦
        (let h' : has_key k (remove_where p d) ≡ true = rw gone at h in
          ground (arith, has_key-of_remove_where p k d h'))
    | inr kept ↦ elim (Bool-cases (i == k)) [
      | inl same ↦
          (let q : i ≡ k = (e.equals_iff i k).0 same in
            let r : p k ≡ false = ap p (sym q) ∙ kept in (rw same refl, r))
      | inr other ↦
          (let h' : has_key k (remove_where p d) ≡ true = rw other at (rw kept at h) in
            ground (arith, has_key-of_remove_where p k d h'))
    ]
  ]

  pub lookup-insert :
      (k j : K) (v : V) (d : Dict K V)
      → lookup j (insert k v d) ≡ (if k == j then some v else lookup j d)
  lookup-insert k j v [] = refl
  lookup-insert k j v ((i, w) ∷ d) =
      ground (arith, e.equals_iff k j, e.equals_iff i k, e.equals_iff i j, lookup-insert k j v d)

  pub has_key-remove_where :
      (p : K → Bool) (k : K) (d : Dict K V)
      → has_key k (remove_where p d) ≡ (not (p k) && has_key k d)
  has_key-remove_where p k [] = ground arith
  has_key-remove_where p k ((i, w) ∷ d) = elim (Bool-cases (i == k)) [
    | inl same ↦
        (let q : p i ≡ p k = ap p ((e.equals_iff i k).0 same) in
          elim (Bool-cases (p k)) [
            | inl r ↦
                (let r' : p i ≡ true = q ∙ r in rw r' (has_key-remove_where p k d ∙ rw r refl))
            | inr r ↦ (let r' : p i ≡ false = q ∙ r in rw r' (rw same (rw r refl)))
          ])
    | inr other ↦ elim (Bool-cases (p i)) [
      | inl r ↦ rw r (rw other (has_key-remove_where p k d))
      | inr r ↦ rw r (rw other (has_key-remove_where p k d))
    ]
  ]

  pub lookup-remove_where :
      (p : K → Bool) (k : K) (d : Dict K V)
      → lookup k (remove_where p d) ≡ (if p k then none else lookup k d)
  lookup-remove_where p k [] = ground arith
  lookup-remove_where p k ((i, w) ∷ d) = elim (Bool-cases (i == k)) [
    | inl same ↦
        (let q : p i ≡ p k = ap p ((e.equals_iff i k).0 same) in
          elim (Bool-cases (p k)) [
            | inl r ↦ (let r' : p i ≡ true = q ∙ r in rw r' (lookup-remove_where p k d ∙ rw r refl))
            | inr r ↦ (let r' : p i ≡ false = q ∙ r in rw r' (rw same (rw r refl)))
          ])
    | inr other ↦ elim (Bool-cases (p i)) [
      | inl r ↦ rw r (rw other (lookup-remove_where p k d))
      | inr r ↦ rw r (rw other (lookup-remove_where p k d))
    ]
  ]

  -- What is found after a write was written, or stood there before.
  pub lookup-of_insert :
      (k j : K) (v w : V) (d : Dict K V)
      → lookup j (insert k v d) ≡ some w
      → ((k ≡ j) × (v ≡ w)) ⊎ ((k ≢ j) × (lookup j d ≡ some w))
  lookup-of_insert k j v w d h = elim (Bool-cases (k == j)) [
    | inl same ↦
        (let r : some v ≡ some w = sym (lookup-insert k j v d ∙ rw same refl) ∙ h in
          inl ((e.equals_iff k j).0 same, cc r))
    | inr other ↦
        inr (
          (λ q. cc (other, (e.equals_iff k j).1 q)),
          sym (lookup-insert k j v d ∙ rw other refl) ∙ h,
        )
  ]

  pub lookup-insert_self : (k : K) (v : V) (d : Dict K V) → lookup k (insert k v d) ≡ some v
  lookup-insert_self k v d = ground (arith, lookup-insert k k v d, e.equals_iff k k)

  pub lookup-insert_ne :
      (k j : K) (v : V) (d : Dict K V) → k ≢ j → lookup j (insert k v d) ≡ lookup j d
  lookup-insert_ne k j v d h = ground (arith, lookup-insert k j v d, e.equals_iff k j)

  pub lookup-erase_ne : (k j : K) (d : Dict K V) → k ≢ j → lookup j (erase k d) ≡ lookup j d
  lookup-erase_ne k j [] h = refl
  lookup-erase_ne k j ((i, w) ∷ d) h =
      ground (arith, e.equals_iff k j, e.equals_iff i k, e.equals_iff i j, lookup-erase_ne k j d)

  -- No key is listed twice, as in any `dict`.
  abbrev pub IsDistinct : Dict K V → Type (ℓ ⊔ κ)
  IsDistinct [] = Unit
  IsDistinct ((k, v) ∷ d) = (lookup k d ≡ none) × IsDistinct d

  -- What a later place holds is not hidden by an earlier one.
  pub lookup-behind :
      (j k : K) (w v : V) (d : Dict K V)
      → lookup j d ≡ none
      → lookup k d ≡ some v
      → lookup k ((j, w) ∷ d) ≡ some v
  lookup-behind j k w v d n h = elim (Bool-cases (j == k)) [
    | inl same ↦ (let q : j ≡ k = (e.equals_iff j k).0 same in cc (n, h, ap (λ i. lookup i d) q))
    | inr other ↦ rw other h
  ]

  pub insert-IsDistinct : (k : K) (v : V) (d : Dict K V) → IsDistinct d → IsDistinct (insert k v d)
  insert-IsDistinct k v [] h = (refl, tt)
  insert-IsDistinct k v ((i, w) ∷ d) h = ground (
    arith,
    e.equals_iff i k,
    e.equals_iff k i,
    insert-IsDistinct k v d h.1,
    lookup-insert k i v d,
  )

  pub lookup-erase_self : (k : K) (d : Dict K V) → IsDistinct d → lookup k (erase k d) ≡ none
  lookup-erase_self k [] h = refl
  lookup-erase_self k ((i, w) ∷ d) h = ground (arith, e.equals_iff i k, lookup-erase_self k d h.1)

  pub erase-IsDistinct : (k : K) (d : Dict K V) → IsDistinct d → IsDistinct (erase k d)
  erase-IsDistinct k [] h = h
  erase-IsDistinct k ((i, w) ∷ d) h =
      ground
        (arith, e.equals_iff k i, e.equals_iff i k, erase-IsDistinct k d h.1, lookup-erase_ne k i d)
