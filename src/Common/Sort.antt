-- ===== src/Common/Sort.antt =====
-- Python's `sort` by a key: insertion sort, which is stable, under a total preorder `le`.
pub mod Sums
pub mod Pages
use agentforgev.Common.Tests.{if◌then◌else◌, Bool-cases}
use agentforgev.Common.Lists.{length, take, drop, filter, All}
use Prim.Native.Nat.{ℕ, zero, suc}
use mathlib.Core.Path.{◌≡◌, refl, ap}
use mathlib.Core.Logic.{◌⊎◌, inl, inr}
use mathlib.Core.Bool.{Bool, true, false}
use mathlib.Core.List.{List, [], ◌∷◌, map}
use native.Mathlib.Omega.{arith}

module _ {A : Type 0} where
  -- Membership that computes.
  abbrev pub In : A → List A → Type 0
  In x [] = ⊥
  In x (y ∷ ys) = (x ≡ y) ⊎ In x ys

  pub all_of_in : (P : A → Type 0) (xs : List A) → All P xs → (x : A) → In x xs → P x
  all_of_in P [] h x m = absurd m
  all_of_in P (y ∷ ys) h x (inl e) = rw e h.0
  all_of_in P (y ∷ ys) h x (inr m) = all_of_in P ys h.1 x m

  pub All-from_In : (P : A → Type 0) (xs : List A) → ((x : A) → In x xs → P x) → All P xs
  All-from_In P [] h = tt
  All-from_In P (x ∷ xs) h = (h x (inl refl), All-from_In P xs (λ y m. h y (inr m)))

  pub In-filter : (p : A → Bool) (x : A) (xs : List A) → In x xs → p x ≡ true → In x (filter p xs)
  In-filter p x [] m h = m
  In-filter p x (y ∷ ys) (inl e) h = rw (← e) (rw h (inl refl))
  In-filter p x (y ∷ ys) (inr m) h = elim (Bool-cases (p y)) [
    | inl q ↦ rw q (inr (In-filter p x ys m h))
    | inr q ↦ rw q (In-filter p x ys m h)
  ]

  cons_or_skip :
      (p : A → Bool) (x y : A) (b : Bool) (ys rest : List A)
      → p y ≡ b
      → (In x rest → In x ys × (p x ≡ true))
      → In x (if b then y ∷ rest else rest)
      → In x (y ∷ ys) × (p x ≡ true)
  cons_or_skip p x y true ys rest e ih (inl q) = (inl q, rw q e)
  cons_or_skip p x y true ys rest e ih (inr m) = let r = ih m in (inr r.0, r.1)
  cons_or_skip p x y false ys rest e ih m = let r = ih m in (inr r.0, r.1)

  pub In-of_filter :
      (p : A → Bool) (x : A) (xs : List A) → In x (filter p xs) → In x xs × (p x ≡ true)
  In-of_filter p x [] m = absurd m
  In-of_filter p x (y ∷ ys) m =
      cons_or_skip p x y (p y) ys (filter p ys) refl (In-of_filter p x ys) m

  pub In-of_take : (n : ℕ) (x : A) (xs : List A) → In x (take n xs) → In x xs
  In-of_take zero x xs m = absurd m
  In-of_take (suc n) x [] m = absurd m
  In-of_take (suc n) x (y ∷ ys) (inl e) = inl e
  In-of_take (suc n) x (y ∷ ys) (inr m) = inr (In-of_take n x ys m)

  -- An element is among the first `n`, or stands behind `n` others.
  pub take_or_drop : (n : ℕ) (x : A) (xs : List A) → In x xs → In x (take n xs) ⊎ In x (drop n xs)
  take_or_drop zero x xs m = inr m
  take_or_drop (suc n) x [] m = absurd m
  take_or_drop (suc n) x (y ∷ ys) (inl e) = inl (inl e)
  take_or_drop (suc n) x (y ∷ ys) (inr m) = elim (take_or_drop n x ys m) [
    | inl a ↦ inl (inr a)
    | inr b ↦ inr b
  ]

  pub In-of_drop : (n : ℕ) (x : A) (xs : List A) → In x (drop n xs) → In x xs
  In-of_drop zero x xs m = m
  In-of_drop (suc n) x [] m = absurd m
  In-of_drop (suc n) x (y ∷ ys) m = inr (In-of_drop n x ys m)

  pub length-take_of_drop :
      (n : ℕ) (x : A) (xs : List A) → In x (drop n xs) → length (take n xs) ≡ n
  length-take_of_drop zero x xs m = refl
  length-take_of_drop (suc n) x [] m = absurd m
  length-take_of_drop (suc n) x (y ∷ ys) m = omega (arith, length-take_of_drop n x ys m)

module _ {A B : Type 0} (f : A → B) where
  pub In-map : (x : A) (xs : List A) → In x xs → In (f x) (map f xs)
  In-map x [] m = absurd m
  In-map x (y ∷ ys) (inl e) = inl (ap f e)
  In-map x (y ∷ ys) (inr m) = inr (In-map x ys m)

  pub In-of_map : (z : B) (xs : List A) → In z (map f xs) → (x : A) × In x xs × (z ≡ f x)
  In-of_map z [] m = absurd m
  In-of_map z (y ∷ ys) (inl e) = (y, inl refl, e)
  In-of_map z (y ∷ ys) (inr m) = let (x, k, e) = In-of_map z ys m in (x, inr k, e)

  pub length-map : (xs : List A) → length (map f xs) ≡ length xs
  length-map [] = refl
  length-map (x ∷ xs) = ap suc (length-map xs)

module _ {A : Type 0} (le : A → A → Bool) where
  pub insert_by : A → List A → List A
  insert_by x [] = x ∷ []
  insert_by x (y ∷ ys) = if le x y then x ∷ y ∷ ys else y ∷ insert_by x ys

  unfoldable pub sort_by : List A → List A
  unfolding insert_by
  sort_by [] = []
  sort_by (x ∷ xs) = insert_by x (sort_by xs)

  abbrev pub IsSorted : List A → Type 0
  IsSorted [] = Unit
  IsSorted (x ∷ xs) = All (λ y. le x y ≡ true) xs × IsSorted xs

  In-insert_by : (x y : A) (ys : List A) → (x ≡ y) ⊎ In x ys → In x (insert_by y ys)
  unfolding insert_by
  In-insert_by x y [] m = m
  In-insert_by x y (z ∷ zs) m = elim (Bool-cases (le y z)) [
    | inl q ↦ rw q m
    | inr q ↦ rw q (elim m [
      | inl e ↦ inr (In-insert_by x y zs (inl e))
      | inr (inl e) ↦ inl e
      | inr (inr n) ↦ inr (In-insert_by x y zs (inr n))
    ])
  ]

  pub In-of_insert_by : (x y : A) (ys : List A) → In x (insert_by y ys) → (x ≡ y) ⊎ In x ys
  unfolding insert_by
  In-of_insert_by x y [] m = m
  In-of_insert_by x y (z ∷ zs) m = elim (Bool-cases (le y z)) [
    | inl q ↦ rw q at m
    | inr q ↦ behind (In-of_insert_by x y zs) (rw q at m)
  ]
    where
      behind :
          (In x (insert_by y zs) → (x ≡ y) ⊎ In x zs)
          → In x (z ∷ insert_by y zs)
          → (x ≡ y) ⊎ In x (z ∷ zs)
      behind ih (inl e) = inr (inl e)
      behind ih (inr n) = elim (ih n) [ inl e ↦ inl e | inr k ↦ inr (inr k) ]

  pub In-sort_by : (x : A) (xs : List A) → In x xs → In x (sort_by xs)
  unfolding sort_by
  In-sort_by x [] m = m
  In-sort_by x (y ∷ ys) (inl e) = In-insert_by x y (sort_by ys) (inl e)
  In-sort_by x (y ∷ ys) (inr m) = In-insert_by x y (sort_by ys) (inr (In-sort_by x ys m))

  pub In-of_sort_by : (x : A) (xs : List A) → In x (sort_by xs) → In x xs
  unfolding sort_by
  In-of_sort_by x [] m = m
  In-of_sort_by x (y ∷ ys) m = elim (In-of_insert_by x y (sort_by ys) m) [
    | inl e ↦ inl e
    | inr n ↦ inr (In-of_sort_by x ys n)
  ]

  module _ (total : (x y : A) → le x y ≡ false → le y x ≡ true)
      (trans : (x y z : A) → le x y ≡ true → le y z ≡ true → le x z ≡ true) where
    insert_by-IsSorted : (x : A) (ys : List A) → IsSorted ys → IsSorted (insert_by x ys)
    unfolding insert_by
    insert_by-IsSorted x [] h = (tt, tt)
    insert_by-IsSorted x (y ∷ ys) h = elim (Bool-cases (le x y)) [
      | inl q ↦ rw q ((q, All-from_In _ ys (λ z m. trans x y z q (all_of_in _ ys h.0 z m))), h)
      | inr q ↦ rw q (
        All-from_In (λ z. le y z ≡ true) (insert_by x ys)
            (λ z m. elim (In-of_insert_by z x ys m) [
              | inl e ↦ rw e (total x y q)
              | inr n ↦ all_of_in _ ys h.0 z n
            ]),
        insert_by-IsSorted x ys h.1,
      )
    ]

    pub sort_by-IsSorted : (xs : List A) → IsSorted (sort_by xs)
    unfolding sort_by
    sort_by-IsSorted [] = tt
    sort_by-IsSorted (x ∷ xs) = insert_by-IsSorted x (sort_by xs) (sort_by-IsSorted xs)

  -- A sorted list is left as it is.
  pub sort_by-of_IsSorted : (xs : List A) → IsSorted xs → sort_by xs ≡ xs
  unfolding sort_by insert_by
  sort_by-of_IsSorted [] h = refl
  sort_by-of_IsSorted (x ∷ xs) h = rw (sort_by-of_IsSorted xs h.1) (least_first x xs h.0)
    where
      least_first : (x : A) (ys : List A) → All (λ y. le x y ≡ true) ys → insert_by x ys ≡ x ∷ ys
      least_first x [] h = refl
      least_first x (y ∷ ys) h = rw h.0 refl

  pub take-IsSorted : (n : ℕ) (xs : List A) → IsSorted xs → IsSorted (take n xs)
  take-IsSorted zero xs h = tt
  take-IsSorted (suc n) [] h = tt
  take-IsSorted (suc n) (x ∷ xs) h = (
    All-from_In _ (take n xs) (λ y m. all_of_in _ xs h.0 y (In-of_take n y xs m)),
    take-IsSorted n xs h.1,
  )

  -- In a sorted list what stands among the first `n` is at most what stands behind them.
  pub le_of_take-drop :
      (n : ℕ) (xs : List A) (x y : A)
      → IsSorted xs
      → In x (take n xs)
      → In y (drop n xs)
      → le x y ≡ true
  le_of_take-drop zero xs x y h m k = absurd m
  le_of_take-drop (suc n) [] x y h m k = absurd m
  le_of_take-drop (suc n) (z ∷ zs) x y h (inl e) k =
      rw e (all_of_in _ zs h.0 y (In-of_drop n y zs k))
  le_of_take-drop (suc n) (z ∷ zs) x y h (inr m) k = le_of_take-drop n zs x y h.1 m k
