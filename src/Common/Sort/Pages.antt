-- ===== src/Common/Sort/Pages.antt =====
-- Sorted lists read page by page: what stands behind the last element of a page is the rest of the list.
use agentforgev.Common.Tests.{Bool-cases, Option-cases, apart}
use agentforgev.Common.Lists.{take, drop, filter, All}
use agentforgev.Common.Sort.{
  In, all_of_in, All-from_In, In-of_filter, In-of_take, insert_by, sort_by, IsSorted,
  In-of_insert_by, In-of_sort_by, sort_by-IsSorted,
}
use Prim.Native.Nat.{ℕ, zero, suc, ◌+◌}
use mathlib.Core.Path.{◌≡◌, refl, sym, ap, ◌∙◌}
use mathlib.Core.Logic.{inl, inr}
use mathlib.Core.Bool.{Bool, true, false, not, ◌&&◌}
use mathlib.Core.Option.{Option, none, some}
use mathlib.Core.List.{List, [], ◌∷◌, ◌++◌}
use native.Mathlib.Omega.{arith}

module _ {A : Type 0} where
  abbrev pub or_first : Option A → A → A
  or_first none x = x
  or_first (some y) x = y

  abbrev pub last_of : List A → Option A
  last_of [] = none
  last_of (x ∷ xs) = some (or_first (last_of xs) x)

  pub take-more : (n m : ℕ) (xs : List A) → take (n + m) xs ≡ take n xs ++ take m (drop n xs)
  take-more zero m xs = ap (λ k. take k xs) (zero_plus m)
    where
      zero_plus : (m : ℕ) → 0 + m ≡ m
      zero_plus m = omega arith
  take-more (suc n) m [] = take_nothing (suc n + m) m
    where
      take_nothing : (k m : ℕ) → take {A = A} k [] ≡ take m []
      take_nothing zero zero = refl
      take_nothing zero (suc m) = refl
      take_nothing (suc k) zero = refl
      take_nothing (suc k) (suc m) = refl
  take-more (suc n) m (x ∷ xs) =
      ap (λ k. take k (x ∷ xs)) (suc_plus n m) ∙ ap (λ ys. x ∷ ys) (take-more n m xs)
    where
      suc_plus : (n m : ℕ) → suc n + m ≡ suc (n + m)
      suc_plus n m = omega arith

  pub filter-filter :
      (p q : A → Bool) (xs : List A) → filter q (filter p xs) ≡ filter (λ x. p x && q x) xs
  filter-filter p q [] = refl
  filter-filter p q (x ∷ xs) = elim (Bool-cases (p x)) [
    | inl h ↦ elim (Bool-cases (q x)) [
      | inl k ↦ rw h (rw k (ap (λ ys. x ∷ ys) (filter-filter p q xs)))
      | inr k ↦ rw h (rw k (filter-filter p q xs))
    ]
    | inr h ↦ rw h (filter-filter p q xs)
  ]

  filter-All : (q : A → Bool) (xs : List A) → All (λ x. q x ≡ true) xs → filter q xs ≡ xs
  filter-All q [] h = refl
  filter-All q (x ∷ xs) h = rw h.0 (ap (λ ys. x ∷ ys) (filter-All q xs h.1))

  of_some : {a b : A} → some a ≡ some b → a ≡ b
  of_some e = cc

  In-of_last : (c : A) (xs : List A) → last_of xs ≡ some c → In c xs
  In-of_last c [] h = cc
  In-of_last c (x ∷ xs) h = elim (Option-cases (last_of xs)) [
    | inl e ↦ (let h' : some x ≡ some c = rw e at h in inl (sym (of_some h')))
    | inr (d, e) ↦ (let h' : some d ≡ some c = rw e at h in inr (In-of_last c xs (e ∙ h')))
  ]

module _ {A : Type 0} (le : A → A → Bool) where
  -- No two elements stand in the same place of the order.
  abbrev pub IsApart : List A → Type 0
  IsApart [] = Unit
  IsApart (x ∷ xs) = All (λ y. (le x y && le y x) ≡ false) xs × IsApart xs

  abbrev pub IsStrict : List A → Type 0
  IsStrict [] = Unit
  IsStrict (x ∷ xs) = All (λ y. le y x ≡ false) xs × IsStrict xs

not_before : (b : Bool) → (b ≡ true → ⊥) → b ≡ false
not_before true h = absurd (h refl)
not_before false h = refl

module _ {A : Type 0} (le : A → A → Bool) (total : (x y : A) → le x y ≡ false → le y x ≡ true)
    (trans : (x y z : A) → le x y ≡ true → le y z ≡ true → le x z ≡ true) where
  least_first : (x : A) (ys : List A) → All (λ y. le x y ≡ true) ys → insert_by le x ys ≡ x ∷ ys
  unfolding insert_by
  least_first x [] h = refl
  least_first x (y ∷ ys) h = rw h.0 refl

  keep-insert_by :
      (q : A → Bool) (x : A) (ys : List A)
      → q x ≡ true
      → IsSorted le ys
      → filter q (insert_by le x ys) ≡ insert_by le x (filter q ys)
  unfolding insert_by
  keep-insert_by q x [] h s = rw h refl
  keep-insert_by q x (y ∷ ys) h s = elim (Bool-cases (le x y)) [
    | inl k ↦ rw k (rw h (sym (least_first x (filter q (y ∷ ys)) (least k))))
    | inr k ↦ elim (Bool-cases (q y)) [
      | inl j ↦ rw k (rw j (rw k (ap (λ zs. y ∷ zs) (keep-insert_by q x ys h s.1))))
      | inr j ↦ rw k (rw j (keep-insert_by q x ys h s.1))
    ]
  ]
    where
      least : le x y ≡ true → All (λ z. le x z ≡ true) (filter q (y ∷ ys))
      least k =
          All-from_In (λ z. le x z ≡ true) (filter q (y ∷ ys))
            (λ z m. below z (In-of_filter q z (y ∷ ys) m).0)
        where
          below : (z : A) → In z (y ∷ ys) → le x z ≡ true
          below z (inl e) = rw e k
          below z (inr n) = trans x y z k (all_of_in _ ys s.0 z n)

  skip-insert_by :
      (q : A → Bool) (x : A) (ys : List A)
      → q x ≡ false
      → filter q (insert_by le x ys) ≡ filter q ys
  unfolding insert_by
  skip-insert_by q x [] h = rw h refl
  skip-insert_by q x (y ∷ ys) h = elim (Bool-cases (le x y)) [
    | inl k ↦ rw k (rw h refl)
    | inr k ↦ elim (Bool-cases (q y)) [
      | inl j ↦ rw k (rw j (ap (λ zs. y ∷ zs) (skip-insert_by q x ys h)))
      | inr j ↦ rw k (rw j (skip-insert_by q x ys h))
    ]
  ]

  -- Filtering and sorting may change places.
  pub filter-sort_by :
      (q : A → Bool) (xs : List A) → filter q (sort_by le xs) ≡ sort_by le (filter q xs)
  unfolding sort_by
  filter-sort_by q [] = refl
  filter-sort_by q (x ∷ xs) = elim (Bool-cases (q x)) [
    | inl h ↦
        keep-insert_by q x (sort_by le xs) h (sort_by-IsSorted le total trans xs)
        ∙ rw h (ap (insert_by le x) (filter-sort_by q xs))
    | inr h ↦ skip-insert_by q x (sort_by le xs) h ∙ rw h (filter-sort_by q xs)
  ]

  insert_by-IsStrict :
      (x : A) (ys : List A)
      → All (λ y. (le x y && le y x) ≡ false) ys
      → IsStrict le ys
      → IsStrict le (insert_by le x ys)
  unfolding insert_by
  insert_by-IsStrict x [] d s = (tt, tt)
  insert_by-IsStrict x (y ∷ ys) d s = elim (Bool-cases (le x y)) [
    | inl k ↦ rw k (
      (
        (rw k at d.0),
        All-from_In (λ z. le z x ≡ false) ys
            (λ z m.
              not_before (le z x) (λ t. apart (le z y) (trans z x y t k) (all_of_in _ ys s.0 z m))),
      ),
      s,
    )
    | inr k ↦ rw k (
      All-from_In (λ z. le z y ≡ false) (insert_by le x ys)
          (λ z m. elim (In-of_insert_by le z x ys m) [
            | inl e ↦ rw e k
            | inr n ↦ all_of_in _ ys s.0 z n
          ]),
      insert_by-IsStrict x ys d.1 s.1,
    )
  ]

  pub sort_by-IsStrict : (xs : List A) → IsApart le xs → IsStrict le (sort_by le xs)
  unfolding sort_by
  sort_by-IsStrict [] d = tt
  sort_by-IsStrict (x ∷ xs) d =
      insert_by-IsStrict x (sort_by le xs)
        (All-from_In _ (sort_by le xs) (λ y m. all_of_in _ xs d.0 y (In-of_sort_by le y xs m)))
        (sort_by-IsStrict xs d.1)

  pub filter-IsApart : (p : A → Bool) (xs : List A) → IsApart le xs → IsApart le (filter p xs)
  filter-IsApart p [] d = tt
  filter-IsApart p (x ∷ xs) d = elim (Bool-cases (p x)) [
    | inl h ↦ rw h (
      All-from_In _ (filter p xs) (λ y m. all_of_in _ xs d.0 y (In-of_filter p y xs m).0),
      filter-IsApart p xs d.1,
    )
    | inr h ↦ rw h (filter-IsApart p xs d.1)
  ]

  reflexive : (x : A) → le x x ≡ true
  reflexive x = elim (Bool-cases (le x x)) [ inl h ↦ h | inr h ↦ total x x h ]

  nothing_taken : (n : ℕ) (xs : List A) → last_of (take n xs) ≡ none → xs ≡ drop n xs
  nothing_taken zero xs h = refl
  nothing_taken (suc n) [] h = refl
  nothing_taken (suc n) (x ∷ xs) h = cc

  behind_first :
      (n : ℕ) (x : A) (xs : List A)
      → IsStrict le (x ∷ xs)
      → last_of (take n xs) ≡ none
      → filter (λ y. not (le y x)) (x ∷ xs) ≡ drop n xs
  behind_first n x xs s h = rw (reflexive x) (
      filter-All (λ y. not (le y x)) xs (All-from_In _ xs (λ y m. ap not (all_of_in _ xs s.0 y m)))
      ∙ nothing_taken n xs h)

  -- What stands behind the last of the first `n` elements is what is not before it or at it.
  pub filter-behind :
      (n : ℕ) (c : A) (xs : List A)
      → IsStrict le xs
      → last_of (take n xs) ≡ some c
      → filter (λ e. not (le e c)) xs ≡ drop n xs
  filter-behind zero c xs s h = cc
  filter-behind (suc n) c [] s h = cc
  filter-behind (suc n) c (x ∷ xs) s h = elim (Option-cases (last_of (take n xs))) [
    | inl e ↦
        (let h' : some x ≡ some c = rw e at h in
          ap (λ d. filter (λ y. not (le y d)) (x ∷ xs)) (sym (of_some h'))
          ∙ behind_first n x xs s e)
    | inr (d, e) ↦
        (let h' : some d ≡ some c = rw e at h in
          let m : In c xs = In-of_take n c xs (In-of_last c (take n xs) (e ∙ h')) in
          let k : le x c ≡ true = total c x (all_of_in _ xs s.0 c m) in
          rw k (filter-behind n c xs s.1 (e ∙ h')))
  ]
