-- ===== src/Chunking/Slices.antt =====
-- Laws of slices, as chunking/chunker.py takes them.
use agentforgev.Common.{
  ℕ, zero, suc, ◌+◌, ◌-◌, ◌≤◌, ◌≡◌, ◌∙◌, refl, sym, ap, List, [], ◌∷◌, ◌++◌, arith, length, take,
  drop, length-take, length-drop,
}
use agentforgev.Chunking.{slice}

module _ {C : Type 0} where
  drop_to : (xs : List C) {a b : ℕ} → a ≡ b → drop a xs ≡ drop b xs
  drop_to xs e = ap (λ k. drop k xs) e

  take_to : (xs : List C) {a b : ℕ} → a ≡ b → take a xs ≡ take b xs
  take_to xs e = ap (λ k. take k xs) e

  take-drop : (k : ℕ) (xs : List C) → take k xs ++ drop k xs ≡ xs
  take-drop zero xs = refl
  take-drop (suc k) [] = refl
  take-drop (suc k) (x ∷ xs) = ap (λ ys. x ∷ ys) (take-drop k xs)

  take_nil : (k : ℕ) → take {A = C} k [] ≡ []
  take_nil zero = refl
  take_nil (suc k) = refl

  drop_nil : (k : ℕ) → drop {A = C} k [] ≡ []
  drop_nil zero = refl
  drop_nil (suc k) = refl

  drop-drop : (a b : ℕ) (xs : List C) → drop a (drop b xs) ≡ drop (b + a) xs
  drop-drop a zero xs = drop_to xs (omega arith)
  drop-drop a (suc b) [] = drop_nil a ∙ sym (drop_nil (suc b + a))
  drop-drop a (suc b) (x ∷ xs) =
      let e : suc (b + a) ≡ suc b + a = omega arith in drop-drop a b xs ∙ drop_to (x ∷ xs) e

  drop-take : (a k : ℕ) (xs : List C) → drop a (take k xs) ≡ take (k - a) (drop a xs)
  drop-take zero k xs = let e : k ≡ k - 0 = omega arith in take_to xs e
  drop-take (suc a) zero xs = let e : 0 ≡ 0 - suc a = omega arith in take_to (drop (suc a) xs) e
  drop-take (suc a) (suc k) [] = sym (take_nil (suc k - suc a))
  drop-take (suc a) (suc k) (x ∷ xs) =
      let e : k - a ≡ suc k - suc a = omega arith in drop-take a k xs ∙ take_to (drop a xs) e

  take-take : (a k : ℕ) (xs : List C) → a ≤ k → take a (take k xs) ≡ take a xs
  take-take zero k xs h = refl
  take-take (suc a) zero xs h = absurd (omega arith)
  take-take (suc a) (suc k) [] h = refl
  take-take (suc a) (suc k) (x ∷ xs) h = ap (λ ys. x ∷ ys) (take-take a k xs (omega arith))

  pub take-all : (k : ℕ) (xs : List C) → length xs ≤ k → take k xs ≡ xs
  take-all zero [] h = refl
  take-all zero (x ∷ xs) h = absurd (omega arith)
  take-all (suc k) [] h = refl
  take-all (suc k) (x ∷ xs) h = ap (λ ys. x ∷ ys) (take-all k xs (omega arith))

  -- What a window adds behind its overlap, and what comes behind the window.
  pub slice_then_rest :
      (s o e : ℕ) (xs : List C) → s + o ≤ e → drop o (slice s e xs) ++ drop e xs ≡ drop (s + o) xs
  slice_then_rest s o e xs h =
      let k = (e - s) - o in
      let q : e ≡ (s + o) + k = omega arith in
      ap (λ ys. ys ++ drop e xs) (drop-take o (e - s) (drop s xs) ∙ ap (take k) (drop-drop o s xs))
      ∙ ap (λ ys. take k (drop (s + o) xs) ++ ys) (drop_to xs q ∙ sym (drop-drop k (s + o) xs))
      ∙ take-drop k (drop (s + o) xs)

  pub length-slice : (s e : ℕ) (xs : List C) → e ≤ length xs → length (slice s e xs) ≡ e - s
  length-slice s e xs h = omega (arith, length-take (e - s) (drop s xs), length-drop s xs)

  -- The end of a window and the start of the next one are the same characters.
  pub slices_overlap :
      (s e s' e' o : ℕ) (xs : List C)
      → s ≤ s'
      → e ≡ s' + o
      → e ≤ e'
      → take o (slice s' e' xs) ≡ drop (s' - s) (slice s e xs)
  slices_overlap s e s' e' o xs h q k =
      let fits : o ≤ e' - s' = omega arith in
      let width : (e - s) - (s' - s) ≡ o = omega arith in
      let start : s + (s' - s) ≡ s' = omega arith in
      take-take o (e' - s') (drop s' xs) fits
      ∙ sym (
          drop-take (s' - s) (e - s) (drop s xs)
          ∙ ap (take ((e - s) - (s' - s))) (drop-drop (s' - s) s xs ∙ drop_to xs start)
          ∙ take_to (drop s' xs) width)

  pub drop-all : (k : ℕ) (xs : List C) → length xs ≤ k → drop k xs ≡ []
  drop-all zero [] h = refl
  drop-all zero (x ∷ xs) h = absurd (omega arith)
  drop-all (suc k) [] h = refl
  drop-all (suc k) (x ∷ xs) h = drop-all k xs (omega arith)
