-- ===== src/Common/Text.antt =====
-- Python's `str` methods that the code calls, on a text as the list of its code points.
use Prim.Native.Nat.{ℕ}
use Prim.Native.Char.{code}
use Prim.Native.String.{String}
use mathlib.Core.Path.{◌≡◌, refl, sym, ap, ◌∙◌}
use mathlib.Core.Logic.{◌↔◌}
use mathlib.Core.Bool.{Bool, true, false, not, ◌&&◌, ◌||◌}
use mathlib.Core.Option.{Option, none, some}
use mathlib.Core.List.{List, [], ◌∷◌, ◌++◌}
use native.Mathlib.Omega.{arith}
use agentforgev.Common.Tests.{and_parts, HasEq, ◌==◌, number_keys, leb, if◌then◌else◌}

abbrev pub Text : Type 0
Text = List ℕ

-- A literal.
abbrev pub text : String → Text
text String.[] = []
text (String.◌∷◌ c s) = code c ∷ text s

abbrev pub all {ℓ} : {A : Type ℓ} → (A → Bool) → List A → Bool
all p [] = true
all p (x ∷ xs) = p x && all p xs

-- s.startswith(p), with `p` first
abbrev pub starts_with : Text → Text → Bool
starts_with [] s = true
starts_with (c ∷ p) [] = false
starts_with (c ∷ p) (d ∷ s) = c == d && starts_with p s

-- The code points that `str.isspace` accepts.
abbrev pub is_space : ℕ → Bool
is_space c =
    leb 9 c && leb c 13
    || leb 28 c && leb c 32
    || c == 133
    || c == 160
    || c == 5760
    || leb 8192 c && leb c 8202
    || c == 8232
    || c == 8233
    || c == 8239
    || c == 8287
    || c == 12288

abbrev pub strip_start : Text → Text
strip_start [] = []
strip_start (c ∷ s) = if is_space c then strip_start s else c ∷ s

abbrev pub keep_behind : ℕ → Text → Text
keep_behind c [] = if is_space c then [] else c ∷ []
keep_behind c (d ∷ s) = c ∷ d ∷ s

abbrev pub strip_end : Text → Text
strip_end [] = []
strip_end (c ∷ s) = keep_behind c (strip_end s)

-- s.strip()
unfoldable pub strip_text : Text → Text
strip_text s = strip_end (strip_start s)

abbrev pub put_in_front : ℕ → List Text → List Text
put_in_front c [] = (c ∷ []) ∷ []
put_in_front c (s ∷ ss) = (c ∷ s) ∷ ss

-- s.split(c)
abbrev pub split_at : ℕ → Text → List Text
split_at c [] = [] ∷ []
split_at c (d ∷ s) = let rest = split_at c s in if d == c then [] ∷ rest else put_in_front d rest

abbrev pub longer_key : ℕ → Option (Text × Text) → Option (Text × Text)
longer_key c none = none
longer_key c (some (key, value)) = some (c ∷ key, value)

-- s.partition(c); `none` when there is no `c`
abbrev pub partition_at : ℕ → Text → Option (Text × Text)
partition_at c [] = none
partition_at c (d ∷ s) =
    let rest = partition_at c s in if d == c then some ([], s) else longer_key d rest

abbrev pub text_beq : Text → Text → Bool
text_beq [] [] = true
text_beq [] (d ∷ t) = false
text_beq (c ∷ s) [] = false
text_beq (c ∷ s) (d ∷ t) = c == d && text_beq s t

text_beq_sound : (s t : Text) → text_beq s t ≡ true → s ≡ t
text_beq_sound [] [] h = refl
text_beq_sound [] (d ∷ t) h = cc
text_beq_sound (c ∷ s) [] h = cc
text_beq_sound (c ∷ s) (d ∷ t) h = ground (arith, number_keys.equals_iff c d, text_beq_sound s t)

text_beq_refl : (s : Text) → text_beq s s ≡ true
text_beq_refl [] = refl
text_beq_refl (c ∷ s) = ground (arith, number_keys.equals_iff c c, text_beq_refl s)

pub text_beq_iff : (s t : Text) → (text_beq s t ≡ true) ↔ (s ≡ t)
text_beq_iff s t = (text_beq_sound s t, λ e. rw (sym e) (text_beq_refl s))

instance abbrev pub text_is_key : HasEq Text
text_is_key = record { equals = text_beq; equals_iff = text_beq_iff }

module _ {ℓ} {A : Type ℓ} where
  pub all-append : (p : A → Bool) (xs ys : List A) → all p (xs ++ ys) ≡ (all p xs && all p ys)
  all-append p [] ys = refl
  all-append p (x ∷ xs) ys = ground (arith, all-append p xs ys)

  -- A test that is weaker holds wherever the stronger one does.
  pub all_weaker :
      (p q : A → Bool) (xs : List A)
      → ((x : A) → p x ≡ true → q x ≡ true)
      → all p xs ≡ true
      → all q xs ≡ true
  all_weaker p q [] w h = refl
  all_weaker p q (x ∷ xs) w h = ground (arith, w x, all_weaker p q xs w)

abbrev pub is_not : ℕ → ℕ → Bool
is_not c d = not (d == c)

negated : (b : Bool) → not b ≡ true → b ≡ false
negated true h = cc
negated false h = refl

pub keep_behind-solid : (c : ℕ) (s : Text) → is_space c ≡ false → keep_behind c s ≡ c ∷ s
keep_behind-solid c [] h = rw h refl
keep_behind-solid c (d ∷ s) h = refl

pub strip_end-solid : (s : Text) → all (λ c. not (is_space c)) s ≡ true → strip_end s ≡ s
strip_end-solid [] h = refl
strip_end-solid (c ∷ s) h =
    let (solid, rest) = and_parts _ _ h in
    ap (keep_behind c) (strip_end-solid s rest) ∙ keep_behind-solid c s (negated _ solid)

strip_start-solid : (s : Text) → all (λ c. not (is_space c)) s ≡ true → strip_start s ≡ s
strip_start-solid [] h = refl
strip_start-solid (c ∷ s) h = rw (negated (is_space c) (and_parts _ _ h).0) refl

-- A text without white space is its own strip.
pub strip_text-solid : (s : Text) → all (λ c. not (is_space c)) s ≡ true → strip_text s ≡ s
unfolding strip_text
strip_text-solid s h = ap strip_end (strip_start-solid s h) ∙ strip_end-solid s h

same_number : (c : ℕ) → (c == c) ≡ true
same_number c = (number_keys.equals_iff c c).1 refl

pub split_at-none : (c : ℕ) (s : Text) → all (is_not c) s ≡ true → split_at c s ≡ s ∷ []
split_at-none c [] h = refl
split_at-none c (d ∷ s) h =
    let (other, rest) = and_parts _ _ h in
    rw (negated (d == c) other) (ap (put_in_front d) (split_at-none c s rest))

-- The text before the first separator is the first piece.
pub split_at-first :
    (c : ℕ) (s t : Text) → all (is_not c) s ≡ true → split_at c (s ++ c ∷ t) ≡ s ∷ split_at c t
split_at-first c [] t h = rw (same_number c) refl
split_at-first c (d ∷ s) t h =
    let (other, rest) = and_parts _ _ h in
    rw (negated (d == c) other) (ap (put_in_front d) (split_at-first c s t rest))

pub partition_at-first :
    (c : ℕ) (s t : Text) → all (is_not c) s ≡ true → partition_at c (s ++ c ∷ t) ≡ some (s, t)
partition_at-first c [] t h = rw (same_number c) refl
partition_at-first c (d ∷ s) t h =
    let (other, rest) = and_parts _ _ h in
    rw (negated (d == c) other) (ap (longer_key d) (partition_at-first c s t rest))
