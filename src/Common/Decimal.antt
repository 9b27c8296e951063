-- ===== src/Common/Decimal.antt =====
-- Python's `str(n)` and `int(s)` for decimal integers, on texts of ASCII digits. The limit of 4300 digits
-- that both have is not modelled.
use Prim.Native.Nat.{ℕ, zero, suc, ◌+◌, ◌*◌, ◌-◌, ◌/◌, ◌%◌, ◌≤◌, ◌<◌, compare, Ordering}
use mathlib.Core.Path.{◌≡◌, refl, sym, ap, ◌∙◌}
use mathlib.Core.Logic.{◌⊎◌, inl, inr}
use mathlib.Core.Bool.{Bool, true, false, not, ◌&&◌, ◌||◌}
use mathlib.Core.Option.{Option, none, some}
use mathlib.Core.List.{[], ◌∷◌, ◌++◌}
use native.Mathlib.Omega.{arith}
use agentforgev.Common.Tests.{◌==◌, number_keys, leb, if◌then◌else◌}
use agentforgev.Common.Lists.{append_assoc, append_nil}
use agentforgev.Common.Int.{ℤ, pos, negsuc}
use agentforgev.Common.Text.{
  Text, all, all-append, all_weaker, is_space, strip_text, strip_text-solid,
}

abbrev pub is_digit : ℕ → Bool
is_digit c = leb 48 c && leb c 57

-- The digits of a number that has at most as many as the fuel.
unfoldable pub digits_within : ℕ → ℕ → Text
digits_within zero n = []
digits_within (suc fuel) n = elim (compare n 10) [
  | Ordering.lt ↦ (48 + n) ∷ []
  | _ ↦ digits_within fuel (n / 10) ++ (48 + n % 10) ∷ []
]

abbrev pub digits_of : ℕ → Text
digits_of n = digits_within (suc n) n

-- str(n)
unfoldable pub str_of : ℤ → Text
str_of (pos n) = digits_of n
str_of (negsuc n) = 45 ∷ digits_of (suc n)

-- Digits with single underscores between them, read behind the number `acc`.
abbrev pub int_from : Bool → ℕ → Text → Option ℕ
int_from after_digit acc [] = if after_digit then some acc else none
int_from after_digit acc (c ∷ s) =
    let rest = int_from (is_digit c) (if is_digit c then acc * 10 + (c - 48) else acc) s in
    if is_digit c || after_digit && c == 95 then rest else none

abbrev pub minus : ℕ → ℤ
minus zero = pos 0
minus (suc n) = negsuc n

abbrev pub with_sign : (ℕ → ℤ) → Option ℕ → Option ℤ
with_sign sign none = none
with_sign sign (some n) = some (sign n)

abbrev pub int_signed : Text → Option ℤ
int_signed [] = none
int_signed (c ∷ s) =
    if c == 45
    then with_sign minus (int_from false 0 s)
    else if c == 43
    then with_sign pos (int_from false 0 s)
    else with_sign pos (int_from false 0 (c ∷ s))

-- int(s); `none` when it raises `ValueError`
unfoldable pub int_of : Text → Option ℤ
int_of s = int_signed (strip_text s)

digits_within_small : (fuel n : ℕ) → n < 10 → digits_within (suc fuel) n ≡ (48 + n) ∷ []
unfolding digits_within
digits_within_small fuel n h = ground arith

digits_within_large :
    (fuel n : ℕ)
    → 10 ≤ n
    → digits_within (suc fuel) n ≡ digits_within fuel (n / 10) ++ (48 + n % 10) ∷ []
unfolding digits_within
digits_within_large fuel n h = ground arith

is_digit-digit : (d : ℕ) → d < 10 → is_digit (48 + d) ≡ true
is_digit-digit d h = ground arith

int_from_digit :
    (after : Bool) (acc d : ℕ) (s : Text)
    → d < 10
    → int_from after acc ((48 + d) ∷ s) ≡ int_from true (acc * 10 + d) s
int_from_digit after acc d s h =
    let e : (acc * 10 + (48 + d - 48)) ≡ acc * 10 + d = omega arith in
    rw (is_digit-digit d h) (ap (λ m. int_from true m s) e)

small_or_large : (n : ℕ) → (n < 10) ⊎ (10 ≤ n)
small_or_large n = ground arith

zero_before : (n : ℕ) → 0 * 10 + n ≡ n
zero_before n = omega arith

last_digit : (n : ℕ) (s : Text) → int_from true (n / 10) ((48 + n % 10) ∷ s) ≡ int_from true n s
last_digit n s =
    let e : n / 10 * 10 + n % 10 ≡ n = omega arith in
    int_from_digit true (n / 10) (n % 10) s (omega arith) ∙ ap (λ m. int_from true m s) e

-- Reading the digits of a number, and then a text, is reading that text behind the number.
int_from-digits_within :
    (fuel n : ℕ) (after : Bool) (s : Text)
    → n < fuel
    → int_from after 0 (digits_within fuel n ++ s) ≡ int_from true n s
int_from-digits_within zero n after s h = absurd (omega arith)
int_from-digits_within (suc fuel) n after s h = elim (small_or_large n) [
  | inl small ↦
      rw (digits_within_small fuel n small)
        (int_from_digit after 0 n s small ∙ ap (λ m. int_from true m s) (zero_before n))
  | inr large ↦ rw (digits_within_large fuel n large) (
      rw (append_assoc (digits_within fuel (n / 10)) ((48 + n % 10) ∷ []) s) (
        int_from-digits_within fuel (n / 10) after ((48 + n % 10) ∷ s) (omega arith)
        ∙ last_digit n s))
]

no_fuel_digits : (n : ℕ) → all is_digit (digits_within zero n) ≡ true
unfolding digits_within
no_fuel_digits n = refl

digits_within-IsDigits : (fuel n : ℕ) → all is_digit (digits_within fuel n) ≡ true
digits_within-IsDigits zero n = no_fuel_digits n
digits_within-IsDigits (suc fuel) n = elim (small_or_large n) [
  | inl small ↦ rw (digits_within_small fuel n small) (rw (is_digit-digit n small) refl)
  | inr large ↦ rw (digits_within_large fuel n large) (
      rw (all-append is_digit (digits_within fuel (n / 10)) ((48 + n % 10) ∷ [])) (
        rw (digits_within-IsDigits fuel (n / 10))
          (rw (is_digit-digit (n % 10) (omega arith)) refl)))
]

int_from-digits_of : (n : ℕ) → int_from false 0 (digits_of n) ≡ some n
int_from-digits_of n =
    ap (int_from false 0) (sym (append_nil (digits_of n)))
    ∙ int_from-digits_within (suc n) n false [] (omega arith)

-- What holds of the digits and of `-` holds of every character of a printed number.
pub str_of-all :
    (p : ℕ → Bool)
    → ((c : ℕ) → is_digit c ≡ true → p c ≡ true)
    → p 45 ≡ true
    → (t : ℤ) → all p (str_of t) ≡ true
unfolding str_of
str_of-all p of_digit of_minus (pos n) =
    all_weaker is_digit p (digits_of n) of_digit (digits_within-IsDigits (suc n) n)
str_of-all p of_digit of_minus (negsuc n) = rw of_minus (
    all_weaker is_digit p (digits_of (suc n)) of_digit
      (digits_within-IsDigits (suc (suc n)) (suc n)))

int_signed-digits :
    (s : Text) → all is_digit s ≡ true → int_signed s ≡ with_sign pos (int_from false 0 s)
int_signed-digits [] h = refl
int_signed-digits (c ∷ s) h = ground arith

digit_solid : (c : ℕ) → is_digit c ≡ true → not (is_space c) ≡ true
digit_solid c h = ground arith

int_signed-str_of : (t : ℤ) → int_signed (str_of t) ≡ some t
unfolding str_of
int_signed-str_of (pos n) =
    int_signed-digits (digits_of n) (digits_within-IsDigits (suc n) n)
    ∙ ap (with_sign pos) (int_from-digits_of n)
int_signed-str_of (negsuc n) = ap (with_sign minus) (int_from-digits_of (suc n))

-- A printed number is read back as itself.
pub int_of-str_of : (t : ℤ) → int_of (str_of t) ≡ some t
unfolding int_of
int_of-str_of t =
    ap int_signed
      (strip_text-solid (str_of t) (str_of-all (λ c. not (is_space c)) digit_solid refl t))
    ∙ int_signed-str_of t
