-- ===== src/Webhooks/Signing/Fields.antt =====
-- The header that `sign_payload` makes parses to its two fields.
use agentforgev.Common.{
  ℕ, ◌≡◌, ◌≢◌, refl, ap, ◌∙◌, Bool, true, not, ◌&&◌, ◌||◌, some, [], ◌∷◌, ◌++◌, leb, number_keys,
  arith,
}
use agentforgev.Common.Int.{ℤ}
use agentforgev.Common.Dict.{Dict, insert}
use agentforgev.Common.Text.{
  Text, text, all, all_weaker, is_space, is_not, strip_text, strip_text-solid, split_at,
  split_at-none, split_at-first, partition_at, partition_at-first, text_is_key,
}
use agentforgev.Common.Decimal.{is_digit, str_of, str_of-all}
use agentforgev.Webhooks.Signing.{
  signature_header, add_field, add_fields, if_not_empty, header_fields, is_ascii,
}

abbrev pub is_hex : ℕ → Bool
is_hex c = is_digit c || leb b'a' c && leb c b'f'

abbrev pub solid : ℕ → Bool
solid c = not (is_space c)

pub not_empty : (s : Text) → s ≢ [] → if_not_empty (some s) ≡ some s
not_empty [] h = absurd (h refl)
not_empty (c ∷ s) h = refl

-- A test that excludes what stands in no number and in no digest.
abbrev pub AcceptsHex : (ℕ → Bool) → Type 0
AcceptsHex p = (c : ℕ) → is_hex c ≡ true → p c ≡ true

pub digit_hex : (c : ℕ) → is_digit c ≡ true → is_hex c ≡ true
digit_hex c h = ground arith

pub hex_solid : AcceptsHex solid
hex_solid c h = ground arith

pub hex_no_comma : AcceptsHex (is_not b',')
hex_no_comma c h = ground arith

pub digit_no_dot : (c : ℕ) → is_digit c ≡ true → is_not b'.' c ≡ true
digit_no_dot c h = ground arith

pub hex_ascii : AcceptsHex is_ascii
hex_ascii c h = ground arith

pub first_chunk-all :
    (p : ℕ → Bool) (t : ℤ)
    → AcceptsHex p
    → p b't' ≡ true
    → p b'=' ≡ true
    → p b'-' ≡ true
    → all p (b't' ∷ b'=' ∷ str_of t) ≡ true
first_chunk-all p t hex at_t at_eq at_minus =
    rw at_t (rw at_eq (str_of-all p (λ c h. hex c (digit_hex c h)) at_minus t))

pub second_chunk-all :
    (p : ℕ → Bool) (digest : Text)
    → AcceptsHex p
    → p b'v' ≡ true
    → p b'1' ≡ true
    → p b'=' ≡ true
    → all is_hex digest ≡ true
    → all p (b'v' ∷ b'1' ∷ b'=' ∷ digest) ≡ true
second_chunk-all p digest hex at_v at_1 at_eq h =
    rw at_v (rw at_1 (rw at_eq (all_weaker is_hex p digest hex h)))

-- A chunk `key=value` without white space sets that field.
pub add_field-chunk :
    (key value : Text) (fields : Dict Text Text)
    → all (is_not b'=') key ≡ true
    → all solid key ≡ true
    → all solid value ≡ true
    → all solid (key ++ b'=' ∷ value) ≡ true
    → add_field (partition_at b'=' (strip_text (key ++ b'=' ∷ value))) fields
      ≡ insert key value fields
add_field-chunk key value fields no_eq of_key of_value h =
    ap (λ s. add_field (partition_at b'=' s) fields) (strip_text-solid (key ++ b'=' ∷ value) h)
    ∙ ap (λ o. add_field o fields) (partition_at-first b'=' key value no_eq)
    ∙ ap (λ k. insert k (strip_text value) fields) (strip_text-solid key of_key)
    ∙ ap (λ v. insert key v fields) (strip_text-solid value of_value)

-- The header of a signature parses to its two fields.
pub header_fields-signature_header :
    (t : ℤ) (digest : Text)
    → all is_hex digest ≡ true
    → header_fields (signature_header t digest) ≡ (text "t", str_of t) ∷ (text "v1", digest) ∷ []
unfolding header_fields
header_fields-signature_header t digest h =
    let first = b't' ∷ b'=' ∷ str_of t in
    let second = b'v' ∷ b'1' ∷ b'=' ∷ digest in
    let pieces : split_at b',' (signature_header t digest) ≡ first ∷ second ∷ [] =
      split_at-first b',' first second (first_chunk-all (is_not b',') t hex_no_comma refl refl refl)
      ∙ ap (λ s. first ∷ s)
          (split_at-none b',' second
            (second_chunk-all (is_not b',') digest hex_no_comma refl refl refl h)) in
    let one =
      add_field-chunk (text "t") (str_of t) [] refl refl
        (str_of-all solid (λ c d. hex_solid c (digit_hex c d)) refl t)
        (first_chunk-all solid t hex_solid refl refl refl) in
    let two =
      add_field-chunk (text "v1") digest ((text "t", str_of t) ∷ []) refl refl
        (all_weaker is_hex solid digest hex_solid h)
        (second_chunk-all solid digest hex_solid refl refl refl h) in
    ap (λ s. add_fields s []) pieces
    ∙ ap (add_field (partition_at b'=' (strip_text second))) one
    ∙ two
