-- ===== src/Webhooks/Signing/Tests.antt =====
-- Signatures under a concrete digest, and headers that are refused.
use agentforgev.Common.{
  ℕ, ◌+◌, ◌%◌, ◌≡◌, ◌≢◌, ◌⊎◌, refl, ◌&&◌, true, false, none, some, [], ◌∷◌, ◌++◌, ◌==◌, map, arith,
}
use agentforgev.Common.Int.{pos, negsuc, leb_ℤ}
use agentforgev.Common.Text.{Text, text, all, strip_text, text_is_key}
use agentforgev.Common.Decimal.{str_of, digits_within, int_of}
use agentforgev.Webhooks.Signing.{
  signing_material, header_fields, distance, sign_payload_at, verify_signature,
}
use agentforgev.Webhooks.Signing.Fields.{is_hex}
use agentforgev.Webhooks.Signing.RoundTrip.{verify_signature-sign_payload_at, accepted_or_collision}

-- One letter for each byte.
abbrev letter : ℕ → ℕ
letter c = 97 + c % 6

abbrev letters : Text → Text → Text
letters secret message = b'0' ∷ map letter (secret ++ message)

letter_hex : (c : ℕ) → is_hex (letter c) ≡ true
letter_hex c = ground arith

map-letter-hex : (s : Text) → all is_hex (map letter s) ≡ true
map-letter-hex [] = refl
map-letter-hex (c ∷ s) = rw (letter_hex c) (map-letter-hex s)

letters_hex :
    (secret message : Text)
    → (all is_hex (letters secret message) ≡ true) × (letters secret message ≢ [])
letters_hex secret message = (map-letter-hex (secret ++ message), λ e. cc)

prints : str_of (pos 1700000000) ≡ text "1700000000"
unfolding str_of digits_within
prints = refl

reads : (int_of (text " -1_0 ") ≡ some (negsuc 9)) × (int_of (text "1__0") ≡ none)
unfolding int_of strip_text
reads = (refl, refl)

signs : sign_payload_at letters (text "k") (text "{}") (pos 50) ≡ text "t=50,v1=0ffaedf"
unfolding sign_payload_at str_of digits_within signing_material
signs = refl

-- A letter outside of ASCII in the digest raises; a missing field refuses.
refuses :
    (verify_signature letters (text "k") [] (text "t=0,v1=é") (pos 300) (pos 0) ≡ none)
    × (verify_signature letters (text "k") [] (text "t=0") (pos 300) (pos 0) ≡ some false)
    × (verify_signature letters (text "k") [] (text "t=x,v1=0") (pos 300) (pos 0) ≡ some false)
unfolding verify_signature header_fields strip_text int_of signing_material str_of digits_within
refuses = (refl, refl, refl)

verify_signature-sign_payload_at_example :
    verify_signature letters
      (text "k")
      (text "{}")
      (sign_payload_at letters (text "k") (text "{}") (pos 50))
      (pos 300)
      (pos 60)
    ≡ some (
        leb_ℤ (pos (distance (pos 60) (pos 50))) (pos 300)
        && letters (text "k") (signing_material (pos 50) (text "{}"))
          == letters (text "k") (signing_material (pos 50) (text "{}")))
verify_signature-sign_payload_at_example =
    verify_signature-sign_payload_at letters letters_hex (text "k") (text "k") (text "{}")
      (text "{}") (pos 50) (pos 60) (pos 300)

accepts :
    verify_signature letters
      (text "k")
      (text "a")
      (sign_payload_at letters (text "k") (text "g") (pos 50))
      (pos 300)
      (pos 60)
    ≡ some true
unfolding verify_signature header_fields strip_text int_of sign_payload_at str_of digits_within
    signing_material
accepts = refl

accepted_or_collision_example :
    (text "a" ≡ text "g")
    ⊎ ((m : Text) × (m' : Text) × (m ≢ m') × (letters (text "k") m ≡ letters (text "k") m'))
accepted_or_collision_example =
    accepted_or_collision letters letters_hex (text "k") (text "a") (text "g") (pos 50) (pos 60)
      (pos 300) accepts
