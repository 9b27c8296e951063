-- ===== src/Webhooks/Signing.antt =====
-- `sign_payload`, given its timestamp, and `verify_signature` of webhooks/security.py, over the characters of
-- the header. HMAC-SHA256 with its hexadecimal digest is a parameter.
pub mod Fields
pub mod RoundTrip
mod Tests
use agentforgev.Common.{
  ℕ, ◌+◌, ◌-◌, Bool, true, false, not, ◌&&◌, Option, none, some, List, [], ◌∷◌, ◌++◌, leb, ◌==◌,
  if◌then◌else◌,
}
use agentforgev.Common.Int.{ℤ, pos, pos_part, neg_part, leb_ℤ}
use agentforgev.Common.Dict.{Dict, lookup, insert}
use agentforgev.Common.Text.{Text, text, all, text_is_key, strip_text, split_at, partition_at}
use agentforgev.Common.Decimal.{str_of, int_of}

-- f"{timestamp}." in front of the body
unfoldable pub signing_material : ℤ → Text → Text
signing_material timestamp body = str_of timestamp ++ b'.' ∷ body

-- t=<timestamp>,v1=<digest>
abbrev pub signature_header : ℤ → Text → Text
signature_header timestamp digest =
    b't' ∷ b'=' ∷ str_of timestamp ++ b',' ∷ b'v' ∷ b'1' ∷ b'=' ∷ digest

abbrev pub add_field : Option (Text × Text) → Dict Text Text → Dict Text Text
add_field none fields = fields
add_field (some (key, value)) fields = insert (strip_text key) (strip_text value) fields

-- The loop over the chunks of the header.
abbrev pub add_fields : List Text → Dict Text Text → Dict Text Text
add_fields [] fields = fields
add_fields (chunk ∷ chunks) fields =
    add_fields chunks (add_field (partition_at b'=' (strip_text chunk)) fields)

unfoldable pub header_fields : Text → Dict Text Text
header_fields header = add_fields (split_at b',' header) []

-- d.get(k), where an empty text counts as none
abbrev pub if_not_empty : Option Text → Option Text
if_not_empty none = none
if_not_empty (some []) = none
if_not_empty (some (c ∷ s)) = some (c ∷ s)

-- abs(a - b)
abbrev pub distance : ℤ → ℤ → ℕ
distance a b =
    let x = pos_part a + neg_part b in let y = pos_part b + neg_part a in (x - y) + (y - x)

abbrev pub is_ascii : ℕ → Bool
is_ascii c = leb c 127

-- hmac.compare_digest(expected, provided); `none` when it raises `TypeError`
abbrev pub compare_digest : Text → Text → Option Bool
compare_digest expected provided =
    if all is_ascii expected && all is_ascii provided then some (expected == provided) else none

module _ (hmac : Text → Text → Text) where
  unfoldable pub sign_payload_at : Text → Text → ℤ → Text
  sign_payload_at secret body timestamp =
      signature_header timestamp (hmac secret (signing_material timestamp body))

  abbrev pub verify_at : Text → Text → Text → ℤ → ℤ → Option ℤ → Option Bool
  verify_at secret body provided tolerance now none = some false
  verify_at secret body provided tolerance now (some timestamp) =
      if not (leb_ℤ (pos (distance now timestamp)) tolerance)
      then some false
      else compare_digest (hmac secret (signing_material timestamp body)) provided

  abbrev pub verify_fields : Text → Text → Option Text → Option Text → ℤ → ℤ → Option Bool
  verify_fields secret body none provided tolerance now = some false
  verify_fields secret body (some raw) none tolerance now = some false
  verify_fields secret body (some raw) (some provided) tolerance now =
      verify_at secret body provided tolerance now (int_of raw)

  -- `none` when the comparison of the digests raises
  unfoldable pub verify_signature : Text → Text → Text → ℤ → ℤ → Option Bool
  verify_signature secret body [] tolerance now = some false
  verify_signature secret body (c ∷ header) tolerance now =
      let fields = header_fields (c ∷ header) in
      verify_fields secret body (if_not_empty (lookup (text "t") fields))
        (if_not_empty (lookup (text "v1") fields)) tolerance now
