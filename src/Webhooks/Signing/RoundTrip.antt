-- ===== src/Webhooks/Signing/RoundTrip.antt =====
-- What `verify_signature` says of the headers that `sign_payload` makes.
use agentforgev.Common.{
  ◌≡◌, ◌≢◌, refl, sym, ap, ◌∙◌, Bool, true, false, not, ◌&&◌, Option, none, some, [], ◌∷◌, ◌++◌,
  ◌==◌, number_keys, if◌then◌else◌, Bool-cases, apart, ◌⊎◌, inl, inr,
}
use agentforgev.Common.Int.{ℤ, pos, leb_ℤ}
use agentforgev.Common.Text.{
  Text, all, all_weaker, is_not, strip_text, partition_at, partition_at-first, text_is_key,
  text_beq_iff,
}
use agentforgev.Common.Decimal.{str_of, str_of-all, int_of, int_of-str_of}
use agentforgev.Webhooks.Signing.{
  signing_material, if_not_empty, verify_at, verify_fields, distance, is_ascii, compare_digest,
  sign_payload_at, verify_signature,
}
use agentforgev.Webhooks.Signing.Fields.{
  is_hex, not_empty, digit_no_dot, hex_ascii, header_fields-signature_header,
}

none_or_some : {t : ℤ} → ¬ (none ≡ some t)
none_or_some e = cc

int_of_empty : int_of [] ≡ none
unfolding int_of strip_text
int_of_empty = refl

str_of_not_empty : (t : ℤ) → if_not_empty (some (str_of t)) ≡ some (str_of t)
str_of_not_empty t =
    not_empty (str_of t)
      λ e. absurd (none_or_some (sym int_of_empty ∙ ap int_of (sym e) ∙ int_of-str_of t))

compare_digest-ascii :
    (s t : Text)
    → all is_ascii s ≡ true
    → all is_ascii t ≡ true
    → compare_digest s t ≡ some (s == t)
compare_digest-ascii s t h h' = rw h (rw h' refl)

if_fresh : (b c : Bool) → (if not b then some false else some c) ≡ some (b && c)
if_fresh true c = refl
if_fresh false c = refl

-- The checks of a parsed header.
verify_fields-signature :
    (hmac : Text → Text → Text) (secret body digest : Text) (t now tolerance : ℤ)
    → all is_hex digest ≡ true
    → all is_hex (hmac secret (signing_material t body)) ≡ true
    → verify_fields hmac secret body (some (str_of t)) (some digest) tolerance now
      ≡ some (
          leb_ℤ (pos (distance now t)) tolerance && hmac secret (signing_material t body) == digest)
verify_fields-signature hmac secret body digest t now tolerance h h' =
    ap (verify_at hmac secret body digest tolerance now) (int_of-str_of t)
    ∙ ap (λ o. if not (leb_ℤ (pos (distance now t)) tolerance) then some false else o)
        (compare_digest-ascii (hmac secret (signing_material t body)) digest
          (all_weaker is_hex is_ascii (hmac secret (signing_material t body)) hex_ascii h')
          (all_weaker is_hex is_ascii digest hex_ascii h))
    ∙ if_fresh (leb_ℤ (pos (distance now t)) tolerance) _

-- A header that `sign_payload` made for a secret, a body and a timestamp is accepted for a secret and a body
-- exactly if the timestamp is within the tolerance of the present time and the two digests agree. The
-- digests are texts of hexadecimal digits that are not empty. No such header makes the verification raise.
pub verify_signature-sign_payload_at :
    (hmac : Text → Text → Text)
    → ((secret message : Text)
        → (all is_hex (hmac secret message) ≡ true) × (hmac secret message ≢ []))
    → (secret secret' body body' : Text) (t now tolerance : ℤ)
    → verify_signature hmac secret body (sign_payload_at hmac secret' body' t) tolerance now
      ≡ some (
          leb_ℤ (pos (distance now t)) tolerance
          && hmac secret (signing_material t body) == hmac secret' (signing_material t body'))
unfolding verify_signature sign_payload_at
verify_signature-sign_payload_at hmac hex secret secret' body body' t now tolerance =
    let (is_digest, digest_not_empty) = hex secret' (signing_material t body') in
    let digest = hmac secret' (signing_material t body') in
    rw (header_fields-signature_header t digest is_digest) (
      rw (str_of_not_empty t) (
        rw (not_empty digest digest_not_empty) (
          verify_fields-signature hmac secret body digest t now tolerance is_digest
            (hex secret (signing_material t body)).0)))

some_pair :
    {a b c d : Text}
    → ◌≡◌ {A = Option (Text × Text)} (some (a, b)) (some (c, d))
    → (a ≡ c) × (b ≡ d)
some_pair e = (cc, cc)

some_ℤ : {s t : ℤ} → some s ≡ some t → s ≡ t
some_ℤ e = cc

partition_at-dot :
    (t : ℤ) (body : Text) → partition_at b'.' (str_of t ++ b'.' ∷ body) ≡ some (str_of t, body)
partition_at-dot t body =
    partition_at-first b'.' (str_of t) body (str_of-all (is_not b'.') digit_no_dot refl t)

-- The signed bytes determine the timestamp and the body: no two payloads share them.
pub signing_material_injective :
    (t t' : ℤ) (body body' : Text)
    → signing_material t body ≡ signing_material t' body'
    → (t ≡ t') × (body ≡ body')
unfolding signing_material
signing_material_injective t t' body body' e =
    let same : ◌≡◌ {A = Option (Text × Text)} (some (str_of t, body)) (some (str_of t', body')) =
      sym (partition_at-dot t body) ∙ ap (partition_at b'.') e ∙ partition_at-dot t' body' in
    let (printed, same_body) = some_pair same in
    let read : some t ≡ some t' = sym (int_of-str_of t) ∙ ap int_of printed ∙ int_of-str_of t' in
    (some_ℤ read, same_body)

and_second : (a b : Bool) → some (a && b) ≡ some true → b ≡ true
and_second true b h = cc
and_second false b h = cc

-- The header of one payload is accepted for another body under the same secret only if the digest of two
-- different messages is the same. The digests are texts of hexadecimal digits that are not empty.
pub accepted_or_collision :
    (hmac : Text → Text → Text)
    → ((secret message : Text)
        → (all is_hex (hmac secret message) ≡ true) × (hmac secret message ≢ []))
    → (secret body body' : Text) (t now tolerance : ℤ)
    → verify_signature hmac secret body (sign_payload_at hmac secret body' t) tolerance now
      ≡ some true
    → (body ≡ body') ⊎ ((m : Text) × (m' : Text) × (m ≢ m') × (hmac secret m ≡ hmac secret m'))
accepted_or_collision hmac hex secret body body' t now tolerance accepted =
    let m = signing_material t body in
    let m' = signing_material t body' in
    let same : hmac secret m ≡ hmac secret m' = (text_beq_iff (hmac secret m) (hmac secret m')).0 (
      and_second (leb_ℤ (pos (distance now t)) tolerance) (hmac secret m == hmac secret m') (
        sym (verify_signature-sign_payload_at hmac hex secret secret body body' t now tolerance)
        ∙ accepted)) in
    elim (Bool-cases (body == body')) [
      | inl e ↦ inl ((text_beq_iff body body').0 e)
      | inr e ↦ inr (
        m,
        m',
        λ q.
            apart _ ((text_beq_iff body body').1 (signing_material_injective t t body body' q).1) e,
        same,
      )
    ]
