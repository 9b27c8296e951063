-- ===== src/Enterprise/ApiKeys/Resolution.antt =====
-- The secret of a key resolves for as long as the key is not revoked.
use agentforgev.Common.{
  ℕ, ◌≡◌, ◌≢◌, refl, ap, ◌∙◌, ◌⊎◌, inl, inr, Bool, true, false, ◌&&◌, Option, none, some, List, [],
  ◌∷◌, ◌++◌, ◌==◌, number_keys, arith, All, filter, take, Bool-cases, apart, and_parts,
}
use agentforgev.Common.Dict.{values, lookup, lookup-insert_ne, lookup-insert_self}
use agentforgev.Common.Text.{Text, text_is_key, text_beq_iff}
use agentforgev.Enterprise.Rbac.{Role}
use agentforgev.Enterprise.ApiKeys.{
  ApiKey, KeyStore, Hasher, is_active, is_candidate, revoked_since, if_key_of, get_for_org,
  revoke_found, revoke, create_key, first_verified, resolve_key, list_active_by_prefix,
  api_key_prefix_len, api_key_prefix,
}
use agentforgev.Enterprise.ApiKeys.Calls.{
  KeyCall, create_call, revoke_call, after_call, after_calls,
}

-- Calls that do not touch a key: no key takes its id, and its organization does not revoke it.
abbrev pub Spares : ℕ → ℕ → KeyCall → Type 0
Spares id org (create_call j o role token salt now) = j ≢ id
Spares id org (revoke_call o j now) = (j ≢ id) ⊎ (o ≢ org)

-- The conditions under which a key answers for a secret.
abbrev pub Answers : Hasher → Text → ApiKey → Type 0
Answers hasher secret key = (hasher.verify key.key_hash secret ≡ true) × (key.revoked_at ≡ none)

active_none : (o : Option ℕ) → is_active o ≡ true → o ≡ none
active_none none h = refl
active_none (some at) h = cc

foreign : {id j org o : ℕ} → j ≡ id → (j ≢ id) ⊎ (o ≢ org) → o ≢ org
foreign q (inl n) = absurd (n q)
foreign q (inr n) = n

same_key : {a b : ApiKey} → some a ≡ some b → a ≡ b
same_key e = cc

revoke_found-lookup_ne :
    (id j now : ℕ) (o : Option ApiKey) (s : KeyStore)
    → j ≢ id
    → lookup id (revoke_found j now o s).1 ≡ lookup id s
revoke_found-lookup_ne id j now none s n = refl
revoke_found-lookup_ne id j now (some key) s n =
    lookup-insert_ne j id (record key { revoked_at = revoked_since key.revoked_at now }) s n

foreign_key : (org : ℕ) (key : ApiKey) → org ≢ key.org_id → if_key_of org (some key) ≡ none
foreign_key org key n = ground (arith, number_keys.equals_iff key.org_id org)

-- A revocation by another organization finds no key.
revoke_foreign :
    (id now org : ℕ) (key : ApiKey) (s : KeyStore)
    → lookup id s ≡ some key
    → org ≢ key.org_id
    → (revoke org id now s).1 ≡ s
unfolding revoke get_for_org
revoke_foreign id now org key s e n =
    let none_there : if_key_of org (lookup id s) ≡ none =
      ap (if_key_of org) e ∙ foreign_key org key n in
    ap (λ o. (revoke_found id now o s).1) none_there

module _ (hasher : Hasher) where
  abbrev fits : Text → Text → ApiKey → Bool
  fits secret prefix w = is_candidate prefix w && hasher.verify w.key_hash secret

  first_verified-hit :
      (secret prefix : Text) (w : ApiKey) (keys : List ApiKey)
      → fits secret prefix w ≡ true
      → first_verified hasher secret (filter (is_candidate prefix) (w ∷ keys)) ≡ some w
  first_verified-hit secret prefix w keys h =
      let (c, v) = and_parts (is_candidate prefix w) (hasher.verify w.key_hash secret) h in
      rw c (rw v refl)

  first_verified-miss :
      (secret prefix : Text) (w : ApiKey) (keys : List ApiKey)
      → fits secret prefix w ≡ false
      → first_verified hasher secret (filter (is_candidate prefix) (w ∷ keys))
        ≡ first_verified hasher secret (filter (is_candidate prefix) keys)
  first_verified-miss secret prefix w keys h = elim (Bool-cases (is_candidate prefix w)) [
    | inl c ↦ (let v : hasher.verify w.key_hash secret ≡ false = rw c at h in rw c (rw v refl))
    | inr c ↦ rw c refl
  ]

  -- A key that does not fit is another one than the key that is looked for.
  later :
      (w key : ApiKey) (j id : ℕ) (s : KeyStore) (secret prefix : Text)
      → lookup id ((j, w) ∷ s) ≡ some key
      → is_candidate prefix key ≡ true
      → hasher.verify key.key_hash secret ≡ true
      → fits secret prefix w ≡ false
      → lookup id s ≡ some key
  later w key j id s secret prefix e c v miss = elim (Bool-cases (j == id)) [
    | inl same ↦
        (let q : w ≡ key = same_key (rw same at e) in
          absurd (apart (fits secret prefix w) (ap (fits secret prefix) q ∙ rw c v) miss))
    | inr other ↦ (rw other at e)
  ]

  first_verified-Answers :
      (secret prefix : Text) (id : ℕ) (key : ApiKey) (s : KeyStore)
      → lookup id s ≡ some key
      → is_candidate prefix key ≡ true
      → hasher.verify key.key_hash secret ≡ true
      → (found : ApiKey) × (first_verified hasher secret (filter (is_candidate prefix) (values s))
          ≡ some found)
        × Answers hasher secret found
  first_verified-Answers secret prefix id key [] e c v = cc
  first_verified-Answers secret prefix id key ((j, w) ∷ s) e c v =
      elim (Bool-cases (fits secret prefix w)) [
        | inl hit ↦
            (let (c', v') = and_parts _ _ hit in
              (
                w,
                first_verified-hit secret prefix w (values s) hit,
                (v', active_none w.revoked_at (and_parts _ _ c').1),
              ))
        | inr miss ↦
            (let (found, q, ok) =
                first_verified-Answers secret prefix id key s
                  (later w key j id s secret prefix e c v miss) c v in
              (found, first_verified-miss secret prefix w (values s) miss ∙ q, ok))
      ]

  after_call-lookup :
      (id : ℕ) (key : ApiKey) (c : KeyCall) (s : KeyStore)
      → Spares id key.org_id c
      → lookup id s ≡ some key
      → lookup id (after_call hasher c s) ≡ some key
  unfolding create_key revoke get_for_org
  after_call-lookup id key (create_call j o role token salt now) s spares e =
      lookup-insert_ne j id _ s spares ∙ e
  after_call-lookup id key (revoke_call o j now) s spares e = elim (Bool-cases (j == id)) [
    | inl same ↦
        (let q : j ≡ id = (number_keys.equals_iff j id).0 same in
          rw q (ap (lookup id) (revoke_foreign id now o key s e (foreign q spares)) ∙ e))
    | inr other ↦
        revoke_found-lookup_ne id j now (get_for_org o j s) s
          (λ q. apart (j == id) ((number_keys.equals_iff j id).1 q) other)
        ∙ e
  ]

  after_calls-lookup :
      (id : ℕ) (key : ApiKey) (cs : List KeyCall) (s : KeyStore)
      → All (Spares id key.org_id) cs
      → lookup id s ≡ some key
      → lookup id (after_calls hasher cs s) ≡ some key
  after_calls-lookup id key [] s h e = e
  after_calls-lookup id key (c ∷ cs) s (h, hs) e =
      after_calls-lookup id key cs (after_call hasher c s) hs (after_call-lookup id key c s h e)

  candidate : (prefix : Text) → ((prefix == prefix) && true) ≡ true
  candidate prefix = rw ((text_beq_iff prefix prefix).1 refl) refl

  -- The secret that a creation returns resolves to an active key whose hash verifies it, after any calls
  -- that neither take the id of the key again nor revoke it from its organization. The hasher verifies what it
  -- hashed.
  pub resolve_key-create_key :
      ((salt : ℕ) (secret : Text) → hasher.verify (hasher.hash salt secret) secret ≡ true)
      → (id org : ℕ) (role : Role) (token : Text) (salt now : ℕ) (s : KeyStore) (cs : List KeyCall)
      → All (Spares id org) cs
      → let made = create_key hasher id org role token salt now s in
        (found : ApiKey) × (resolve_key hasher made.1 (after_calls hasher cs made.2) ≡ some found)
        × Answers hasher made.1 found
  unfolding create_key resolve_key list_active_by_prefix
  resolve_key-create_key verifies id org role token salt now s cs spared =
      let secret = api_key_prefix ++ token in
      let prefix = take api_key_prefix_len secret in
      let (key, _, s') = create_key hasher id org role token salt now s in
      first_verified-Answers secret prefix id key (after_calls hasher cs s')
        (after_calls-lookup id key cs s' spared (lookup-insert_self id key s)) (candidate prefix)
        (verifies salt secret)
