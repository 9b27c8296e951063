-- ===== src/Enterprise/ApiKeys/Tests.antt =====
-- A hasher that puts the salt in front of the secret, and a few calls with it.
use agentforgev.Common.{
  ℕ, ◌≡◌, ◌≢◌, inr, refl, Bool, true, false, none, some, List, [], ◌∷◌, ◌==◌, arith,
}
use agentforgev.Common.Text.{Text, text, text_is_key, text_beq_iff}
use agentforgev.Enterprise.Rbac.{member, viewer}
use agentforgev.Enterprise.ApiKeys.{
  ApiKey, Hasher, create_key, revoke, get_for_org, resolve_key, list_active_by_prefix,
}
use agentforgev.Enterprise.ApiKeys.Calls.{KeyCall, create_call, revoke_call, after_calls}
use agentforgev.Enterprise.ApiKeys.Revocation.{resolve_key-revoked}
use agentforgev.Enterprise.ApiKeys.Resolution.{Answers, resolve_key-create_key}

abbrev behind_salt : Text → Text → Bool
behind_salt [] secret = false
behind_salt (salt ∷ hashed) secret = hashed == secret

abbrev hasher : Hasher
hasher = record { hash = λ salt secret. salt ∷ secret; verify = behind_salt }

verifies : (salt : ℕ) (secret : Text) → hasher.verify (hasher.hash salt secret) secret ≡ true
verifies salt secret = (text_beq_iff secret secret).1 refl

abbrev first_calls : List KeyCall
first_calls =
    create_call 7 1 member (text "abc") 5 10 ∷ create_call 8 2 viewer (text "xyz") 6 20 ∷ []

-- Another organization cannot revoke the key.
foreign_revocation : (revoke 2 7 30 (after_calls hasher first_calls [])).0 ≡ none
unfolding revoke get_for_org create_key
foreign_revocation = refl

revocation_answers : (revoke 1 7 30 (after_calls hasher first_calls [])).0 ≢ none
unfolding revoke get_for_org create_key
revocation_answers e = cc

abbrev xyz : ApiKey
xyz = record {
  id = 8;
  org_id = 2;
  role = viewer;
  key_prefix = text "af_xyz";
  key_hash = 6 ∷ text "af_xyz";
  revoked_at = none;
  created_at = 20;
}

resolves :
    resolve_key hasher (text "af_xyz") (
      after_calls hasher
        (revoke_call 1 7 40 ∷ [])
        (revoke 1 7 30 (after_calls hasher first_calls [])).1)
    ≡ some xyz
unfolding revoke get_for_org create_key resolve_key list_active_by_prefix
resolves = refl

resolve_key-revoked_example : ◌≢◌ {A = ℕ} 8 7
resolve_key-revoked_example =
    resolve_key-revoked hasher first_calls (revoke_call 1 7 40 ∷ []) 1 7 30 revocation_answers
      (tt, tt) (text "af_xyz") xyz resolves

resolve_key-create_key_example :
    let made = create_key hasher 7 1 member (text "abc") 5 10 [] in
    (found : ApiKey) × (resolve_key hasher made.1
        (after_calls hasher (revoke_call 2 7 30 ∷ []) made.2)
      ≡ some found)
    × Answers hasher made.1 found
resolve_key-create_key_example =
    resolve_key-create_key hasher verifies 7 1 member (text "abc") 5 10 [] (revoke_call 2 7 30 ∷ [])
      (inr (omega arith), tt)
