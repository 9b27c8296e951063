-- ===== src/Enterprise/ApiKeys/Revocation.antt =====
-- What a revocation means for every later presentation of the secret.
use agentforgev.Common.{
  ℕ, ◌≡◌, ◌≢◌, refl, sym, ap, ◌∙◌, inl, inr, true, none, some, List, [], ◌∷◌, number_keys, All,
  filter, take, Bool-cases, apart,
}
use agentforgev.Common.Dict.{values}
use agentforgev.Common.Text.{starts_with, Text}
use agentforgev.Enterprise.ApiKeys.{
  ApiKey, KeyStore, Hasher, is_candidate, get_for_org, revoke, create_key, first_verified,
  resolve_key, list_active_by_prefix, api_key_prefix_len, api_key_prefix,
}
use agentforgev.Enterprise.ApiKeys.Calls.{
  KeyCall, create_call, revoke_call, after_call, after_calls, IsOtherId, IsFiled, insert-IsFiled,
}
use agentforgev.Enterprise.ApiKeys.Revoked.{
  any_active, IsRevoked, insert_other-IsRevoked, found_here, or_later, none_found,
  get_for_org-HasId, revoke_found-IsFiled, revoke_found-keeps, revoke-IsRevoked,
}

module _ (hasher : Hasher) where
  -- A key that is found among the candidates is an active one of the store.
  first_verified-active :
      (presented prefix : Text) (found : ApiKey) (keys : List ApiKey)
      → first_verified hasher presented (filter (is_candidate prefix) keys) ≡ some found
      → any_active found.id keys ≡ true
  first_verified-active presented prefix found [] h = cc
  first_verified-active presented prefix found (key ∷ rest) h =
      elim (Bool-cases (is_candidate prefix key)) [
        | inl in_list ↦ elim (Bool-cases (hasher.verify key.key_hash presented)) [
          | inl fits ↦
              (let e : some key ≡ some found = sym (rw in_list (rw fits refl)) ∙ h in
                found_here key found rest prefix e in_list)
          | inr fails ↦
              (let h' : first_verified hasher presented (filter (is_candidate prefix) rest)
                    ≡ some found =
                  rw fails at (rw in_list at h) in
                or_later _ _ (first_verified-active presented prefix found rest h'))
        ]
        | inr not_in ↦
            (let h' : first_verified hasher presented (filter (is_candidate prefix) rest)
                  ≡ some found =
                rw not_in at h in
              or_later _ _ (first_verified-active presented prefix found rest h'))
      ]

  resolve_key-active :
      (presented : Text) (found : ApiKey) (s : KeyStore)
      → resolve_key hasher presented s ≡ some found
      → any_active found.id (values s) ≡ true
  unfolding resolve_key list_active_by_prefix
  resolve_key-active presented found s h =
      elim (Bool-cases (starts_with api_key_prefix presented)) [
        | inl begins ↦
            first_verified-active presented (take api_key_prefix_len presented) found (values s)
              (rw begins at h)
        | inr other ↦ absurd (none_found (rw other at h))
      ]

  after_call-IsFiled : (c : KeyCall) (s : KeyStore) → IsFiled s → IsFiled (after_call hasher c s)
  unfolding create_key revoke
  after_call-IsFiled (create_call id org role token salt now) s h = insert-IsFiled id _ s refl h
  after_call-IsFiled (revoke_call org id now) s h =
      revoke_found-IsFiled id now (get_for_org org id s) s (get_for_org-HasId org id s h) h

  after_call-IsRevoked :
      (id : ℕ) (c : KeyCall) (s : KeyStore)
      → IsOtherId id c
      → IsFiled s
      → IsRevoked id s
      → IsRevoked id (after_call hasher c s)
  unfolding create_key revoke
  after_call-IsRevoked id (create_call j org role token salt now) s other h r =
      insert_other-IsRevoked id j _ s other r
  after_call-IsRevoked id (revoke_call org j now) s other h r =
      revoke_found-keeps id j now (get_for_org org j s) s (get_for_org-HasId org j s h) h r

  after_calls-IsRevoked :
      (id : ℕ) (cs : List KeyCall) (s : KeyStore)
      → All (IsOtherId id) cs
      → IsFiled s
      → IsRevoked id s
      → IsRevoked id (after_calls hasher cs s)
  after_calls-IsRevoked id [] s others h r = r
  after_calls-IsRevoked id (c ∷ cs) s (other, others) h r =
      after_calls-IsRevoked id cs (after_call hasher c s) others (after_call-IsFiled c s h)
        (after_call-IsRevoked id c s other h r)

  pub after_calls-IsFiled :
      (cs : List KeyCall) (s : KeyStore) → IsFiled s → IsFiled (after_calls hasher cs s)
  after_calls-IsFiled [] s h = h
  after_calls-IsFiled (c ∷ cs) s h =
      after_calls-IsFiled cs (after_call hasher c s) (after_call-IsFiled c s h)

  -- Once a revocation has answered with a key, no secret resolves to that key, whatever keys are created and
  -- revoked before it and after it, as long as no key is created with the same id again.
  pub resolve_key-revoked :
      (earlier more : List KeyCall) (org id now : ℕ)
      → (revoke org id now (after_calls hasher earlier [])).0 ≢ none
      → All (IsOtherId id) more
      → (presented : Text) (found : ApiKey)
      → resolve_key hasher presented
          (after_calls hasher more (revoke org id now (after_calls hasher earlier [])).1)
        ≡ some found
      → found.id ≢ id
  resolve_key-revoked earlier more org id now answered others presented found e same =
      let s = after_calls hasher earlier [] in
      let filed = after_calls-IsFiled earlier [] tt in
      let s' = (revoke org id now s).1 in
      let last = after_calls hasher more s' in
      apart (any_active id (values last))
        (ap (λ i. any_active i (values last)) (sym same)
          ∙ resolve_key-active presented found last e)
        (after_calls-IsRevoked id more s' others
          (after_call-IsFiled (revoke_call org id now) s filed)
          (revoke-IsRevoked org id now s filed answered))
