-- ===== src/Enterprise/ApiKeys/Revoked.antt =====
-- A store in which no key with an id is active, and what a revocation makes of a store.
use agentforgev.Common.{
  ℕ, ◌≡◌, ◌≢◌, refl, sym, ap, ◌∙◌, inl, inr, Bool, true, false, ◌||◌, ◌&&◌, Option, none, some,
  List, [], ◌∷◌, ◌==◌, number_keys, arith, Bool-cases, apart,
}
use agentforgev.Common.Dict.{values, lookup, insert, has_key}
use agentforgev.Common.Text.{Text}
use agentforgev.Enterprise.ApiKeys.{
  ApiKey, KeyStore, is_active, is_candidate, revoked_since, if_key_of, get_for_org, revoke_found,
  revoke,
}
use agentforgev.Enterprise.ApiKeys.Calls.{IsFiled, insert-IsFiled, lookup-IsFiled}

abbrev pub any_active : ℕ → List ApiKey → Bool
any_active id [] = false
any_active id (key ∷ rest) = key.id == id && is_active key.revoked_at || any_active id rest

-- No key with the id is active.
abbrev pub IsRevoked : ℕ → KeyStore → Type 0
IsRevoked id s = any_active id (values s) ≡ false

pub absent-IsRevoked : (id : ℕ) (s : KeyStore) → IsFiled s → has_key id s ≡ false → IsRevoked id s
absent-IsRevoked id [] h n = refl
absent-IsRevoked id ((j, key) ∷ s) (same, once, rest) n = ground (
  arith,
  number_keys.equals_iff j id,
  number_keys.equals_iff key.id id,
  absent-IsRevoked id s rest,
)

pub insert_inactive :
    (id : ℕ) (key : ApiKey) (s : KeyStore)
    → IsFiled s
    → is_active key.revoked_at ≡ false
    → IsRevoked id (insert id key s)
insert_inactive id key [] h r = ground arith
insert_inactive id key ((j, w) ∷ s) (same, once, rest) r = ground (
  arith,
  number_keys.equals_iff j id,
  number_keys.equals_iff w.id id,
  absent-IsRevoked id s rest,
  insert_inactive id key s rest r,
)

pub insert_other-IsRevoked :
    (id j : ℕ) (key : ApiKey) (s : KeyStore)
    → key.id ≢ id
    → IsRevoked id s
    → IsRevoked id (insert j key s)
insert_other-IsRevoked id j key [] n h = ground (arith, number_keys.equals_iff key.id id)
insert_other-IsRevoked id j key ((i, w) ∷ s) n h =
    ground (arith, number_keys.equals_iff key.id id, insert_other-IsRevoked id j key s n)

pub found_here :
    (key found : ApiKey) (rest : List ApiKey) (prefix : Text)
    → some key ≡ some found
    → is_candidate prefix key ≡ true
    → any_active found.id (key ∷ rest) ≡ true
found_here key found rest prefix e c =
    let same : key ≡ found = cc in
    let same_id : key.id ≡ found.id = ap (λ (k : ApiKey). k.id) same in
    ground (arith, number_keys.equals_iff key.id found.id)

pub or_later : (a b : Bool) → b ≡ true → (a || b) ≡ true
or_later true b h = refl
or_later false b h = h

pub none_found : {found : ApiKey} → ¬ (none ≡ some found)
none_found e = cc

-- What the store holds under an id has that id.
abbrev pub HasId : ℕ → Option ApiKey → Type 0
HasId id o = (key : ApiKey) → o ≡ some key → key.id ≡ id

pub if_key_of-HasId : (org id : ℕ) (o : Option ApiKey) → HasId id o → HasId id (if_key_of org o)
if_key_of-HasId org id none h = h
if_key_of-HasId org id (some k) h = elim (Bool-cases (k.org_id == org)) [
  | inl own ↦ (λ key e. h key (sym (rw own refl) ∙ e))
  | inr foreign ↦ (λ key e. absurd (none_found (sym (rw foreign refl) ∙ e)))
]

pub get_for_org-HasId : (org id : ℕ) (s : KeyStore) → IsFiled s → HasId id (get_for_org org id s)
unfolding get_for_org
get_for_org-HasId org id s h =
    if_key_of-HasId org id (lookup id s) λ key e. lookup-IsFiled id key s h e

pub inactive_since : (o : Option ℕ) (now : ℕ) → is_active (revoked_since o now) ≡ false
inactive_since none now = refl
inactive_since (some at) now = refl

pub revoke_found-IsFiled :
    (id now : ℕ) (o : Option ApiKey) (s : KeyStore)
    → HasId id o
    → IsFiled s
    → IsFiled (revoke_found id now o s).1
revoke_found-IsFiled id now none s o_id h = h
revoke_found-IsFiled id now (some key) s o_id h =
    insert-IsFiled id (record key { revoked_at = revoked_since key.revoked_at now }) s
      (o_id key refl) h

pub revoke_found-IsRevoked :
    (id now : ℕ) (o : Option ApiKey) (s : KeyStore)
    → IsFiled s
    → (revoke_found id now o s).0 ≢ none
    → IsRevoked id (revoke_found id now o s).1
revoke_found-IsRevoked id now none s h answered = absurd (answered refl)
revoke_found-IsRevoked id now (some key) s h answered =
    insert_inactive id (record key { revoked_at = revoked_since key.revoked_at now }) s h
      (inactive_since key.revoked_at now)

pub revoke_found-keeps :
    (id j now : ℕ) (o : Option ApiKey) (s : KeyStore)
    → HasId j o
    → IsFiled s
    → IsRevoked id s
    → IsRevoked id (revoke_found j now o s).1
revoke_found-keeps id j now none s o_id h r = r
revoke_found-keeps id j now (some key) s o_id h r =
    let key' : ApiKey = record key { revoked_at = revoked_since key.revoked_at now } in
    elim (Bool-cases (j == id)) [
      | inl same ↦
          (let q : j ≡ id = (number_keys.equals_iff j id).0 same in
            rw q (insert_inactive id key' s h (inactive_since key.revoked_at now)))
      | inr other ↦
          insert_other-IsRevoked id j key' s
            (λ e. apart (j == id) ((number_keys.equals_iff j id).1 (sym (o_id key refl) ∙ e)) other)
            r
    ]

pub revoke-IsRevoked :
    (org id now : ℕ) (s : KeyStore)
    → IsFiled s
    → (revoke org id now s).0 ≢ none
    → IsRevoked id (revoke org id now s).1
unfolding revoke
revoke-IsRevoked org id now s = revoke_found-IsRevoked id now (get_for_org org id s) s
