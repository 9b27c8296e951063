-- ===== src/Enterprise/ApiKeys.antt =====
-- enterprise/api_keys.py: the service over its in-memory store. The token and the id that the code draws at
-- random, the salt of a hash and the time of a call are arguments; the password hasher is a parameter.
pub mod Calls
pub mod Revoked
pub mod Revocation
pub mod Resolution
mod Tests
use agentforgev.Common.{
  ℕ, Bool, true, false, ◌&&◌, Option, none, some, List, [], ◌∷◌, ◌++◌, take, filter, ◌==◌,
  number_keys, if◌then◌else◌,
}
use agentforgev.Common.Dict.{Dict, values, lookup, insert}
use agentforgev.Common.Text.{Text, starts_with, text, text_is_key}
use agentforgev.Enterprise.Rbac.{Role, Permission, permissions_for}

pub record ApiKey : Type 0 where
  pub id : ℕ
  pub org_id : ℕ
  pub role : Role
  pub key_prefix : Text
  pub key_hash : Text
  pub revoked_at : Option ℕ
  pub created_at : ℕ

abbrev pub KeyStore : Type 0
KeyStore = Dict ℕ ApiKey

-- `hash` with its salt, and `verify`: false where it raises an exception that the service catches.
pub record Hasher : Type 0 where
  pub hash : ℕ → Text → Text
  pub verify : Text → Text → Bool

abbrev pub api_key_prefix : Text
api_key_prefix = text "af_"

abbrev pub api_key_prefix_len : ℕ
api_key_prefix_len = 8

abbrev pub is_active : Option ℕ → Bool
is_active none = true
is_active (some at) = false

abbrev pub is_candidate : Text → ApiKey → Bool
is_candidate prefix key = key.key_prefix == prefix && is_active key.revoked_at

-- InMemory_API_Key_Store
unfoldable pub list_active_by_prefix : Text → KeyStore → List ApiKey
list_active_by_prefix prefix s = filter (is_candidate prefix) (values s)

unfoldable pub keys_for_org : ℕ → KeyStore → List ApiKey
keys_for_org org s = filter (λ key. key.org_id == org) (values s)

abbrev pub if_key_of : ℕ → Option ApiKey → Option ApiKey
if_key_of org none = none
if_key_of org (some key) = if key.org_id == org then some key else none

unfoldable pub get_for_org : ℕ → ℕ → KeyStore → Option ApiKey
get_for_org org id s = if_key_of org (lookup id s)

-- The first revocation counts.
abbrev pub revoked_since : Option ℕ → ℕ → Option ℕ
revoked_since none now = some now
revoked_since (some at) now = some at

-- The store holds the object that is changed, so the change is a write under its key.
abbrev pub revoke_found : ℕ → ℕ → Option ApiKey → KeyStore → Option ApiKey × KeyStore
revoke_found id now none s = (none, s)
revoke_found id now (some key) s =
    let key' : ApiKey = record key { revoked_at = revoked_since key.revoked_at now } in
    (some key', insert id key' s)

-- `revoke`, and `revoke_for_org` of the store
unfoldable pub revoke : ℕ → ℕ → ℕ → KeyStore → Option ApiKey × KeyStore
revoke org id now s = revoke_found id now (get_for_org org id s) s

unfoldable pub role_permissions : ApiKey → List Permission
role_permissions key = permissions_for key.role

module _ (hasher : Hasher) where
  -- The secret, which goes to the caller, and the store with the key.
  unfoldable pub create_key : ℕ → ℕ → Role → Text → ℕ → ℕ → KeyStore → ApiKey × Text × KeyStore
  create_key id org role token salt now s =
      let secret = api_key_prefix ++ token in
      let key : ApiKey = record {
        id = id;
        org_id = org;
        role = role;
        key_prefix = take api_key_prefix_len secret;
        key_hash = hasher.hash salt secret;
        revoked_at = none;
        created_at = now;
      } in
      (key, secret, insert id key s)

  abbrev pub first_verified : Text → List ApiKey → Option ApiKey
  first_verified presented [] = none
  first_verified presented (key ∷ rest) =
      let later = first_verified presented rest in
      if hasher.verify key.key_hash presented then some key else later

  unfoldable pub resolve_key : Text → KeyStore → Option ApiKey
  resolve_key presented s =
      if starts_with api_key_prefix presented
      then first_verified presented (list_active_by_prefix (take api_key_prefix_len presented) s)
      else none
