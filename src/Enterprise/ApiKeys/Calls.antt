-- ===== src/Enterprise/ApiKeys/Calls.antt =====
-- The calls that write to a store of API keys, in any order.
use agentforgev.Common.{ℕ, ◌≡◌, ◌≢◌, refl, false, some, List, [], ◌∷◌, number_keys, arith}
use agentforgev.Common.Dict.{lookup, insert, has_key, has_key-insert}
use agentforgev.Common.Text.{Text}
use agentforgev.Enterprise.Rbac.{Role}
use agentforgev.Enterprise.ApiKeys.{ApiKey, KeyStore, Hasher, revoke, create_key}

pub data KeyCall : Type 0 where
  create_call : ℕ → ℕ → Role → Text → ℕ → ℕ → KeyCall
  revoke_call : ℕ → ℕ → ℕ → KeyCall

abbrev pub after_call : Hasher → KeyCall → KeyStore → KeyStore
after_call hasher (create_call id org role token salt now) s =
    let (_, _, s') = create_key hasher id org role token salt now s in s'
after_call hasher (revoke_call org id now) s = let (_, s') = revoke org id now s in s'

abbrev pub after_calls : Hasher → List KeyCall → KeyStore → KeyStore
after_calls hasher [] s = s
after_calls hasher (c ∷ cs) s = after_calls hasher cs (after_call hasher c s)

-- `uuid4` gives no id a second time.
abbrev pub IsOtherId : ℕ → KeyCall → Type 0
IsOtherId id (create_call j org role token salt now) = j ≢ id
IsOtherId id (revoke_call org j now) = Unit

-- Every key stands under its own id, once.
abbrev pub IsFiled : KeyStore → Type 0
IsFiled [] = Unit
IsFiled ((j, key) ∷ s) = (key.id ≡ j) × (has_key j s ≡ false) × IsFiled s

pub insert-IsFiled :
    (id : ℕ) (key : ApiKey) (s : KeyStore) → key.id ≡ id → IsFiled s → IsFiled (insert id key s)
insert-IsFiled id key [] e h = (e, refl, tt)
insert-IsFiled id key ((j, w) ∷ s) e (same, once, rest) = ground (
  arith,
  number_keys.equals_iff j id,
  number_keys.equals_iff id j,
  has_key-insert id j key s,
  insert-IsFiled id key s e rest,
)

pub lookup-IsFiled :
    (id : ℕ) (key : ApiKey) (s : KeyStore) → IsFiled s → lookup id s ≡ some key → key.id ≡ id
lookup-IsFiled id key [] h e = cc
lookup-IsFiled id key ((j, w) ∷ s) (same, once, rest) e =
    ground (arith, number_keys.equals_iff j id, lookup-IsFiled id key s rest)
