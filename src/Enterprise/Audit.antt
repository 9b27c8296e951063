-- ===== src/Enterprise/Audit.antt =====
-- enterprise/audit.py: what may stand in an audit row, and the service that records one. The log that the
-- service writes to, over its state `W`, and `str.lower` are parameters.
pub mod Log
pub mod Pages
mod Tests
use agentforgev.Common.{
  ℕ, ◌-◌, String, Bool, true, false, not, ◌&&◌, ◌||◌, Option, none, some, List, [], ◌∷◌, ◌++◌,
  length, take, filter, ltb, leb, ◌==◌, number_keys, text_keys, if◌then◌else◌,
}
use agentforgev.Common.Sort.{sort_by}
use agentforgev.Common.Text.{Text, starts_with, text, strip_text}

-- A value of the metadata: a `str`, another scalar, or what is no scalar.
pub data MetaValue : Type 0 where
  string_value : Text → MetaValue
  scalar_value : ℕ → MetaValue
  structured_value : MetaValue

abbrev pub Metadata : Type 0
Metadata = List (Text × MetaValue)

pub data ActorKind : Type 0 where
  user_actor key_actor : ActorKind

pub record Principal : Type 0 where
  pub kind : ActorKind
  pub user_id : Option ℕ
  pub key_id : Option ℕ
  pub org_id : ℕ

pub record AuditEvent : Type 0 where
  pub id : ℕ
  pub org_id : ℕ
  pub actor_kind : ActorKind
  pub actor_user_id : Option ℕ
  pub actor_key_id : Option ℕ
  pub action : String
  pub target_type : String
  pub target_id : Option String
  pub metadata : Metadata
  pub created_at : ℕ

abbrev pub credential_key_markers : List Text
credential_key_markers =
    text "secret"
    ∷ text "token"
    ∷ text "password"
    ∷ text "passwd"
    ∷ text "credential"
    ∷ text "api_key"
    ∷ text "apikey"
    ∷ text "private_key"
    ∷ text "authorization"
    ∷ text "bearer"
    ∷ text "signature"
    ∷ text "hash"
    ∷ []

abbrev pub max_metadata_keys : ℕ
max_metadata_keys = 12

abbrev pub max_metadata_value_length : ℕ
max_metadata_value_length = 256

-- part in s
abbrev pub has_part : Text → Text → Bool
has_part part [] = starts_with part []
has_part part (c ∷ s) = starts_with part (c ∷ s) || has_part part s

abbrev pub has_any_part : List Text → Text → Bool
has_any_part [] s = false
has_any_part (part ∷ parts) s = has_part part s || has_any_part parts s

abbrev pub is_blank : Text → Bool
is_blank [] = true
is_blank (c ∷ s) = false

-- A value that is too long is cut, with a mark; `none` for what is no scalar.
abbrev pub admit_value : MetaValue → Option MetaValue
admit_value (string_value s) =
    if ltb max_metadata_value_length (length s)
    then some (string_value (take (max_metadata_value_length - 1) s ++ 8230 ∷ []))
    else some (string_value s)
admit_value (scalar_value n) = some (scalar_value n)
admit_value structured_value = none

abbrev pub put_entry : Text → Option MetaValue → Option Metadata → Option Metadata
put_entry key (some value) (some rest) = some ((key, value) ∷ rest)
put_entry key value rest = none

-- How a call of `record` ended: the event, `None`, or `AuditUnavailableError`.
pub data Recorded : Type 0 where
  recorded : AuditEvent → Recorded
  lost : Recorded
  unavailable : String → Recorded

abbrev pub or_org : Option ℕ → ℕ → ℕ
or_org none org = org
or_org (some org') org = org'

module _ (lower : Text → Text) where
  abbrev pub names_credential : Text → Bool
  names_credential key = has_any_part credential_key_markers (lower key)

  abbrev pub admit_entries : Metadata → Option Metadata
  admit_entries [] = some []
  admit_entries ((key, value) ∷ entries) =
      let rest = admit_entries entries in
      if is_blank (strip_text key) || names_credential key
      then none
      else put_entry key (admit_value value) rest

  -- `none` when it raises `ValueError`
  unfoldable pub admit_metadata : Metadata → Option Metadata
  admit_metadata metadata =
      if ltb max_metadata_keys (length metadata) then none else admit_entries metadata

  module _ {W : Type 0} (write : AuditEvent → W → Bool × W) (required : Bool) where
    abbrev pub on_failure : String → Recorded
    on_failure action = if required then unavailable action else lost

    abbrev pub after_write : String → AuditEvent → Bool × W → Recorded × W
    after_write action event (true, w) = (recorded event, w)
    after_write action event (false, w) = (on_failure action, w)

    abbrev pub record_admitted :
        ℕ
        → ℕ
        → Principal
        → String
        → String
        → Option String
        → Option ℕ
        → Option Metadata
        → W
        → Recorded × W
    record_admitted id now who action target_type target_id org none w = (on_failure action, w)
    record_admitted id now who action target_type target_id org (some metadata) w =
        let event : AuditEvent = record {
          id = id;
          org_id = or_org org who.org_id;
          actor_kind = who.kind;
          actor_user_id = who.user_id;
          actor_key_id = who.key_id;
          action = action;
          target_type = target_type;
          target_id = target_id;
          metadata = metadata;
          created_at = now;
        } in
        after_write action event (write event w)

    unfoldable pub record_audit :
        ℕ → ℕ → Principal → String → String → Option String → Option ℕ → Metadata → W → Recorded × W
    record_audit id now who action target_type target_id org metadata =
        record_admitted id now who action target_type target_id org (admit_metadata metadata)
