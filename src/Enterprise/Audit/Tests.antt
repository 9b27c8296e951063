-- ===== src/Enterprise/Audit/Tests.antt =====
-- A log whose events share a time, and metadata that is refused or cut.
use agentforgev.Common.{ℕ, ◌+◌, ◌≡◌, refl, true, false, none, some, [], ◌∷◌, ◌++◌, arith}
use agentforgev.Common.Text.{text, strip_text}
use agentforgev.Common.Sort.{sort_by}
use agentforgev.Common.Sort.Pages.{last_of}
use agentforgev.Enterprise.Audit.{
  AuditEvent, user_actor, scalar_value, structured_value, admit_metadata, Principal, record_audit,
  lost, unavailable,
}
use agentforgev.Enterprise.Audit.Log.{AuditLog, AuditFilters, cursor_of, audit_page}
use agentforgev.Enterprise.Audit.Pages.{audit_page-behind}

abbrev event_at : ℕ → ℕ → AuditEvent
event_at id at = record {
  id = id;
  org_id = 1;
  actor_kind = user_actor;
  actor_user_id = some 4;
  actor_key_id = none;
  action = "member.added";
  target_type = "member";
  target_id = none;
  metadata = [];
  created_at = at;
}

abbrev log : AuditLog
log = event_at 1 10 ∷ event_at 2 20 ∷ event_at 3 20 ∷ []

abbrev everything : AuditFilters
everything = record { actions = []; actor_id = none; start = none; stop = none }

newest : audit_page 1 everything none 2 log ≡ event_at 3 20 ∷ event_at 2 20 ∷ []
unfolding audit_page sort_by
newest = refl

newest_last : last_of (audit_page 1 everything none 1 log) ≡ some (event_at 3 20)
unfolding audit_page sort_by
newest_last = refl

refused :
    (admit_metadata (λ s. s) ((text "token_id", scalar_value 1) ∷ []) ≡ none)
    × (admit_metadata (λ s. s) ((text "settings", structured_value) ∷ []) ≡ none)
    × (admit_metadata (λ s. s) ((text "role", scalar_value 1) ∷ [])
        ≡ some ((text "role", scalar_value 1) ∷ []))
unfolding admit_metadata strip_text
refused = (refl, refl, refl)

abbrev somebody : Principal
somebody = record { kind = user_actor; user_id = some 4; key_id = none; org_id = 1 }

-- A log that cannot be written fails open or closed.
postures :
    (record_audit
        (λ s. s)
        (λ e w. (false, w))
        false
        1
        10
        somebody
        "org.created"
        "org"
        none
        none
        []
        tt
      ≡ (lost, tt))
    × (record_audit
          (λ s. s)
          (λ e w. (false, w))
          true
          1
          10
          somebody
          "org.created"
          "org"
          none
          none
          []
          tt
        ≡ (unavailable "org.created", tt))
unfolding record_audit admit_metadata
postures = (refl, refl)

audit_page-behind_example :
    audit_page 1 everything none 1 log
      ++ audit_page 1 everything (some (cursor_of (event_at 3 20))) 2 log
    ≡ audit_page 1 everything none (1 + 2) log
audit_page-behind_example =
    audit_page-behind 1 everything 1 2 (event_at 3 20) log
      ((omega arith, (omega arith, tt)), ((omega arith, tt), (tt, tt))) newest_last
