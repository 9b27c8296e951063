-- ===== src/Enterprise/Audit/Log.antt =====
-- The in-memory log of enterprise/audit.py: appending, and reading a page under filters and a cursor. A UUID is
-- compared as its number, as its canonical text is; the limit of a page is not negative.
use agentforgev.Common.{
  ℕ, String, Bool, true, false, not, ◌&&◌, ◌||◌, Option, none, some, List, [], ◌∷◌, ◌++◌, take,
  filter, ltb, leb, ◌==◌, number_keys, text_keys,
}
use agentforgev.Common.Sort.{sort_by}
use agentforgev.Enterprise.Audit.{AuditEvent}

-- InMemory_Audit_Log
abbrev pub AuditLog : Type 0
AuditLog = List AuditEvent

unfoldable pub append_event : AuditEvent → AuditLog → AuditLog
append_event event events = events ++ event ∷ []

-- The arguments of `list_for_org` that select, except for the cursor.
pub record AuditFilters : Type 0 where
  pub actions : List String
  pub actor_id : Option ℕ
  pub start : Option ℕ
  pub stop : Option ℕ

abbrev pub is_action_in : List String → String → Bool
is_action_in [] action = false
is_action_in (a ∷ actions) action = a == action || is_action_in actions action

abbrev pub passes_actions : List String → String → Bool
passes_actions [] action = true
passes_actions (a ∷ actions) action = is_action_in (a ∷ actions) action

abbrev pub is_actor : Option ℕ → ℕ → Bool
is_actor none id = false
is_actor (some n) id = n == id

abbrev pub passes_actor : Option ℕ → AuditEvent → Bool
passes_actor none e = true
passes_actor (some id) e = is_actor e.actor_user_id id || is_actor e.actor_key_id id

abbrev pub passes_start : Option ℕ → ℕ → Bool
passes_start none at = true
passes_start (some bound) at = leb bound at

abbrev pub passes_stop : Option ℕ → ℕ → Bool
passes_stop none at = true
passes_stop (some bound) at = leb at bound

-- (created_at, id) < (created_at', id')
abbrev pub cursor_lt : ℕ × ℕ → ℕ × ℕ → Bool
cursor_lt (at, id) (at', id') = ltb at at' || at == at' && ltb id id'

abbrev pub cursor_of : AuditEvent → ℕ × ℕ
cursor_of e = (e.created_at, e.id)

abbrev pub passes_cursor : Option (ℕ × ℕ) → AuditEvent → Bool
passes_cursor none e = true
passes_cursor (some cursor) e = cursor_lt (cursor_of e) cursor

abbrev pub passes_filters : ℕ → AuditFilters → AuditEvent → Bool
passes_filters org by e =
    e.org_id == org
    && passes_actions by.actions e.action
    && passes_actor by.actor_id e
    && passes_start by.start e.created_at
    && passes_stop by.stop e.created_at

-- The order of `sort` with `reverse=True`, which is stable too.
abbrev pub newer_or_same : AuditEvent → AuditEvent → Bool
newer_or_same a b = not (cursor_lt (cursor_of a) (cursor_of b))

unfoldable pub audit_page : ℕ → AuditFilters → Option (ℕ × ℕ) → ℕ → AuditLog → List AuditEvent
audit_page org by before limit events =
    take limit (
      sort_by newer_or_same
        (filter (λ e. passes_filters org by e && passes_cursor before e) events))
