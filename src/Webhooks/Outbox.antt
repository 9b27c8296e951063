-- ===== src/Webhooks/Outbox.antt =====
-- `InMemory_Webhook_Outbox` of webhooks/outbox.py. Where the code reads the clock, the time is given.
pub mod Keyed
pub mod Claims
pub mod Writes
pub mod Requeue
use agentforgev.Common.{
  ℕ, ◌+◌, String, Bool, true, false, Option, none, some, List, [], ◌∷◌, ◌&&◌, ◌||◌, not, ltb, leb,
  ◌==◌, number_keys, length, take, filter, map, if◌then◌else◌,
}
use mathlib.Core.List.{reverse}
use agentforgev.Common.Dict.{Dict, lookup, insert, erase, values}
use agentforgev.Common.Sort.{sort_by}
use agentforgev.Webhooks.Entry.{
  Entry, Status, pending, delivered, abandoned, is_due, due_before, leased, is_delivered,
  is_abandoned, same_status,
}

abbrev pub Outbox : Type 0
Outbox = Dict ℕ Entry

unfoldable pub enqueue : Entry → Outbox → Outbox
enqueue e box = insert e.id e box

-- The entries that a claim leases, before it does.
unfoldable pub due_entries : ℕ → Outbox → List Entry
unfolding is_due due_before sort_by
due_entries now box = sort_by due_before (filter (is_due now) (values box))

abbrev pub lease_all : ℕ → List Entry → Outbox → Outbox
lease_all now [] box = box
lease_all now (e ∷ es) box = lease_all now es (insert e.id (leased now e) box)

unfoldable pub claim_due : ℕ → ℕ → Outbox → List Entry × Outbox
claim_due limit now box =
    let chosen = take limit (due_entries now box) in
    (map (leased now) chosen, lease_all now chosen box)

abbrev pub update_found : Option Entry → ℕ → (Entry → Entry) → Outbox → Outbox
update_found none id f box = box
update_found (some e) id f box = insert id (f e) box

-- A write to the entry of an id, if there is one.
abbrev pub update_entry : ℕ → (Entry → Entry) → Outbox → Outbox
update_entry id f box = update_found (lookup id box) id f box

abbrev pub settled : Status → ℕ → Option String → ℕ → Entry → Entry
settled status attempts error now e = record e {
  status = status;
  attempts = attempts;
  leased_until = none;
  last_error = error;
  updated_at = now;
}

unfoldable pub mark_delivered : ℕ → ℕ → ℕ → Outbox → Outbox
mark_delivered id attempts now = update_entry id (settled delivered attempts none now)

abbrev pub put_off : ℕ → ℕ → Option String → ℕ → Entry → Entry
put_off attempts next error now e = record (settled pending attempts error now e) {
  next_attempt_at = next;
}

unfoldable pub reschedule : ℕ → ℕ → ℕ → Option String → ℕ → Outbox → Outbox
reschedule id attempts next error now = update_entry id (put_off attempts next error now)

unfoldable pub abandon : ℕ → ℕ → Option String → ℕ → Outbox → Outbox
abandon id attempts error now = update_entry id (settled abandoned attempts error now)

abbrev pub if_owned : ℕ → Option Entry → Option Entry
if_owned org none = none
if_owned org (some e) = if e.org_id == org then some e else none

unfoldable pub get : ℕ → ℕ → Outbox → Option Entry
get org id box = if_owned org (lookup id box)

abbrev pub matches : Option Status → Entry → Bool
matches none e = true
matches (some s) e = same_status e.status s

abbrev pub created_before : Entry → Entry → Bool
created_before e f =
    ltb e.created_at f.created_at || (e.created_at == f.created_at && leb e.id f.id)

-- `sort(key=…, reverse=True)`, on entries with distinct ids
unfoldable pub newest : List Entry → List Entry
newest es = sort_by (λ e f. created_before f e) es

unfoldable pub list_for_org : ℕ → Option Status → ℕ → Outbox → List Entry
unfolding newest
list_for_org org status limit box =
    take limit (newest (filter (λ e. e.org_id == org && matches status e) (values box)))

unfoldable pub list_outstanding : ℕ → Option Status → ℕ → Outbox → List Entry
unfolding newest
list_outstanding org status limit box = take limit (
    newest (
      filter (λ e. e.org_id == org && matches status e && not (is_delivered e.status))
        (values box)))

-- `status_counts(org).get(status, 0)`
unfoldable pub status_count : ℕ → Status → Outbox → ℕ
status_count org status box =
    length (filter (λ e. e.org_id == org && same_status e.status status) (values box))

unfoldable pub pending_count : ℕ → Outbox → ℕ
unfolding status_count
pending_count org box = status_count org pending box

abbrev pub requeued : ℕ → Entry → Entry
requeued now e = record e {
  status = pending;
  attempts = 0;
  next_attempt_at = now;
  leased_until = none;
  updated_at = now;
}

abbrev pub requeue_found : Option Entry → ℕ → ℕ → Outbox → Option Entry × Outbox
requeue_found none id now box = (none, box)
requeue_found (some e) id now box =
    if is_abandoned e.status
    then (some (requeued now e), insert id (requeued now e) box)
    else (none, box)

unfoldable pub requeue : ℕ → ℕ → ℕ → Outbox → Option Entry × Outbox
unfolding get
requeue org id now box = requeue_found (get org id box) id now box

abbrev pub is_prunable : ℕ → Entry → Bool
is_prunable older_than e = is_delivered e.status && ltb e.updated_at older_than

abbrev pub erase_all : List Entry → Outbox → Outbox
erase_all [] box = box
erase_all (e ∷ es) box = erase_all es (erase e.id box)

-- The outbox without the doomed entries, and how many those were.
unfoldable pub prune_settled : ℕ → Outbox → ℕ × Outbox
prune_settled older_than box =
    let doomed = filter (is_prunable older_than) (values box) in
    (length doomed, erase_all doomed box)
