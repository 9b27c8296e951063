-- ===== src/Webhooks/Entry.antt =====
-- webhooks/base.py and the entries of webhooks/outbox.py. A `UUID` is its 128-bit number: the text of a
-- UUID has a fixed width, so texts and numbers are ordered alike. A `datetime` is the number of
-- microseconds since `datetime.min`, a `timedelta` a number of microseconds.
use agentforgev.Common.{
  ℕ, ◌+◌, ◌-◌, ◌*◌, ◌^◌, min, String, Bool, true, false, Option, none, some, ◌&&◌, ◌||◌, leb, ltb,
  ◌==◌, number_keys,
}
use agentforgev.Common.Value.{Fields}

pub data Event : Type 0 where
  run_completed run_failed document_ingested guardrail_blocked budget_threshold_crossed ping : Event

pub data Status : Type 0 where
  pending delivered abandoned : Status

pub record Entry : Type 0 where
  pub id : ℕ
  pub org_id : ℕ
  pub subscription_id : ℕ
  pub event : Event
  pub payload : Fields
  pub idempotency_key : Option String
  pub status : Status
  pub attempts : ℕ
  pub next_attempt_at : ℕ
  pub leased_until : Option ℕ
  pub last_error : Option String
  pub created_at : ℕ
  pub updated_at : ℕ

-- `Outbox_Entry.new`; `id` is what `uuid4` returns.
unfoldable pub new_entry : ℕ → ℕ → ℕ → Event → Fields → Option String → ℕ → Entry
new_entry id org_id subscription_id event payload key moment = record {
  id = id;
  org_id = org_id;
  subscription_id = subscription_id;
  event = event;
  payload = payload;
  idempotency_key = key;
  status = pending;
  attempts = 0;
  next_attempt_at = moment;
  leased_until = none;
  last_error = none;
  created_at = moment;
  updated_at = moment;
}

abbrev pub second : ℕ
second = 1000000

abbrev pub max_attempt_delay : ℕ
max_attempt_delay = 21600 * second

abbrev pub lease : ℕ
lease = 120 * second

-- `next_attempt_delay`, with the base in microseconds; `attempts - 1` stops at 0, as the code's `max`.
unfoldable pub next_attempt_delay : ℕ → ℕ → ℕ
next_attempt_delay attempts base = min (base * 2 ^ (attempts - 1)) max_attempt_delay

abbrev pub is_pending : Status → Bool
is_pending pending = true
is_pending _ = false

abbrev pub is_delivered : Status → Bool
is_delivered delivered = true
is_delivered _ = false

abbrev pub is_abandoned : Status → Bool
is_abandoned abandoned = true
is_abandoned _ = false

abbrev pub same_status : Status → Status → Bool
same_status pending s = is_pending s
same_status delivered s = is_delivered s
same_status abandoned s = is_abandoned s

-- No lease, or one that has run out.
abbrev pub is_free : Option ℕ → ℕ → Bool
is_free none now = true
is_free (some t) now = leb t now

unfoldable pub is_due : ℕ → Entry → Bool
is_due now e = is_pending e.status && leb e.next_attempt_at now && is_free e.leased_until now

-- The key `(next_attempt_at, str(id))`.
unfoldable pub due_before : Entry → Entry → Bool
due_before e f =
    ltb e.next_attempt_at f.next_attempt_at
    || (e.next_attempt_at == f.next_attempt_at && leb e.id f.id)

abbrev pub leased : ℕ → Entry → Entry
leased now e = record e { leased_until = some (now + lease); updated_at = now }
