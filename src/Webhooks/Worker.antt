-- ===== src/Webhooks/Worker.antt =====
-- `Webhook_Delivery_Worker.run_once` of webhooks/worker.py, over the in-memory stores, which do not raise.
-- The thread that polls is not modelled: a pass is one call of `run_once`.
pub mod Attempt
pub mod Sound
pub mod Outcomes
pub mod Calls
pub mod Keeps
pub mod Deleted
pub mod Histories
use agentforgev.Common.{
  ℕ, ◌+◌, ◌-◌, ◌*◌, ◌^◌, max, String, Bool, true, false, Option, none, some, List, [], ◌∷◌, leb,
  ltb, length, if◌then◌else◌,
}
use agentforgev.Webhooks.Entry.{Entry, second, next_attempt_delay}
use agentforgev.Webhooks.Outbox.{
  Outbox, claim_due, mark_delivered, reschedule, abandon, prune_settled,
}
use agentforgev.Webhooks.Subscriptions.{Subscription, Subscriptions, Delivery, get_subscription}
use agentforgev.Webhooks.Emitter.{Seams, deliver_once}

-- The arguments of the constructor; the backoff in microseconds.
pub record Configured : Type 0 where
  pub batch_size : ℕ
  pub max_attempts : ℕ
  pub backoff : ℕ

abbrev pub batch_size_of : Configured → ℕ
batch_size_of c = max 1 c.batch_size

abbrev pub max_attempts_of : Configured → ℕ
max_attempts_of c = max 1 c.max_attempts

abbrev pub backoff_of : Configured → ℕ
backoff_of c = max second c.backoff

-- The worker with the stores that it works on.
pub record System (W : Type 0) : Type 0 where
  pub subscriptions : Subscriptions
  pub outbox : Outbox
  pub log : List Delivery
  pub last_prune : Option ℕ
  pub world : W

abbrev pub hour : ℕ
hour = 3600 * second

abbrev pub settled_retention : ℕ
settled_retention = 604800 * second

module _ {W : Type 0} (seams : Seams W) (c : Configured) where
  -- A write to the outbox, which reads the clock for `updated_at`; the code reads it only for an entry
  -- that is there, and a reading more changes nothing but the clock.
  abbrev pub write : (ℕ → Outbox → Outbox) → System W → System W
  write f s = let (now, w) = seams.clock s.world in record s { outbox = f now s.outbox; world = w }

  abbrev pub later : ℕ → ℕ → ℕ
  later now attempts = now + next_attempt_delay attempts (backoff_of c)

  abbrev pub settle : Option Delivery → Entry → ℕ → System W → System W
  settle none e now s =
      write (abandon e.id (e.attempts + 1) (some "the payload could not be rendered")) s
  settle (some d) e now s =
      if d.delivered
      then write (mark_delivered e.id (e.attempts + 1)) s
      else if leb (max_attempts_of c) (e.attempts + 1)
      then write (abandon e.id (e.attempts + 1) d.error) s
      else write (reschedule e.id (e.attempts + 1) (later now (e.attempts + 1)) d.error) s

  abbrev pub attempt_for : Option Subscription → Entry → ℕ → System W → System W
  attempt_for none e now s =
      write (abandon e.id e.attempts (some "the subscription was deleted before delivery")) s
  attempt_for (some sub) e now s =
      if sub.active
      then (let (d, log, w) =
            deliver_once seams sub e.event e.payload e.id e.idempotency_key (e.attempts + 1) s.log
              s.world in
          settle d e now (record s { log = log; world = w }))
      else write
          (reschedule e.id e.attempts (later now (e.attempts + 1))
            (some "the subscription is paused"))
          s

  -- `_attempt`
  unfoldable pub attempt : Entry → ℕ → System W → System W
  unfolding get_subscription
  attempt e now s =
      attempt_for (get_subscription e.org_id e.subscription_id s.subscriptions) e now s

  abbrev pub attempt_all : List Entry → ℕ → System W → System W
  attempt_all [] now s = s
  attempt_all (e ∷ es) now s = attempt_all es now (attempt e now s)

  abbrev pub pruned_lately : Option ℕ → ℕ → Bool
  pruned_lately none now = false
  pruned_lately (some t) now = ltb now (t + hour)

  -- `_maybe_prune`; where `now - SETTLED_RETENTION` underflows, the code's handler keeps every entry, as
  -- a bound of 0 does.
  unfoldable pub maybe_prune : ℕ → System W → System W
  maybe_prune now s = if pruned_lately s.last_prune now then s else record s {
    last_prune = some now;
    outbox = (prune_settled (now - settled_retention) s.outbox).1;
  }

  -- One pass; returns how many entries were attempted.
  unfoldable pub run_once : System W → ℕ × System W
  unfolding maybe_prune
  run_once s =
      let (now, w) = seams.clock s.world in
      let (batch, box) = claim_due (batch_size_of c) now s.outbox in
      (length batch, maybe_prune now (attempt_all batch now (record s { outbox = box; world = w })))
