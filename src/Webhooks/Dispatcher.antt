-- ===== src/Webhooks/Dispatcher.antt =====
-- webhooks/dispatcher.py, over the in-memory stores, which do not raise. `ids` gives the id that `uuid4`
-- makes for the n-th entry, and `scoped` the text of a key and a subscription's id, joined by a colon.
pub mod FanOut
use agentforgev.Common.{
  ℕ, ◌+◌, String, Bool, false, Option, none, some, List, [], ◌∷◌, ltb, ◌||◌, length,
}
use agentforgev.Common.Value.{Fields}
use agentforgev.Webhooks.Entry.{Entry, Event, new_entry}
use agentforgev.Webhooks.Outbox.{Outbox, enqueue}
use agentforgev.Webhooks.Subscriptions.{Subscription, Subscriptions, list_for_event}

pub record DispatchOutcome : Type 0 where
  pub entries : List Entry
  pub considered : ℕ
  pub lookup_failed : Bool

-- `failed_before_enqueue`
unfoldable pub failed_before_enqueue : DispatchOutcome → Bool
failed_before_enqueue o = o.lookup_failed || ltb (length o.entries) o.considered

module _ (ids : ℕ → ℕ) (scoped : String → ℕ → String) where
  abbrev pub scoped_key : Option String → ℕ → Option String
  scoped_key none sub = none
  scoped_key (some k) sub = some (scoped k sub)

  abbrev pub entry_for : ℕ → Event → Fields → Option String → ℕ → ℕ → Subscription → Entry
  entry_for org event payload key now n sub =
      new_entry (ids n) org sub.id event payload (scoped_key key sub.id) now

  -- The loop over the subscriptions, from the n-th on.
  abbrev pub enqueue_each :
      ℕ → Event → Fields → Option String → ℕ → ℕ → List Subscription → Outbox → List Entry × Outbox
  enqueue_each org event payload key now n [] box = ([], box)
  enqueue_each org event payload key now n (sub ∷ subs) box =
      let e = entry_for org event payload key now n sub in
      let (es, box') = enqueue_each org event payload key now (n + 1) subs (enqueue e box) in
      (e ∷ es, box')

  unfoldable pub dispatch :
      ℕ → Event → Fields → Option String → ℕ → Subscriptions → Outbox → DispatchOutcome × Outbox
  dispatch org event payload key now d box =
      let subs = list_for_event org event d in
      let (es, box') = enqueue_each org event payload key now 0 subs box in
      (record { entries = es; considered = length subs; lookup_failed = false }, box')
