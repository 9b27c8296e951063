-- ===== src/Webhooks/Dispatcher/FanOut.antt =====
-- Whom webhooks/dispatcher.py reaches, and what it leaves in the outbox.
use agentforgev.Common.{
  ℕ, suc, ◌+◌, ◌≤◌, ◌≡◌, ◌≢◌, ◌∙◌, ◌↔◌, refl, sym, ap, String, true, false, Option, none, some,
  List, [], ◌∷◌, arith, ◌==◌, if◌then◌else◌, number_keys, length, All,
}
use agentforgev.Common.Dict.{lookup, values, lookup-insert_self, lookup-insert_ne}
use agentforgev.Common.Sort.{In, In-filter, In-of_filter, In-sort_by, In-of_sort_by}
use agentforgev.Common.Value.{Fields}
use agentforgev.Webhooks.Entry.{
  Entry, Event, run_completed, run_failed, document_ingested, guardrail_blocked,
  budget_threshold_crossed, ping, new_entry, pending,
}
use agentforgev.Webhooks.Outbox.{Outbox, enqueue}
use agentforgev.Webhooks.Subscriptions.{
  Subscription, Subscriptions, list_for_event, subscriptions_of_org, wants, older, place,
  names_event,
}
use agentforgev.Webhooks.Dispatcher.{
  failed_before_enqueue, scoped_key, entry_for, enqueue_each, dispatch,
}

-- The subscriptions found for an event are those of the organization that want it.
pub list_for_event_iff :
    (org : ℕ) (event : Event) (d : Subscriptions) (s : Subscription)
    → In s (list_for_event org event d)
      ↔ (In s (values d) × ((s.org_id == org) ≡ true) × (wants s event ≡ true))
unfolding list_for_event subscriptions_of_org
list_for_event_iff org event d s = (
  (λ m.
      let (found, w) = In-of_filter (λ x. wants x event) s _ m in
      let (v, o) =
        In-of_filter (λ x. x.org_id == org) s (values d) (In-of_sort_by older s _ found) in
      (v, o, w)),
  (λ (v, o, w).
      In-filter (λ x. wants x event) s _
        (In-sort_by older s _ (In-filter (λ x. x.org_id == org) s (values d) v o)) w),
)

-- The event of a place, to tell events apart by their places.
abbrev event_of : ℕ → Event
event_of n =
    if n == 0
    then run_completed
    else if n == 1
    then run_failed
    else if n == 2
    then document_ingested
    else if n == 3
    then guardrail_blocked
    else if n == 4
    then budget_threshold_crossed
    else ping

event_of-place : (e : Event) → event_of (place e) ≡ e
event_of-place run_completed = refl
event_of-place run_failed = refl
event_of-place document_ingested = refl
event_of-place guardrail_blocked = refl
event_of-place budget_threshold_crossed = refl
event_of-place ping = refl

same_event : (e f : Event) → ((place e == place f) ≡ true) ↔ (e ≡ f)
same_event e f = (
  (λ h.
      sym (event_of-place e)
      ∙ ap event_of ((number_keys.equals_iff (place e) (place f)).0 h)
      ∙ event_of-place f),
  (λ q. (number_keys.equals_iff (place e) (place f)).1 (ap place q)),
)

names_event_iff : (e : Event) (fs : List Event) → (names_event e fs ≡ true) ↔ In e fs
names_event_iff e [] = (λ h. cc, λ m. absurd m)
names_event_iff e (f ∷ fs) = ground (arith, same_event e f, names_event_iff e fs)

-- A subscription of the organization that is active and lists the event.
abbrev pub IsRecipient : ℕ → Event → Subscription → Type 0
IsRecipient org event s = (s.org_id ≡ org) × (s.active ≡ true) × In event s.events

IsRecipient-iff :
    (org : ℕ) (event : Event) (s : Subscription)
    → (((s.org_id == org) ≡ true) × (wants s event ≡ true)) ↔ IsRecipient org event s
unfolding wants
IsRecipient-iff org event s =
    ground (arith, number_keys.equals_iff s.org_id org, names_event_iff event s.events)

recipients_iff :
    (org : ℕ) (event : Event) (d : Subscriptions) (s : Subscription)
    → In s (list_for_event org event d) ↔ (In s (values d) × IsRecipient org event s)
recipients_iff org event d s =
    let (to, from) = list_for_event_iff org event d s in
    (
      (λ m.
          let (v, o, w) = to m in
          let (a, b, c) = (IsRecipient-iff org event s).0 (o, w) in (v, (a, b, c))),
      (λ (v, recipient). let (o, w) = (IsRecipient-iff org event s).1 recipient in from (v, o, w)),
    )

module _ (ids : ℕ → ℕ) (scoped : String → ℕ → String) (org : ℕ) (event : Event) (payload : Fields)
    (key : Option String) (now : ℕ) where
  -- The key of an entry names its subscription, where the event has a key.
  abbrev pub IsKeyFor : Option String → ℕ → Option String → Type 0
  IsKeyFor none sub k = k ≡ none
  IsKeyFor (some base) sub k = k ≡ some (scoped base sub)

  -- A new entry of the event for a subscription: pending, due at once, and never tried.
  pub record IsEntryFor (n : ℕ) (s : Subscription) (e : Entry) : Type 0 where
    pub of_id : e.id ≡ ids n
    pub of_org : e.org_id ≡ org
    pub of_subscription : e.subscription_id ≡ s.id
    pub of_event : e.event ≡ event
    pub of_payload : e.payload ≡ payload
    pub of_key : IsKeyFor key s.id e.idempotency_key
    pub is_new : e.status ≡ pending
    pub untried : e.attempts ≡ 0
    pub due_now : e.next_attempt_at ≡ now
    pub unleased : e.leased_until ≡ none

  scoped_key-IsKeyFor : (k : Option String) (sub : ℕ) → IsKeyFor k sub (scoped_key ids scoped k sub)
  scoped_key-IsKeyFor none sub = refl
  scoped_key-IsKeyFor (some base) sub = refl

  entry_for-IsEntryFor :
      (n : ℕ) (s : Subscription)
      → IsEntryFor n s (entry_for ids scoped org event payload key now n s)
  unfolding new_entry
  entry_for-IsEntryFor n s = record {
    of_id = refl;
    of_org = refl;
    of_subscription = refl;
    of_event = refl;
    of_payload = refl;
    of_key = scoped_key-IsKeyFor key s.id;
    is_new = refl;
    untried = refl;
    due_now = refl;
    unleased = refl;
  }

  -- One entry for each subscription, in their order.
  abbrev pub OneEach : ℕ → List Subscription → List Entry → Type 0
  OneEach n [] [] = Unit
  OneEach n [] (e ∷ es) = ⊥
  OneEach n (s ∷ ss) [] = ⊥
  OneEach n (s ∷ ss) (e ∷ es) = IsEntryFor n s e × OneEach (n + 1) ss es

  enqueue_each-OneEach :
      (n : ℕ) (subs : List Subscription) (box : Outbox)
      → OneEach n subs (enqueue_each ids scoped org event payload key now n subs box).0
  enqueue_each-OneEach n [] box = tt
  enqueue_each-OneEach n (s ∷ ss) box =
      (entry_for-IsEntryFor n s, enqueue_each-OneEach (n + 1) ss _)

  lookup-enqueue_each :
      (k n : ℕ) (subs : List Subscription) (box : Outbox)
      → ((i : ℕ) → n ≤ i → ids i ≢ k)
      → lookup k (enqueue_each ids scoped org event payload key now n subs box).1 ≡ lookup k box
  unfolding enqueue new_entry
  lookup-enqueue_each k n [] box h = refl
  lookup-enqueue_each k n (s ∷ ss) box h =
      lookup-enqueue_each k (n + 1) ss _ (λ i l. h i (omega arith))
      ∙ lookup-insert_ne (ids n) k _ box (h n (omega arith))

  module _ (distinct : (i j : ℕ) → ids i ≡ ids j → i ≡ j) where
    stored_each :
        (n : ℕ) (subs : List Subscription) (box : Outbox)
        → let (es, box') = enqueue_each ids scoped org event payload key now n subs box in
          All (λ e. lookup e.id box' ≡ some e) es
    unfolding enqueue new_entry
    stored_each n [] box = tt
    stored_each n (s ∷ ss) box = (
      lookup-enqueue_each (ids n) (n + 1) ss _ (λ i l e. let same = distinct i n e in omega arith)
          ∙ lookup-insert_self (ids n) _ box,
      stored_each (n + 1) ss _,
    )

    length-enqueue_each :
        (n : ℕ) (subs : List Subscription) (box : Outbox)
        → length (enqueue_each ids scoped org event payload key now n subs box).0 ≡ length subs
    length-enqueue_each n [] box = refl
    length-enqueue_each n (s ∷ ss) box = ap suc (length-enqueue_each (n + 1) ss _)

    -- If the new ids are distinct and not in use, dispatching an event enqueues one entry for each of the
    -- organization's active subscriptions that list it, and for no other. Each entry has the next new id, its
    -- subscription, the organization, the event and the payload, a key that names the subscription if the
    -- event has one, and is pending, due at once and never tried; it is in the outbox as it was reported. Every
    -- entry that was there is there as before, and nothing is reported as failed.
    pub dispatch_fans_out :
        (d : Subscriptions) (box : Outbox)
        → ((i : ℕ) → lookup (ids i) box ≡ none)
        → let (o, box') = dispatch ids scoped org event payload key now d box in
          OneEach 0 (list_for_event org event d) o.entries
          × ((s : Subscription)
              → In s (list_for_event org event d) ↔ (In s (values d) × IsRecipient org event s))
          × All (λ e. lookup e.id box' ≡ some e) o.entries
          × ((k : ℕ) (e : Entry) → lookup k box ≡ some e → lookup k box' ≡ some e)
          × (failed_before_enqueue o ≡ false)
    unfolding dispatch failed_before_enqueue
    dispatch_fans_out d box fresh =
        let subs = list_for_event org event d in
        (
          enqueue_each-OneEach 0 subs box,
          recipients_iff org event d,
          stored_each 0 subs box,
          (λ k e h.
              lookup-enqueue_each k 0 subs box
                (λ i l q. let n = fresh i in let m : lookup (ids i) box ≡ some e = rw q h in cc)
              ∙ h),
          ground (arith, length-enqueue_each 0 subs box),
        )
