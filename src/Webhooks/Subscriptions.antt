-- ===== src/Webhooks/Subscriptions.antt =====
-- The subscriptions of webhooks/base.py, and the in-memory stores of webhooks/store.py: the
-- subscriptions by id, and the delivery log in the order of recording.
use agentforgev.Common.{
  ℕ, ◌-◌, String, Bool, true, false, Option, none, some, List, [], ◌∷◌, ◌++◌, ◌&&◌, ◌||◌, not, leb,
  ltb, ◌==◌, number_keys, length, filter, take, if◌then◌else◌,
}
use agentforgev.Common.Dict.{Dict, lookup, insert, erase, values}
use agentforgev.Common.Sort.{sort_by}
use agentforgev.Webhooks.Entry.{
  Event, run_completed, run_failed, document_ingested, guardrail_blocked, budget_threshold_crossed,
  ping,
}

pub record Subscription : Type 0 where
  pub id : ℕ
  pub org_id : ℕ
  pub url : String
  pub secret : String
  pub events : List Event
  pub description : Option String
  pub active : Bool
  pub created_at : ℕ
  pub updated_at : ℕ

pub record Delivery : Type 0 where
  pub id : ℕ
  pub org_id : ℕ
  pub subscription_id : ℕ
  pub event : Event
  -- whether the status is `delivered`, and not `failed`
  pub delivered : Bool
  pub attempts : ℕ
  pub response_status : Option ℕ
  pub error : Option String
  pub duration_ms : ℕ
  pub created_at : ℕ

-- Events by their place in the enumeration, to compare them.
abbrev pub place : Event → ℕ
place run_completed = 0
place run_failed = 1
place document_ingested = 2
place guardrail_blocked = 3
place budget_threshold_crossed = 4
place ping = 5

abbrev pub names_event : Event → List Event → Bool
names_event e [] = false
names_event e (f ∷ fs) = place e == place f || names_event e fs

unfoldable pub wants : Subscription → Event → Bool
wants s e = s.active && names_event e s.events

abbrev pub Subscriptions : Type 0
Subscriptions = Dict ℕ Subscription

-- The key `(created_at, str(id))`.
abbrev pub older : Subscription → Subscription → Bool
older s t = ltb s.created_at t.created_at || (s.created_at == t.created_at && leb s.id t.id)

unfoldable pub subscriptions_of_org : ℕ → Subscriptions → List Subscription
subscriptions_of_org org d = sort_by older (filter (λ s. s.org_id == org) (values d))

unfoldable pub list_for_event : ℕ → Event → Subscriptions → List Subscription
unfolding subscriptions_of_org
list_for_event org e d = filter (λ s. wants s e) (subscriptions_of_org org d)

abbrev pub if_of_org : ℕ → Option Subscription → Option Subscription
if_of_org org none = none
if_of_org org (some s) = if s.org_id == org then some s else none

unfoldable pub get_subscription : ℕ → ℕ → Subscriptions → Option Subscription
get_subscription org id d = if_of_org org (lookup id d)

unfoldable pub count_for_org : ℕ → Subscriptions → ℕ
unfolding subscriptions_of_org
count_for_org org d = length (subscriptions_of_org org d)

-- `id` is what `uuid4` returns.
unfoldable pub create_subscription :
    ℕ
    → ℕ
    → String
    → String
    → List Event
    → Option String
    → Bool
    → ℕ
    → Subscriptions
    → Subscription × Subscriptions
create_subscription id org url secret events description active now d =
    let s : Subscription = record {
      id = id;
      org_id = org;
      url = url;
      secret = secret;
      events = events;
      description = description;
      active = active;
      created_at = now;
      updated_at = now;
    } in
    (s, insert id s d)

-- A value that was passed, or `UNSET`.
abbrev pub or_old {ℓ} : {A : Type ℓ} → Option A → A → A
or_old none old = old
or_old (some new) old = new

-- The fields passed to `update`.
pub record Changes : Type 0 where
  pub url : Option String
  pub events : Option (List Event)
  pub description : Option (Option String)
  pub active : Option Bool

abbrev pub changed : Changes → ℕ → Subscription → Subscription
changed c now s = record s {
  url = or_old c.url s.url;
  events = or_old c.events s.events;
  description = or_old c.description s.description;
  active = or_old c.active s.active;
  updated_at = now;
}

abbrev pub update_found :
    Option Subscription → ℕ → Changes → ℕ → Subscriptions → Option Subscription × Subscriptions
update_found none id c now d = (none, d)
update_found (some s) id c now d = (some (changed c now s), insert id (changed c now s) d)

unfoldable pub update_subscription :
    ℕ → ℕ → Changes → ℕ → Subscriptions → Option Subscription × Subscriptions
unfolding get_subscription
update_subscription org id c now d = update_found (get_subscription org id d) id c now d

-- `InMemory_Webhook_Delivery_Store.record`
unfoldable pub record_delivery : Delivery → List Delivery → List Delivery
record_delivery x log = log ++ x ∷ []

abbrev pub is_of : ℕ → ℕ → Delivery → Bool
is_of org sub x = x.org_id == org && x.subscription_id == sub

-- The rest of the log, and how many entries it lost.
unfoldable pub drop_for_subscription : ℕ → ℕ → List Delivery → ℕ × List Delivery
drop_for_subscription org sub log =
    let keep = filter (λ x. not (is_of org sub x)) log in (length log - length keep, keep)

-- `(created_at, str(id)) < before`
abbrev pub is_before : Option (ℕ × ℕ) → Delivery → Bool
is_before none x = true
is_before (some (t, id)) x = ltb x.created_at t || (x.created_at == t && ltb x.id id)

-- The key of the log's pages, newest first.
abbrev pub no_older : Delivery → Delivery → Bool
no_older x y = ltb y.created_at x.created_at || (y.created_at == x.created_at && leb y.id x.id)

unfoldable pub list_for_subscription : ℕ → ℕ → Option (ℕ × ℕ) → ℕ → List Delivery → List Delivery
list_for_subscription org sub before limit log =
    take limit (sort_by no_older (filter (λ x. is_of org sub x && is_before before x) log))

abbrev pub delete_found :
    Option Subscription
    → ℕ
    → ℕ
    → Subscriptions
    → List Delivery
    → Bool × Subscriptions × List Delivery
delete_found none org id d log = (false, d, log)
delete_found (some s) org id d log = (true, erase id d, (drop_for_subscription org id log).1)

-- `delete`, of a store that was given the delivery log.
unfoldable pub delete_subscription :
    ℕ → ℕ → Subscriptions → List Delivery → Bool × Subscriptions × List Delivery
unfolding get_subscription drop_for_subscription
delete_subscription org id d log = delete_found (get_subscription org id d) org id d log
