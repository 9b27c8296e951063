-- ===== src/Webhooks/Worker/Calls.antt =====
-- Passes of webhooks/worker.py, and what the rest of the platform does to its stores between them.
use agentforgev.Common.{ℕ, ◌≡◌, ◌≢◌, ◌⊎◌, String, Bool, true, Option, none, some, List, [], ◌∷◌}
use agentforgev.Common.Sort.{In}
use agentforgev.Common.Value.{Fields}
use agentforgev.Webhooks.Entry.{Event, new_entry}
use agentforgev.Webhooks.Outbox.{enqueue, requeue}
use agentforgev.Webhooks.Subscriptions.{
  Subscription, Delivery, Changes, get_subscription, create_subscription, update_subscription,
  delete_subscription,
}
use agentforgev.Webhooks.Emitter.{Seams, send_test}
use agentforgev.Webhooks.Worker.{Configured, System, run_once}

-- A pass of the worker; the enqueueing of an event; a requeue by an operator; the creation, the change and the
-- deletion of a subscription; and a test delivery to one.
pub data Call : Type 0 where
  pass_call : Call
  enqueue_call : (id org sub : ℕ) → Event → Fields → Option String → (now : ℕ) → Call
  requeue_call : (org id now : ℕ) → Call
  create_call :
      (id org : ℕ) → (url secret : String) → List Event → Option String → Bool → (now : ℕ) → Call
  update_call : (org id : ℕ) → Changes → (now : ℕ) → Call
  delete_call : (org id : ℕ) → Call
  test_call : (id org sub : ℕ) → Fields → Call

module _ {W : Type 0} (seams : Seams W) (c : Configured) where
  abbrev pub test_found : ℕ → Fields → Option Subscription → System W → System W
  test_found id payload none s = s
  test_found id payload (some sub) s =
      let (_, log, w) = send_test seams id sub payload s.log s.world in
      record s { log = log; world = w }

  abbrev pub call : Call → System W → System W
  call pass_call s = (run_once seams c s).1
  call (enqueue_call id org sub event p key now) s = record s {
    outbox = enqueue (new_entry id org sub event p key now) s.outbox;
  }
  call (requeue_call org id now) s = record s { outbox = (requeue org id now s.outbox).1 }
  call (create_call id org url secret events description active now) s = record s {
    subscriptions =
        (create_subscription id org url secret events description active now s.subscriptions).1;
  }
  call (update_call org id changes now) s = record s {
    subscriptions = (update_subscription org id changes now s.subscriptions).1;
  }
  call (delete_call org id) s =
      let deleted = delete_subscription org id s.subscriptions s.log in
      record s { subscriptions = deleted.1; log = deleted.2 }
  call (test_call id org sub payload) s =
      test_found id payload (get_subscription org sub s.subscriptions) s

  abbrev pub call_each : List Call → System W → System W
  call_each [] s = s
  call_each (x ∷ xs) s = call_each xs (call x s)

  -- A deletion of a subscription in whose log a delivery of the entry `k` stood, made at its `n`-th attempt.
  abbrev pub Deletes : ℕ → ℕ → Call → System W → Type 0
  Deletes k n (delete_call org id) s =
      (d : Delivery) × (get_subscription org id s.subscriptions ≢ none)
      × In d s.log
      × (d.org_id ≡ org)
      × (d.subscription_id ≡ id)
      × (d.id ≡ k)
      × (d.delivered ≡ true)
      × (d.attempts ≡ n)
  Deletes k n pass_call s = ⊥
  Deletes k n (enqueue_call id org sub event p key now) s = ⊥
  Deletes k n (requeue_call org id now) s = ⊥
  Deletes k n (create_call id org url secret events description active now) s = ⊥
  Deletes k n (update_call org id changes now) s = ⊥
  Deletes k n (test_call id org sub payload) s = ⊥

  -- One of the calls is such a deletion.
  abbrev pub DeletesIn : List Call → System W → ℕ → ℕ → Type 0
  DeletesIn [] s k n = ⊥
  DeletesIn (x ∷ xs) s k n = Deletes k n x s ⊎ DeletesIn xs (call x s) k n
