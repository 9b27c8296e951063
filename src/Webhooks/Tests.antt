-- ===== src/Webhooks/Tests.antt =====
-- Concrete outboxes and a concrete platform around webhooks/: a clock that ticks by a second, and a
-- transport that reports what the state says.
use agentforgev.Common.{
  min, ◌*◌, false, ◌↔◌, ℕ, ◌+◌, ◌≡◌, ◌≢◌, ◌⊎◌, refl, Bool, true, none, some, List, [], ◌∷◌, ◌++◌,
  arith, number_keys, length, All, ltb,
}
use agentforgev.Common.Dict.{lookup}
use agentforgev.Common.Sort.{In}
use agentforgev.Common.Value.{end}
use agentforgev.Webhooks.Entry.{
  abandoned, next_attempt_delay, Entry, run_completed, pending, delivered, is_due, due_before,
  leased, is_delivered,
}
use agentforgev.Webhooks.Outbox.{Outbox, claim_due, prune_settled, due_entries}
use agentforgev.Webhooks.Outbox.Keyed.{IsKeyed}
use agentforgev.Webhooks.Outbox.Claims.{claim_due_complete, claim_due_exclusive}
use agentforgev.Webhooks.Outbox.Writes.{prune_settled_only}
use agentforgev.Webhooks.Subscriptions.{get_subscription, list_for_event, Subscription}
use agentforgev.Webhooks.Emitter.{Seams, returns}
use agentforgev.Webhooks.Outbox.Requeue.{next_attempt_delay_doubles}
use agentforgev.Webhooks.Worker.Outcomes.{Outcome, attempt_outcome}
use agentforgev.Webhooks.Dispatcher.{dispatch, failed_before_enqueue}
use agentforgev.Webhooks.Dispatcher.FanOut.{OneEach, IsRecipient, dispatch_fans_out}
use agentforgev.Webhooks.Worker.{attempt, Configured, System}
use agentforgev.Webhooks.Worker.Sound.{IsSound, IsKept}
use agentforgev.Webhooks.Worker.Calls.{
  Call, pass_call, enqueue_call, requeue_call, delete_call, test_call, call_each, DeletesIn,
}
use agentforgev.Webhooks.Worker.Histories.{call_each-IsSound, enqueued-IsKept}

abbrev entry : ℕ → ℕ → Entry
entry id due = record {
  id = id;
  org_id = 1;
  subscription_id = 5;
  event = run_completed;
  payload = end;
  idempotency_key = none;
  status = pending;
  attempts = 0;
  next_attempt_at = due;
  leased_until = none;
  last_error = none;
  created_at = 0;
  updated_at = 0;
}

abbrev old_entry : Entry
old_entry = record (entry 9 0) { status = delivered; attempts = 1 }

abbrev box : Outbox
box = (7, entry 7 20) ∷ (8, entry 8 10) ∷ (9, old_entry) ∷ []

box-IsKeyed : IsKeyed box
box-IsKeyed = (refl, refl, (refl, refl, (refl, refl, tt)))

claims : (claim_due 1 30 box).0 ≡ leased 30 (entry 8 10) ∷ []
unfolding claim_due due_entries
claims = refl

entry-is_due : is_due 30 (entry 7 20) ≡ true
unfolding is_due
entry-is_due = refl

claim_due_complete_example :
    In (leased 30 (entry 7 20)) (claim_due 1 30 box).0
    ⊎ ((length (claim_due 1 30 box).0 ≡ 1)
        × All (λ y. due_before y (entry 7 20) ≡ true) (claim_due 1 30 box).0)
claim_due_complete_example = claim_due_complete 1 30 box box-IsKeyed (entry 7 20) refl entry-is_due

claim_due_exclusive_example :
    All
      (λ y. All (λ x. x.id ≢ y.id) (claim_due 1 30 box).0)
      (claim_due 5 40 (claim_due 1 30 box).1).0
claim_due_exclusive_example = claim_due_exclusive 1 5 30 40 box box-IsKeyed (omega arith)

prune_settled_only_example :
    ((y : Entry) → lookup 9 (prune_settled 50 box).1 ≡ some y → lookup 9 box ≡ some y)
    × ((x : Entry)
        → lookup 9 box ≡ some x
        → (lookup 9 (prune_settled 50 box).1 ≡ some x)
          ⊎ ((is_delivered x.status ≡ true) × (ltb x.updated_at 50 ≡ true)))
prune_settled_only_example = prune_settled_only 50 9 box box-IsKeyed

-- The state: the time in seconds, and whether the endpoint answers.
abbrev seams : Seams (ℕ × Bool)
seams = record {
  clock = λ w. (w.0, (w.0 + 1, w.1));
  monotonic = λ w. (w.0, w);
  dumps = λ e. some "{}";
  hmac = λ secret moment body. "digest";
  post = λ url request w.
      (returns (record { delivered = w.1; response_status = none; error = none }), w);
  transport_error = λ name. name;
}

abbrev configured : Configured
configured = record { batch_size = 20; max_attempts = 8; backoff = 60000000 }

abbrev subscription : Subscription
subscription = record {
  id = 5;
  org_id = 1;
  url = "https://example.com";
  secret = "secret";
  events = run_completed ∷ [];
  description = none;
  active = true;
  created_at = 0;
  updated_at = 0;
}

abbrev idle : System (ℕ × Bool)
idle = record {
  subscriptions = (5, subscription) ∷ [];
  outbox = [];
  log = [];
  last_prune = none;
  world = (100, true);
}

idle-IsSound : IsSound (λ k n. ⊥) configured idle
idle-IsSound = record { keyed = tt; retriable = λ k e h p. cc; logged = λ k e h p. cc }

abbrev calls : List Call
calls =
    enqueue_call 7 1 5 run_completed end none 50
    ∷ pass_call
    ∷ requeue_call 1 7 90
    ∷ test_call 4 1 5 end
    ∷ delete_call 1 5
    ∷ []

call_each-IsSound_example :
    IsSound
      (DeletesIn seams configured calls idle)
      configured
      (call_each seams configured calls idle)
call_each-IsSound_example = call_each-IsSound seams configured calls idle idle-IsSound

abbrev history : List Call
history = calls ++ enqueue_call 8 1 5 run_completed end none 60 ∷ calls

enqueued-IsKept_example :
    IsKept (DeletesIn seams configured history idle) 8 (call_each seams configured history idle)
enqueued-IsKept_example =
    enqueued-IsKept seams configured calls calls idle idle-IsSound 8 1 5 run_completed end none 60

abbrev ids : ℕ → ℕ
ids n = n + 100

ids-fresh : (i : ℕ) → lookup (ids i) box ≡ none
ids-fresh i = ground arith

dispatch_fans_out_example :
    let (o, box') =
      dispatch ids (λ k i. k) 1 run_completed end none 50 ((5, subscription) ∷ []) box in
    OneEach ids
      (λ k i. k)
      1
      run_completed
      end
      none
      50
      0
      (list_for_event 1 run_completed ((5, subscription) ∷ []))
      o.entries
    × ((s : Subscription)
        → In s (list_for_event 1 run_completed ((5, subscription) ∷ []))
          ↔ (In s (subscription ∷ []) × IsRecipient 1 run_completed s))
    × All (λ e. lookup e.id box' ≡ some e) o.entries
    × ((k : ℕ) (e : Entry) → lookup k box ≡ some e → lookup k box' ≡ some e)
    × (failed_before_enqueue o ≡ false)
dispatch_fans_out_example =
    dispatch_fans_out ids (λ k i. k) 1 run_completed end none 50 (λ i j e. omega arith)
      ((5, subscription) ∷ []) box ids-fresh

abbrev given_up : Outbox
given_up = (7, record (entry 7 20) { status = abandoned; attempts = 8 }) ∷ []

next_attempt_delay_doubles_example :
    (next_attempt_delay 1 60000000 ≡ min 60000000 21600000000)
    × (next_attempt_delay 5 60000000 ≡ min (2 * next_attempt_delay 4 60000000) 21600000000)
next_attempt_delay_doubles_example = next_attempt_delay_doubles 60000000 3

abbrev busy : System (ℕ × Bool)
busy = record idle { outbox = box; world = (100, false) }

attempt_outcome_example :
    Outcome seams configured
      (entry 7 20)
      30
      busy
      (attempt seams configured (entry 7 20) 30 busy)
      (get_subscription 1 5 busy.subscriptions)
attempt_outcome_example = attempt_outcome seams configured (entry 7 20) 30 busy refl
