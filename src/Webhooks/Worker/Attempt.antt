-- ===== src/Webhooks/Worker/Attempt.antt =====
-- One attempt of webhooks/worker.py, as a write to the outbox and an addition to the log.
use agentforgev.Common.{
  ℕ, ◌+◌, ◌<◌, ◌≡◌, ◌⊎◌, inl, inr, refl, String, true, Option, none, some, List, [], ◌∷◌, ◌++◌,
  arith, leb, Bool-cases,
}
use agentforgev.Common.Sort.{In}
use agentforgev.Common.Value.{Fields}
use agentforgev.Webhooks.Entry.{Entry, Event, is_pending, is_delivered, delivered, abandoned}
use agentforgev.Webhooks.Outbox.{
  update_entry, settled, put_off, mark_delivered, reschedule, abandon,
}
use agentforgev.Webhooks.Subscriptions.{Subscription, Delivery, record_delivery, get_subscription}
use agentforgev.Webhooks.Emitter.{Seams, Request, render, send, deliver_once}
use agentforgev.Webhooks.Worker.{
  Configured, System, max_attempts_of, settle, attempt_for, attempt, later,
}

-- The log says that a request for the entry was delivered, at that attempt.
abbrev pub WasDelivered : ℕ → ℕ → List Delivery → Type 0
WasDelivered id attempts log =
    (d : Delivery) × In d log × (d.id ≡ id) × (d.delivered ≡ true) × (d.attempts ≡ attempts)

pub In-append : (d : Delivery) (xs ys : List Delivery) → In d xs → In d (xs ++ ys)
In-append d [] ys m = absurd m
In-append d (x ∷ xs) ys (inl e) = inl e
In-append d (x ∷ xs) ys (inr m) = inr (In-append d xs ys m)

In-append_last : (d : Delivery) (xs : List Delivery) → In d (xs ++ d ∷ [])
In-append_last d [] = inl refl
In-append_last d (x ∷ xs) = inr (In-append_last d xs)

-- A log that has at least the records of another.
abbrev pub Extends : List Delivery → List Delivery → Type 0
Extends log' log = (d : Delivery) → In d log → In d log'

-- What an attempt at `e` does to a system.
pub record Moves {W : Type 0} (c : Configured) (e : Entry) (s s' : System W) : Type 0 where
  pub write : Entry → Entry
  pub outbox_written : s'.outbox ≡ update_entry e.id write s.outbox
  pub keeps_id : (x : Entry) → (write x).id ≡ x.id
  pub log_extends : Extends s'.log s.log
  pub may_retry :
      (x : Entry) → is_pending (write x).status ≡ true → (write x).attempts < max_attempts_of c
  pub is_logged :
      (x : Entry)
      → is_delivered (write x).status ≡ true
      → WasDelivered e.id (write x).attempts s'.log

module _ {W : Type 0} (seams : Seams W) where
  send-cases :
      (o : Option Request) (sub : Subscription) (event : Event) (id n : ℕ) (log : List Delivery)
      (w : W)
      → let (d, log', w') = send seams o sub event id n log w in
        ((d ≡ none) × (log' ≡ log))
        ⊎ ((x : Delivery) × (d ≡ some x) × (log' ≡ log ++ x ∷ []) × (x.id ≡ id) × (x.attempts ≡ n))
  unfolding record_delivery
  send-cases none sub event id n log w = inl (refl, refl)
  send-cases (some r) sub event id n log w = inr (_, refl, refl, refl, refl)

  -- An attempt at delivery adds its record to the log, and nothing when the payload cannot be rendered.
  pub deliver_once-cases :
      (sub : Subscription) (event : Event) (p : Fields) (id : ℕ) (key : Option String) (n : ℕ)
      (log : List Delivery) (w : W)
      → let (d, log', w') = deliver_once seams sub event p id key n log w in
        ((d ≡ none) × (log' ≡ log))
        ⊎ ((x : Delivery) × (d ≡ some x) × (log' ≡ log ++ x ∷ []) × (x.id ≡ id) × (x.attempts ≡ n))
  unfolding deliver_once
  deliver_once-cases sub event p id key n log w =
      let (r, w') = render seams sub event p id key n w in send-cases r sub event id n log w'

module _ {W : Type 0} (seams : Seams W) (c : Configured) (e : Entry) (now : ℕ)
    (few : e.attempts < max_attempts_of c) where
  -- What settles an entry, given the log from which the attempt started.
  settle-Moves :
      (d : Option Delivery) (s s0 : System W)
      → s.outbox ≡ s0.outbox
      → Extends s.log s0.log
      → ((x : Delivery) → d ≡ some x → In x s.log × (x.id ≡ e.id) × (x.attempts ≡ e.attempts + 1))
      → Moves c e s0 (settle seams c d e now s)
  unfolding mark_delivered reschedule abandon
  settle-Moves none s s0 q l h = record {
    write =
        settled abandoned (e.attempts + 1) (some "the payload could not be rendered")
          (seams.clock s.world).0;
    outbox_written = rw q refl;
    keeps_id = λ x. refl;
    log_extends = l;
    may_retry = λ x p. cc;
    is_logged = λ x p. cc;
  }
  settle-Moves (some d) s s0 q l h = elim (Bool-cases d.delivered) [
    | inl ok ↦ rw ok (record {
      write = settled delivered (e.attempts + 1) none (seams.clock s.world).0;
      outbox_written = rw q refl;
      keeps_id = λ x. refl;
      log_extends = l;
      may_retry = λ x p. cc;
      is_logged = λ x p. let (m, i, n) = h d refl in (d, m, i, ok, n);
    })
    | inr bad ↦ elim (Bool-cases (leb (max_attempts_of c) (e.attempts + 1))) [
      | inl last ↦ rw bad (
          rw last (record {
            write = settled abandoned (e.attempts + 1) d.error (seams.clock s.world).0;
            outbox_written = rw q refl;
            keeps_id = λ x. refl;
            log_extends = l;
            may_retry = λ x p. cc;
            is_logged = λ x p. cc;
          }))
      | inr more ↦ rw bad (
          rw more (record {
            write =
                put_off (e.attempts + 1) (later seams c now (e.attempts + 1)) d.error
                  (seams.clock s.world).0;
            outbox_written = rw q refl;
            keeps_id = λ x. refl;
            log_extends = l;
            may_retry = λ x p. ground arith;
            is_logged = λ x p. cc;
          }))
    ]
  ]

  delivery-Moves :
      (sub : Subscription) (s : System W)
      → let (d, log, w) =
          deliver_once seams sub e.event e.payload e.id e.idempotency_key
            (e.attempts + 1)
            s.log
            s.world in
        Moves c e s (settle seams c d e now (record s { log = log; world = w }))
  delivery-Moves sub s =
      let r =
        deliver_once seams sub e.event e.payload e.id e.idempotency_key (e.attempts + 1) s.log
          s.world in
      let cases =
        deliver_once-cases seams sub e.event e.payload e.id e.idempotency_key (e.attempts + 1) s.log
          s.world in
      elim cases [
        | inl (n, l) ↦
            settle-Moves r.0 (record s { log = r.1; world = r.2 }) s refl (λ x m. rw l m)
              (λ x q. cc)
        | inr (d, q, l, i, k) ↦
            settle-Moves r.0 (record s { log = r.1; world = r.2 }) s refl
              (λ x m. rw l (In-append x s.log (d ∷ []) m))
              (λ x p. let same : d ≡ x = cc in rw (← same) (rw l (In-append_last d s.log), i, k))
      ]

  attempt_for-Moves :
      (o : Option Subscription) (s : System W) → Moves c e s (attempt_for seams c o e now s)
  unfolding abandon reschedule
  attempt_for-Moves none s = record {
    write =
        settled abandoned e.attempts (some "the subscription was deleted before delivery")
          (seams.clock s.world).0;
    outbox_written = refl;
    keeps_id = λ x. refl;
    log_extends = λ x m. m;
    may_retry = λ x p. cc;
    is_logged = λ x p. cc;
  }
  attempt_for-Moves (some sub) s = elim (Bool-cases sub.active) [
    | inl on ↦ simp on (delivery-Moves sub s)
    | inr off ↦ rw off (record {
      write =
          put_off e.attempts (later seams c now (e.attempts + 1))
            (some "the subscription is paused") (seams.clock s.world).0;
      outbox_written = refl;
      keeps_id = λ x. refl;
      log_extends = λ x m. m;
      may_retry = λ x p. few;
      is_logged = λ x p. cc;
    })
  ]

  -- An attempt at an entry with attempts left writes to that entry alone: it is left pending only with
  -- attempts left, and marked as delivered only with a record of the delivery.
  pub attempt-Moves : (s : System W) → Moves c e s (attempt seams c e now s)
  unfolding attempt
  attempt-Moves s =
      attempt_for-Moves (get_subscription e.org_id e.subscription_id s.subscriptions) s
