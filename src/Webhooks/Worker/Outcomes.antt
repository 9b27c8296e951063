-- ===== src/Webhooks/Worker/Outcomes.antt =====
-- The branches of `_attempt` of webhooks/worker.py, at an entry of the outbox.
use agentforgev.Common.{
  ℕ, number_keys, ◌+◌, ◌≤◌, ◌<◌, ◌≡◌, ◌⊎◌, ◌∙◌, String, inl, inr, refl, ap, Bool, true, false,
  Option, none, some, List, [], ◌∷◌, ◌++◌, arith, leb, Bool-cases,
}
use agentforgev.Common.Dict.{lookup}
use agentforgev.Webhooks.Entry.{Entry, pending, delivered, abandoned, next_attempt_delay}
use agentforgev.Webhooks.Outbox.{mark_delivered, reschedule, abandon}
use agentforgev.Webhooks.Outbox.Writes.{lookup-update_entry_self}
use agentforgev.Webhooks.Subscriptions.{Subscription, Delivery, get_subscription, record_delivery}
use agentforgev.Webhooks.Emitter.{
  Seams, Request, PostOutcome, returns, raises, sign_payload, render_body, render, result_of,
  post_once, send, deliver_once,
}
use agentforgev.Webhooks.Worker.{
  Configured, System, max_attempts_of, backoff_of, settle, attempt_for, attempt,
}

-- What `post` reports, as the record of a delivery says it.
abbrev pub IsReported : {W : Type 0} → Seams W → PostOutcome → Delivery → Type 0
IsReported seams (returns r) d =
    (d.delivered ≡ r.delivered) × (d.response_status ≡ r.response_status) × (d.error ≡ r.error)
IsReported seams (raises name) d =
    (d.delivered ≡ false)
    × (d.response_status ≡ none)
    × (d.error ≡ some (seams.transport_error name))

module _ {W : Type 0} (seams : Seams W) (c : Configured) (e : Entry) (now : ℕ)
    (s s' : System W) where
  -- When the next attempt is due, as the schedule says for one attempt more.
  abbrev pub next_due : ℕ
  next_due = now + next_attempt_delay (e.attempts + 1) (backoff_of c)

  -- Nothing was sent, and the attempt does not count.
  abbrev pub Unsent : Option Subscription → Entry → Type 0
  Unsent none x = (s'.log ≡ s.log) × (x.status ≡ abandoned) × (x.attempts ≡ e.attempts)
  Unsent (some sub) x =
      (sub.active ≡ false)
      × (s'.log ≡ s.log)
      × (x.status ≡ pending)
      × (x.attempts ≡ e.attempts)
      × (x.next_attempt_at ≡ next_due)

  -- What `json.dumps` makes of the event for a subscription.
  abbrev pub dumped : Subscription → Option String
  dumped sub = seams.dumps record {
    id = e.id;
    event = e.event;
    created_at = (seams.clock s.world).0;
    org_id = sub.org_id;
    idempotency_key = e.idempotency_key;
    payload = e.payload;
  }

  -- The record is that of a request that was posted to the subscription, signed with its secret.
  abbrev pub IsPosted : Subscription → String → Delivery → Type 0
  IsPosted sub body d =
      (request : Request) × (w : W) × (request.body ≡ body)
      × (request.signature_header.digest
          ≡ seams.hmac sub.secret request.signature_header.moment body)
      × (request.delivery_header ≡ e.id)
      × (request.subscription_header ≡ sub.id)
      × (request.attempt_header ≡ e.attempts + 1)
      × IsReported seams (seams.post sub.url request w).0 d

  -- A request was made and logged.
  abbrev pub Sent : Delivery → Entry → Type 0
  Sent d x =
      (s'.log ≡ s.log ++ d ∷ [])
      × (d.id ≡ e.id)
      × (d.attempts ≡ e.attempts + 1)
      × (((d.delivered ≡ true) × (x.status ≡ delivered))
          ⊎ ((d.delivered ≡ false)
              × (max_attempts_of c ≤ e.attempts + 1)
              × (x.status ≡ abandoned)
              × (x.last_error ≡ d.error))
          ⊎ ((d.delivered ≡ false)
              × (e.attempts + 1 < max_attempts_of c)
              × (x.status ≡ pending)
              × (x.last_error ≡ d.error)
              × (x.next_attempt_at ≡ next_due)))

  -- An active subscription was tried: the payload cannot be rendered and the entry is given up, or a
  -- request was made.
  abbrev pub Tried : Subscription → Entry → Type 0
  Tried sub x =
      (x.attempts ≡ e.attempts + 1)
      × (((dumped sub ≡ none) × (s'.log ≡ s.log) × (x.status ≡ abandoned))
          ⊎ ((body : String) × (dumped sub ≡ some body)
              × (d : Delivery) × IsPosted sub body d
              × Sent d x))

  abbrev pub Outcome : Option Subscription → Type 0
  Outcome o =
      (x : Entry) × (lookup e.id s'.outbox ≡ some x)
      × (x.leased_until ≡ none)
      × (Unsent o x ⊎ ((sub : Subscription) × (o ≡ some sub) × (sub.active ≡ true) × Tried sub x))

module _ {W : Type 0} (seams : Seams W) (c : Configured) (e : Entry) (now : ℕ) (s : System W)
    (stored : lookup e.id s.outbox ≡ some e) where
  -- What the emitter returned, and the log behind it.
  abbrev IsLogged : Subscription → Option Delivery → List Delivery → Type 0
  IsLogged sub none log = (dumped seams c e now s s sub ≡ none) × (log ≡ s.log)
  IsLogged sub (some d) log =
      (body : String) × (dumped seams c e now s s sub ≡ some body)
      × IsPosted seams c e now s s sub body d
      × (log ≡ s.log ++ d ∷ [])
      × (d.id ≡ e.id)
      × (d.attempts ≡ e.attempts + 1)

  result_of-IsReported :
      (o : PostOutcome) (d : Delivery)
      → d.delivered ≡ (result_of seams o).delivered
      → d.response_status ≡ (result_of seams o).response_status
      → d.error ≡ (result_of seams o).error
      → IsReported seams o d
  result_of-IsReported (returns r) d a b q = (a, b, q)
  result_of-IsReported (raises name) d a b q = (a, b, q)

  rendered-IsLogged :
      (sub : Subscription) (o : Option String) (w : W)
      → dumped seams c e now s s sub ≡ o
      → let (request, w') =
          render_body seams o sub e.event e.id e.idempotency_key (e.attempts + 1) w in
        let (d, log, _) = send seams request sub e.event e.id (e.attempts + 1) s.log w' in
        IsLogged sub d log
  unfolding sign_payload post_once record_delivery
  rendered-IsLogged sub none w h = (h, refl)
  rendered-IsLogged sub (some body) w h = (
    body,
    h,
    (_, _, refl, refl, refl, refl, refl, result_of-IsReported _ _ refl refl refl),
    refl,
    refl,
    refl,
  )

  emitted-IsLogged :
      (sub : Subscription)
      → let (d, log, _) =
          deliver_once seams sub e.event e.payload e.id e.idempotency_key
            (e.attempts + 1)
            s.log
            s.world in
        IsLogged sub d log
  unfolding deliver_once render
  emitted-IsLogged sub =
      rendered-IsLogged sub (dumped seams c e now s s sub) (seams.clock s.world).1 refl

  -- What settles the entry, from a state with the same outbox.
  settle-Tried :
      (sub : Subscription) (o : Option Delivery) (t : System W)
      → t.outbox ≡ s.outbox
      → IsLogged sub o t.log
      → let s' = settle seams c o e now t in
        (x : Entry) × (lookup e.id s'.outbox ≡ some x)
        × (x.leased_until ≡ none)
        × Tried seams c e now s s' sub x
  unfolding mark_delivered reschedule abandon
  settle-Tried sub none t q (unrendered, l) = (
    _,
    lookup-update_entry_self e.id _ t.outbox e (ap (lookup e.id) q ∙ stored),
    refl,
    (refl, inl (unrendered, l, refl)),
  )
  settle-Tried sub (some d) t q (body, made, posted, l, i, n) =
      let here = ap (lookup e.id) q ∙ stored in
      elim (Bool-cases d.delivered) [
        | inl sent ↦ rw sent (
          _,
          lookup-update_entry_self e.id _ t.outbox e here,
          refl,
          (refl, inr (body, made, d, posted, (l, i, n, inl (sent, refl)))),
        )
        | inr failed ↦ elim (Bool-cases (leb (max_attempts_of c) (e.attempts + 1))) [
          | inl last ↦ rw failed (
              rw last (
                _,
                lookup-update_entry_self e.id _ t.outbox e here,
                refl,
                (
                  refl,
                  inr (
                    body,
                    made,
                    d,
                    posted,
                    (l, i, n, inr (inl (failed, ground arith, refl, refl))),
                  ),
                ),
              ))
          | inr more ↦ rw failed (
              rw more (
                _,
                lookup-update_entry_self e.id _ t.outbox e here,
                refl,
                (
                  refl,
                  inr (
                    body,
                    made,
                    d,
                    posted,
                    (l, i, n, inr (inr (failed, ground arith, refl, refl, refl))),
                  ),
                ),
              ))
        ]
      ]

  delivery-Outcome :
      (sub : Subscription) (active : Bool)
      → sub.active ≡ active
      → Outcome seams c e now s (attempt_for seams c (some sub) e now s) (some sub)
  unfolding reschedule
  delivery-Outcome sub true on =
      let r =
        deliver_once seams sub e.event e.payload e.id e.idempotency_key (e.attempts + 1) s.log
          s.world in
      let (x, found, free, tried) =
        settle-Tried sub r.0 (record s { log = r.1; world = r.2 }) refl (emitted-IsLogged sub) in
      simp on (x, found, free, inr (sub, refl, on, tried))
  delivery-Outcome sub false off = simp off (
    _,
    lookup-update_entry_self e.id _ s.outbox e stored,
    refl,
    inl (refl, refl, refl, refl, refl),
  )

  attempt_for-Outcome :
      (o : Option Subscription) → Outcome seams c e now s (attempt_for seams c o e now s) o
  unfolding abandon
  attempt_for-Outcome none =
      (_, lookup-update_entry_self e.id _ s.outbox e stored, refl, inl (refl, refl, refl))
  attempt_for-Outcome (some sub) = delivery-Outcome sub sub.active refl

  -- What becomes of an entry that is attempted. Its lease ends. Without its subscription it is given up,
  -- and with a paused one it waits, in both cases unsent and without counting the attempt. Otherwise the
  -- attempt counts. If the payload cannot be rendered, the entry is given up and nothing is logged. If it
  -- can, a request with that body, signed with the secret of the subscription, is posted to it, and logged as
  -- the transport reports it; the entry is delivered exactly if the request was. If it was not, the entry is
  -- given up when that was its last attempt, and else it waits for the next one, as long as the schedule says.
  pub attempt_outcome :
      Outcome seams c e now s
        (attempt seams c e now s)
        (get_subscription e.org_id e.subscription_id s.subscriptions)
  unfolding attempt
  attempt_outcome =
      attempt_for-Outcome (get_subscription e.org_id e.subscription_id s.subscriptions)
