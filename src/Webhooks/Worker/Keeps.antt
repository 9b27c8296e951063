-- ===== src/Webhooks/Worker/Keeps.antt =====
-- What a single call between the passes of webhooks/worker.py keeps, the deletion of a subscription excepted.
use agentforgev.Common.{
  ℕ, ◌≡◌, ◌∙◌, inl, inr, refl, sym, ap, true, Option, none, some, [], ◌∷◌, arith, Bool-cases, ◌==◌,
  number_keys,
}
use agentforgev.Common.Dict.{lookup, insert, lookup-insert, lookup-insert_self}
use agentforgev.Common.Value.{Fields}
use agentforgev.Webhooks.Entry.{Entry, ping, is_pending, is_delivered, is_abandoned}
use agentforgev.Webhooks.Outbox.{requeue, requeue_found, requeued, get, if_owned}
use agentforgev.Webhooks.Outbox.Keyed.{insert-IsKeyed, id_of_lookup}
use agentforgev.Webhooks.Subscriptions.{Subscription}
use agentforgev.Webhooks.Emitter.{Seams, send_test}
use agentforgev.Webhooks.Worker.{Configured, System}
use agentforgev.Webhooks.Worker.Sound.{IsSound, IsKept, Keeps, logged_later}
use agentforgev.Webhooks.Worker.Calls.{requeue_call, test_found, call}
use agentforgev.Webhooks.Worker.Attempt.{Extends, In-append, deliver_once-cases}

module _ {W : Type 0} (gone : ℕ → ℕ → Type 0) (seams : Seams W) (c : Configured) where
  -- A pending entry without attempts, stored under its id.
  pub stored-IsSound :
      (id : ℕ) (e : Entry) (s : System W)
      → id ≡ e.id
      → is_pending e.status ≡ true
      → e.attempts ≡ 0
      → IsSound gone c s
      → let s' : System W = record s { outbox = insert id e s.outbox } in
        IsSound gone c s' × Keeps gone s s' × IsKept gone id s'
  stored-IsSound id e s own p zero_attempts sound = (
    record {
      keyed = insert-IsKeyed id e s.outbox own sound.keyed;
      retriable = λ k y h q. elim (Bool-cases (id == k)) [
        | inl same ↦
            (let r : some y ≡ some e = sym h ∙ lookup-insert id k e s.outbox ∙ rw same refl in
              let x : y ≡ e = cc in rw x (rw zero_attempts (omega arith)))
        | inr other ↦
            sound.retriable k y (sym (lookup-insert id k e s.outbox ∙ rw other refl) ∙ h) q
      ];
      logged = λ k y h q. elim (Bool-cases (id == k)) [
        | inl same ↦
            (let r : some y ≡ some e = sym h ∙ lookup-insert id k e s.outbox ∙ rw same refl in
              let x : y ≡ e = cc in absurd (not_both e p (rw x at q)))
        | inr other ↦ sound.logged k y (sym (lookup-insert id k e s.outbox ∙ rw other refl) ∙ h) q
      ];
    },
    (λ k h. elim h [
      | inl (y, l) ↦ elim (Bool-cases (id == k)) [
        | inl same ↦ inl (e, lookup-insert id k e s.outbox ∙ rw same refl)
        | inr other ↦ inl (y, lookup-insert id k e s.outbox ∙ rw other l)
      ]
      | inr d ↦ inr d
    ]),
    inl (e, lookup-insert_self id e s.outbox),
  )
    where
      not_both : (e : Entry) → is_pending e.status ≡ true → is_delivered e.status ≡ true → ⊥
      not_both e a b = ground arith

  requeue_found-IsSound :
      (o : Option Entry) (id now : ℕ) (s : System W)
      → ((e : Entry) → o ≡ some e → e.id ≡ id)
      → IsSound gone c s
      → let s' : System W = record s { outbox = (requeue_found o id now s.outbox).1 } in
        IsSound gone c s' × Keeps gone s s'
  requeue_found-IsSound none id now s same sound = (sound, λ k h. h)
  requeue_found-IsSound (some e) id now s same sound = elim (Bool-cases (is_abandoned e.status)) [
    | inl q ↦
        (let (a, b, _) = stored-IsSound id (requeued now e) s (sym (same e refl)) refl refl sound in
          simp q (a, b))
    | inr q ↦ simp q (sound, λ k h. h)
  ]

  pub requeue-IsSound :
      (org id now : ℕ) (s : System W)
      → IsSound gone c s
      → IsSound gone c (call seams c (requeue_call org id now) s)
        × Keeps gone s (call seams c (requeue_call org id now) s)
  unfolding requeue get
  requeue-IsSound org id now s sound =
      requeue_found-IsSound (get org id s.outbox) id now s
        (λ e q. owned_id (lookup id s.outbox) e (λ x l. id_of_lookup id x s.outbox sound.keyed l) q)
        sound
    where
      owned_id :
          (o : Option Entry) (e : Entry)
          → ((x : Entry) → o ≡ some x → x.id ≡ id)
          → if_owned org o ≡ some e
          → e.id ≡ id
      owned_id none e h q = cc
      owned_id (some x) e h q = ground (arith, h x refl)

  -- A log that has at least the records of the old one, and the same outbox.
  pub logged_more-IsSound :
      (s s' : System W)
      → s'.outbox ≡ s.outbox
      → Extends s'.log s.log
      → IsSound gone c s
      → IsSound gone c s' × Keeps gone s s'
  logged_more-IsSound s s' same more sound = (
    record {
      keyed = rw same sound.keyed;
      retriable = λ k e h p. sound.retriable k e (ap (lookup k) (sym same) ∙ h) p;
      logged = λ k e h p.
          logged_later gone k e.attempts s.log s'.log more
            (sound.logged k e (ap (lookup k) (sym same) ∙ h) p);
    },
    (λ k h. elim h [
      | inl (e, l) ↦ inl (e, ap (lookup k) same ∙ l)
      | inr (n, d) ↦ inr (n, logged_later gone k n s.log s'.log more d)
    ]),
  )

  pub test_found-IsSound :
      (id : ℕ) (payload : Fields) (o : Option Subscription) (s : System W)
      → IsSound gone c s
      → let s' = test_found seams c id payload o s in IsSound gone c s' × Keeps gone s s'
  unfolding send_test
  test_found-IsSound id payload none s sound = (sound, λ k h. h)
  test_found-IsSound id payload (some sub) s sound =
      logged_more-IsSound s (test_found seams c id payload (some sub) s) refl
        (λ d m. elim (deliver_once-cases seams sub ping payload id none 1 s.log s.world) [
          | inl (_, l) ↦ rw l m
          | inr (x, _, l, _, _) ↦ rw l (In-append d s.log (x ∷ []) m)
        ])
        sound
