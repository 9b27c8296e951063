-- ===== src/Webhooks/Worker/Sound.antt =====
-- The invariant of the outbox and the log, through one pass of webhooks/worker.py.
use agentforgev.Common.{
  ℕ, ◌<◌, ◌≡◌, ◌⊎◌, ◌∙◌, inl, inr, sym, ap, true, Option, some, List, [], ◌∷◌, arith, Bool-cases,
  number_keys, All,
}
use agentforgev.Common.Dict.{lookup}
use agentforgev.Common.Sort.{All-from_In}
use agentforgev.Webhooks.Entry.{Entry, is_pending, is_delivered, is_due}
use agentforgev.Webhooks.Outbox.{claim_due, prune_settled}
use agentforgev.Webhooks.Outbox.Keyed.{IsKeyed}
use agentforgev.Webhooks.Outbox.Claims.{claim_due-IsClaimed, claim_due-IsKeyed}
use agentforgev.Webhooks.Outbox.Writes.{
  lookup-update_entry, update_entry_keeps, update_entry-IsKeyed, claim_due_found, claim_due_keeps,
  prune_settled-IsKeyed, prune_settled_only,
}
use agentforgev.Webhooks.Subscriptions.{Delivery}
use agentforgev.Webhooks.Emitter.{Seams}
use agentforgev.Webhooks.Worker.{
  Configured, System, max_attempts_of, batch_size_of, attempt, attempt_all, maybe_prune, run_once,
  pruned_lately,
}
use agentforgev.Webhooks.Worker.Attempt.{WasDelivered, Extends, Moves, attempt-Moves}

-- What holds of the outbox and the log at any time: each entry under its own id, an entry pending only
-- with attempts left, and one marked as delivered only with the record of that delivery.
-- `gone` says of which deliveries the record was deleted from the log, by entry and number of attempts.
pub record IsSound {W : Type 0} (gone : ℕ → ℕ → Type 0) (c : Configured) (s : System W)
    : Type 0 where
  pub keyed : IsKeyed s.outbox
  pub retriable :
      (k : ℕ) (e : Entry)
      → lookup k s.outbox ≡ some e
      → is_pending e.status ≡ true
      → e.attempts < max_attempts_of c
  pub logged :
      (k : ℕ) (e : Entry)
      → lookup k s.outbox ≡ some e
      → is_delivered e.status ≡ true
      → WasDelivered k e.attempts s.log ⊎ gone k e.attempts

-- The entry of an id is in the outbox, or the log says that it was delivered, or said so once.
abbrev pub IsKept : {W : Type 0} → (ℕ → ℕ → Type 0) → ℕ → System W → Type 0
IsKept gone k s =
    ((e : Entry) × (lookup k s.outbox ≡ some e)) ⊎ ((n : ℕ) × (WasDelivered k n s.log ⊎ gone k n))

abbrev pub Keeps : {W : Type 0} → (ℕ → ℕ → Type 0) → System W → System W → Type 0
Keeps gone s s' = (k : ℕ) → IsKept gone k s → IsKept gone k s'

module _ (gone : ℕ → ℕ → Type 0) where
  pub logged_later :
      (k n : ℕ) (log log' : List Delivery)
      → Extends log' log
      → WasDelivered k n log ⊎ gone k n
      → WasDelivered k n log' ⊎ gone k n
  logged_later k n log log' h (inl (d, m, i, ok, n')) = inl (d, h d m, i, ok, n')
  logged_later k n log log' h (inr g) = inr g

module _ {W : Type 0} (gone : ℕ → ℕ → Type 0) (c : Configured) (e : Entry) where
  moved-Keeps : (s s' : System W) → Moves c e s s' → Keeps gone s s'
  moved-Keeps s s' m k (inl (x, h)) =
      let (y, l) = update_entry_keeps e.id k m.write s.outbox x h in
      inl (y, ap (lookup k) m.outbox_written ∙ l)
  moved-Keeps s s' m k (inr (n, d)) = inr (n, logged_later gone k n s.log s'.log m.log_extends d)

  moved-retriable :
      (s s' : System W) (m : Moves c e s s')
      → IsSound gone c s
      → (k : ℕ) (y : Entry) → lookup k s'.outbox ≡ some y
      → is_pending y.status ≡ true
      → y.attempts < max_attempts_of c
  moved-retriable s s' m sound k y h p =
      elim (lookup-update_entry e.id k m.write s.outbox y
        (ap (lookup k) (sym m.outbox_written) ∙ h)) [
          | inl l ↦ sound.retriable k y l p
          | inr (x, l, i, q) ↦ rw q (m.may_retry x (rw q at p))
        ]

  moved-logged :
      (s s' : System W) (m : Moves c e s s')
      → IsSound gone c s
      → (k : ℕ) (y : Entry) → lookup k s'.outbox ≡ some y
      → is_delivered y.status ≡ true
      → WasDelivered k y.attempts s'.log ⊎ gone k y.attempts
  moved-logged s s' m sound k y h p =
      elim (lookup-update_entry e.id k m.write s.outbox y
        (ap (lookup k) (sym m.outbox_written) ∙ h)) [
          | inl l ↦ logged_later gone k y.attempts s.log s'.log m.log_extends (sound.logged k y l p)
          | inr (x, l, i, q) ↦ inl (rw (← i) (rw q (m.is_logged x (rw q at p))))
        ]

  moved-IsSound : (s s' : System W) → Moves c e s s' → IsSound gone c s → IsSound gone c s'
  moved-IsSound s s' m sound = record {
    keyed = rw m.outbox_written (update_entry-IsKeyed e.id m.write s.outbox m.keeps_id sound.keyed);
    retriable = moved-retriable s s' m sound;
    logged = moved-logged s s' m sound;
  }

module _ {W : Type 0} (gone : ℕ → ℕ → Type 0) (seams : Seams W) (c : Configured) where
  attempt_all-IsSound :
      (es : List Entry) (now : ℕ) (s : System W)
      → All (λ e. e.attempts < max_attempts_of c) es
      → IsSound gone c s
      → IsSound gone c (attempt_all seams c es now s) × Keeps gone s (attempt_all seams c es now s)
  attempt_all-IsSound [] now s few sound = (sound, λ k h. h)
  attempt_all-IsSound (e ∷ es) now s few sound =
      let m = attempt-Moves seams c e now few.0 s in
      let s' = attempt seams c e now s in
      let (after, kept) =
        attempt_all-IsSound es now s' few.1 (moved-IsSound gone c e s s' m sound) in
      (after, λ k h. kept k (moved-Keeps gone c e s s' m k h))

  -- A sweep of the settled entries.
  pruned-IsSound :
      (older_than : ℕ) (last : Option ℕ) (s : System W)
      → IsSound gone c s
      → let s' : System W = record s {
        last_prune = last;
        outbox = (prune_settled older_than s.outbox).1;
      } in
        IsSound gone c s' × Keeps gone s s'
  pruned-IsSound older_than last s sound =
      let only = λ (k : ℕ). prune_settled_only older_than k s.outbox sound.keyed in
      (
        record {
          keyed = prune_settled-IsKeyed older_than s.outbox sound.keyed;
          retriable = λ k e h p. sound.retriable k e ((only k).0 e h) p;
          logged = λ k e h p. sound.logged k e ((only k).0 e h) p;
        },
        λ k h. elim h [
          | inl (e, l) ↦ elim ((only k).1 e l) [
            | inl still ↦ inl (e, still)
            | inr (d, old) ↦ inr (e.attempts, sound.logged k e l d)
          ]
          | inr d ↦ inr d
        ],
      )

  maybe_prune-IsSound :
      (now : ℕ) (s : System W)
      → IsSound gone c s
      → IsSound gone c (maybe_prune seams c now s) × Keeps gone s (maybe_prune seams c now s)
  unfolding maybe_prune
  maybe_prune-IsSound now s sound = elim (Bool-cases (pruned_lately seams c s.last_prune now)) [
    | inl q ↦ simp q (sound, λ k h. h)
    | inr q ↦ simp q (pruned-IsSound _ (some now) s sound)
  ]

  claimed-IsSound :
      (limit now : ℕ) (w : W) (s : System W)
      → IsSound gone c s
      → let s' : System W = record s { outbox = (claim_due limit now s.outbox).1; world = w } in
        IsSound gone c s' × Keeps gone s s'
  claimed-IsSound limit now w s sound = (
    record {
      keyed = claim_due-IsKeyed limit now s.outbox sound.keyed;
      retriable = λ k y h p.
          (let (x, l, q) = claim_due_found limit now k s.outbox y sound.keyed h in
            elim q [
              | inl e ↦ rw e (sound.retriable k x l (rw e at p))
              | inr e ↦ rw e (sound.retriable k x l (rw e at p))
            ]);
      logged = λ k y h p.
          (let (x, l, q) = claim_due_found limit now k s.outbox y sound.keyed h in
            elim q [
              | inl e ↦ rw e (sound.logged k x l (rw e at p))
              | inr e ↦ rw e (sound.logged k x l (rw e at p))
            ]);
    },
    λ k h. elim h [ inl (e, l) ↦ inl (claim_due_keeps limit now k s.outbox e l) | inr d ↦ inr d ],
  )

module _ {W : Type 0} (gone : ℕ → ℕ → Type 0) (seams : Seams W) (c : Configured) where
  batch-few :
      (limit now : ℕ) (s : System W)
      → IsSound gone c s
      → All (λ e. e.attempts < max_attempts_of c) (claim_due limit now s.outbox).0
  unfolding is_due
  batch-few limit now s sound = All-from_In _ (claim_due limit now s.outbox).0 (λ y m.
      let (e, l, due, q, _) = claim_due-IsClaimed limit now s.outbox sound.keyed y m in
      let p : is_pending e.status ≡ true = ground arith in rw q (sound.retriable e.id e l p))

  -- A pass of the worker keeps the outbox and the log sound, and loses no event.
  pub run_once-IsSound :
      (s : System W)
      → IsSound gone c s
      → IsSound gone c (run_once seams c s).1
        × ((k : ℕ) → IsKept gone k s → IsKept gone k (run_once seams c s).1)
  unfolding run_once
  run_once-IsSound s sound =
      let (now, w) = seams.clock s.world in
      let (batch, box) = claim_due (batch_size_of c) now s.outbox in
      let s1 : System W = record s { outbox = box; world = w } in
      let (sound1, kept1) = claimed-IsSound gone seams c (batch_size_of c) now w s sound in
      let (sound2, kept2) =
        attempt_all-IsSound gone seams c batch now s1 (batch-few (batch_size_of c) now s sound)
          sound1 in
      let (sound3, kept3) =
        maybe_prune-IsSound gone seams c now (attempt_all seams c batch now s1) sound2 in
      (sound3, λ k h. kept3 k (kept2 k (kept1 k h)))
