-- ===== src/Webhooks/Worker/Histories.antt =====
-- What holds after any passes of webhooks/worker.py and any other calls between them.
use agentforgev.Common.{ℕ, ◌⊎◌, inl, inr, refl, String, Option, List, [], ◌∷◌, ◌++◌, number_keys}
use agentforgev.Common.Value.{Fields}
use agentforgev.Webhooks.Entry.{Event, new_entry}
use agentforgev.Webhooks.Outbox.{enqueue}
use agentforgev.Webhooks.Subscriptions.{get_subscription}
use agentforgev.Webhooks.Emitter.{Seams}
use agentforgev.Webhooks.Worker.{Configured, System}
use agentforgev.Webhooks.Worker.Sound.{IsSound, IsKept, Keeps, run_once-IsSound}
use agentforgev.Webhooks.Worker.Calls.{
  Call, pass_call, enqueue_call, requeue_call, create_call, update_call, delete_call, test_call,
  call, call_each, DeletesIn,
}
use agentforgev.Webhooks.Worker.Keeps.{
  stored-IsSound, requeue-IsSound, logged_more-IsSound, test_found-IsSound,
}
use agentforgev.Webhooks.Worker.Deleted.{
  weaker-IsSound, weaker-IsKept, Behind, StaysSound, more_gone, deleted-IsSound,
}

module _ {W : Type 0} (seams : Seams W) (c : Configured) where
  -- What is gone after some calls.
  abbrev BehindAll : (ℕ → ℕ → Type 0) → List Call → System W → ℕ → ℕ → Type 0
  BehindAll gone xs s k n = gone k n ⊎ DeletesIn seams c xs s k n

  enqueued-IsSound :
      (gone : ℕ → ℕ → Type 0) (id org sub : ℕ) (event : Event) (p : Fields) (key : Option String)
      (now : ℕ) (s : System W)
      → IsSound gone c s
      → let s' = call seams c (enqueue_call id org sub event p key now) s in
        IsSound gone c s' × Keeps gone s s' × IsKept gone id s'
  unfolding enqueue new_entry
  enqueued-IsSound gone id org sub event p key now s sound =
      stored-IsSound gone seams c id (new_entry id org sub event p key now) s refl refl refl sound

  regrouped :
      (gone : ℕ → ℕ → Type 0) (x : Call) (xs : List Call) (s : System W) (k n : ℕ)
      → BehindAll (Behind seams c gone x s) xs (call seams c x s) k n
      → BehindAll gone (x ∷ xs) s k n
  regrouped gone x xs s k n (inl (inl g)) = inl g
  regrouped gone x xs s k n (inl (inr d)) = inr (inl d)
  regrouped gone x xs s k n (inr d) = inr (inr d)

  call-IsSound :
      (gone : ℕ → ℕ → Type 0) (x : Call) (s : System W)
      → IsSound gone c s
      → StaysSound c gone (Behind seams c gone x s) s (call seams c x s)
  call-IsSound gone pass_call s sound =
      more_gone seams c gone pass_call s _ (run_once-IsSound gone seams c s sound)
  call-IsSound gone (enqueue_call id org sub event p key now) s sound =
      let x = enqueue_call id org sub event p key now in
      let (a, b, _) = enqueued-IsSound gone id org sub event p key now s sound in
      more_gone seams c gone x s _ (a, b)
  call-IsSound gone (requeue_call org id now) s sound =
      more_gone seams c gone (requeue_call org id now) s _
        (requeue-IsSound gone seams c org id now s sound)
  call-IsSound gone (create_call id org url secret events description active now) s sound =
      let x = create_call id org url secret events description active now in
      more_gone seams c gone x s _
        (logged_more-IsSound gone seams c s (call seams c x s) refl (λ d m. m) sound)
  call-IsSound gone (update_call org id changes now) s sound =
      let x = update_call org id changes now in
      more_gone seams c gone x s _
        (logged_more-IsSound gone seams c s (call seams c x s) refl (λ d m. m) sound)
  call-IsSound gone (delete_call org id) s sound = deleted-IsSound seams c gone org id s sound
  call-IsSound gone (test_call id org sub payload) s sound =
      more_gone seams c gone (test_call id org sub payload) s _ (
        test_found-IsSound gone seams c id payload (get_subscription org sub s.subscriptions) s
          sound)

  -- Any calls keep a sound state sound, and keep every entry that was there.
  calls-IsSound :
      (gone : ℕ → ℕ → Type 0) (xs : List Call) (s : System W)
      → IsSound gone c s
      → StaysSound c gone (BehindAll gone xs s) s (call_each seams c xs s)
  calls-IsSound gone [] s sound =
      let more = λ (k n : ℕ) (g : gone k n). inl g in
      (
        weaker-IsSound gone (BehindAll gone [] s) more c s sound,
        (λ k h. weaker-IsKept gone (BehindAll gone [] s) more c k s h),
      )
  calls-IsSound gone (x ∷ xs) s sound =
      let s' = call seams c x s in
      let behind = Behind seams c gone x s in
      let (sound1, kept1) = call-IsSound gone x s sound in
      let (sound2, kept2) = calls-IsSound behind xs s' sound1 in
      let more = regrouped gone x xs s in
      let end = call_each seams c xs s' in
      (
        weaker-IsSound (BehindAll behind xs s') (BehindAll gone (x ∷ xs) s) more c end sound2,
        (λ k h.
            weaker-IsKept (BehindAll behind xs s') (BehindAll gone (x ∷ xs) s) more c k end
              (kept2 k (kept1 k h))),
      )

  -- An entry that is enqueued after some calls is kept through the calls after it.
  enqueued_later :
      (gone : ℕ → ℕ → Type 0) (before after : List Call) (s : System W)
      → IsSound gone c s
      → (id org sub : ℕ) (event : Event) (p : Fields) (key : Option String) (now : ℕ)
      → let xs = before ++ enqueue_call id org sub event p key now ∷ after in
        IsKept (BehindAll gone xs s) id (call_each seams c xs s)
  enqueued_later gone [] after s sound id org sub event p key now =
      let x = enqueue_call id org sub event p key now in
      let (a, b, there) = enqueued-IsSound gone id org sub event p key now s sound in
      weaker-IsKept (BehindAll gone after (call seams c x s)) (BehindAll gone (x ∷ after) s)
        (λ k n g. elim g [ inl l ↦ inl l | inr r ↦ inr (inr r) ]) c id
        (call_each seams c after (call seams c x s))
        ((calls-IsSound gone after (call seams c x s) a).1 id there)
  enqueued_later gone (y ∷ before) after s sound id org sub event p key now =
      let xs = before ++ enqueue_call id org sub event p key now ∷ after in
      let s' = call seams c y s in
      let behind = Behind seams c gone y s in
      weaker-IsKept (BehindAll behind xs s') (BehindAll gone (y ∷ xs) s) (regrouped gone y xs s) c
        id (call_each seams c xs s')
        (enqueued_later behind before after s' (call-IsSound gone y s sound).0 id org sub event p
          key now)

  none_gone :
      (xs : List Call) (s : System W) (k n : ℕ)
      → BehindAll (λ i j. ⊥) xs s k n
      → DeletesIn seams c xs s k n
  none_gone xs s k n (inl g) = absurd g
  none_gone xs s k n (inr d) = d

  -- Whatever is called from a sound state on, in whatever order, the deletion of subscriptions included: an
  -- entry is stored under its own id, an entry is pending only while it has attempts left, and an entry that
  -- is marked as delivered has the record of a delivered request for it, at its number of attempts, in the log,
  -- or that record was in the log when one of the calls deleted its subscription.
  pub call_each-IsSound :
      (xs : List Call) (s : System W)
      → IsSound (λ k n. ⊥) c s
      → IsSound (DeletesIn seams c xs s) c (call_each seams c xs s)
  call_each-IsSound xs s sound =
      weaker-IsSound (BehindAll (λ k n. ⊥) xs s) (DeletesIn seams c xs s) (none_gone xs s) c
        (call_each seams c xs s) (calls-IsSound (λ k n. ⊥) xs s sound).0

  -- No event is lost: from a sound state on, once it is enqueued, whatever is called before and after, the
  -- deletion of subscriptions included, its entry is in the outbox, or the log has the record of a delivered
  -- request for it, or that record was in the log when one of the calls deleted its subscription.
  pub enqueued-IsKept :
      (before after : List Call) (s : System W)
      → IsSound (λ k n. ⊥) c s
      → (id org sub : ℕ) (event : Event) (p : Fields) (key : Option String) (now : ℕ)
      → let xs = before ++ enqueue_call id org sub event p key now ∷ after in
        IsKept (DeletesIn seams c xs s) id (call_each seams c xs s)
  enqueued-IsKept before after s sound id org sub event p key now =
      let xs = before ++ enqueue_call id org sub event p key now ∷ after in
      weaker-IsKept (BehindAll (λ k n. ⊥) xs s) (DeletesIn seams c xs s) (none_gone xs s) c id
        (call_each seams c xs s)
        (enqueued_later (λ k n. ⊥) before after s sound id org sub event p key now)
