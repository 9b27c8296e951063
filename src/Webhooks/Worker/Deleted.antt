-- ===== src/Webhooks/Worker/Deleted.antt =====
-- What the deletion of a subscription (webhooks/store.py) keeps of the outbox and the log of deliveries.
use agentforgev.Common.{
  ℕ, ◌≡◌, ◌≢◌, ◌⊎◌, inl, inr, refl, ap, not, Option, none, some, List, Bool-cases, ◌==◌,
  number_keys, and_parts, filter,
}
use agentforgev.Common.Sort.{In-filter}
use agentforgev.Webhooks.Subscriptions.{
  Subscription, Delivery, is_of, get_subscription, delete_found, delete_subscription,
  drop_for_subscription,
}
use agentforgev.Webhooks.Emitter.{Seams}
use agentforgev.Webhooks.Worker.{Configured, System}
use agentforgev.Webhooks.Worker.Sound.{IsSound, IsKept, Keeps}
use agentforgev.Webhooks.Worker.Calls.{Call, delete_call, call, Deletes}
use agentforgev.Webhooks.Worker.Attempt.{WasDelivered}

module _ (gone gone' : ℕ → ℕ → Type 0) (more : (k n : ℕ) → gone k n → gone' k n) where
  weaker :
      (k n : ℕ) (log : List Delivery)
      → WasDelivered k n log ⊎ gone k n
      → WasDelivered k n log ⊎ gone' k n
  weaker k n log (inl d) = inl d
  weaker k n log (inr g) = inr (more k n g)

module _ {W : Type 0} (gone gone' : ℕ → ℕ → Type 0) (more : (k n : ℕ) → gone k n → gone' k n)
    (c : Configured) where
  pub weaker-IsSound : (s : System W) → IsSound gone c s → IsSound gone' c s
  weaker-IsSound s sound = record {
    keyed = sound.keyed;
    retriable = sound.retriable;
    logged = λ k e h p. weaker gone gone' more k e.attempts s.log (sound.logged k e h p);
  }

  pub weaker-IsKept : (k : ℕ) (s : System W) → IsKept gone k s → IsKept gone' k s
  weaker-IsKept k s (inl found) = inl found
  weaker-IsKept k s (inr (n, d)) = inr (n, weaker gone gone' more k n s.log d)

-- The invariant goes on, and so does every entry, when what is gone grows from `gone` to `gone'`.
abbrev pub StaysSound :
    {W : Type 0} → Configured → (gone gone' : ℕ → ℕ → Type 0) → System W → System W → Type 0
StaysSound c gone gone' s s' = IsSound gone' c s' × ((k : ℕ) → IsKept gone k s → IsKept gone' k s')

module _ {W : Type 0} (seams : Seams W) (c : Configured) where
  -- What is gone after a call.
  abbrev pub Behind : (ℕ → ℕ → Type 0) → Call → System W → ℕ → ℕ → Type 0
  Behind gone x s k n = gone k n ⊎ Deletes seams c k n x s

  pub more_gone :
      (gone : ℕ → ℕ → Type 0) (x : Call) (s s' : System W)
      → IsSound gone c s' × Keeps gone s s'
      → StaysSound c gone (Behind gone x s) s s'
  more_gone gone x s s' (sound, kept) = (
    weaker-IsSound gone (Behind gone x s) (λ k n g. inl g) c s' sound,
    (λ k h. weaker-IsKept gone (Behind gone x s) (λ k n g. inl g) c k s' (kept k h)),
  )

  -- A record of the log that a deletion of the subscription `id` leaves, or drops.
  dropped :
      (gone : ℕ → ℕ → Type 0) (org id : ℕ) (s : System W)
      → get_subscription org id s.subscriptions ≢ none
      → (k n : ℕ) → WasDelivered k n s.log ⊎ gone k n
      → WasDelivered k n (filter (λ x. not (is_of org id x)) s.log)
        ⊎ Behind gone (delete_call org id) s k n
  dropped gone org id s found k n (inr g) = inr (inl g)
  dropped gone org id s found k n (inl (d, m, i, ok, a)) = elim (Bool-cases (is_of org id d)) [
    | inl q ↦
        (let (o, u) = and_parts (d.org_id == org) (d.subscription_id == id) q in
          inr (
            inr (
              d,
              found,
              m,
              (number_keys.equals_iff d.org_id org).0 o,
              (number_keys.equals_iff d.subscription_id id).0 u,
              i,
              ok,
              a,
            )))
    | inr q ↦ inl (d, In-filter (λ x. not (is_of org id x)) d s.log m (ap not q), i, ok, a)
  ]

  delete_found-IsSound :
      (gone : ℕ → ℕ → Type 0) (org id : ℕ) (s : System W) (o : Option Subscription)
      → get_subscription org id s.subscriptions ≡ o
      → IsSound gone c s
      → let deleted = delete_found o org id s.subscriptions s.log in
        StaysSound c gone
          (Behind gone (delete_call org id) s)
          s
          (record s { subscriptions = deleted.1; log = deleted.2 })
  unfolding drop_for_subscription
  delete_found-IsSound gone org id s none l sound =
      more_gone gone (delete_call org id) s _ (sound, λ k h. h)
  delete_found-IsSound gone org id s (some sub) l sound =
      let found : get_subscription org id s.subscriptions ≢ none = λ q. cc in
      (
        record {
          keyed = sound.keyed;
          retriable = sound.retriable;
          logged = λ k e h p. dropped gone org id s found k e.attempts (sound.logged k e h p);
        },
        λ k h. elim h [ inl e ↦ inl e | inr (n, d) ↦ inr (n, dropped gone org id s found k n d) ],
      )

  pub deleted-IsSound :
      (gone : ℕ → ℕ → Type 0) (org id : ℕ) (s : System W)
      → IsSound gone c s
      → StaysSound c gone
          (Behind gone (delete_call org id) s)
          s
          (call seams c (delete_call org id) s)
  unfolding delete_subscription
  deleted-IsSound gone org id s sound =
      delete_found-IsSound gone org id s (get_subscription org id s.subscriptions) refl sound
