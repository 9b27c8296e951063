-- ===== src/Webhooks/Outbox/Writes.antt =====
-- What the writes of webhooks/outbox.py leave in the outbox.
use agentforgev.Common.{
  ℕ, ◌≡◌, ◌⊎◌, ◌∙◌, inl, inr, refl, sym, ap, true, Option, none, some, List, [], ◌∷◌, arith, ◌==◌,
  number_keys, Bool-cases, take, filter, ltb,
}
use agentforgev.Common.Dict.{
  lookup, insert, erase, values, lookup-insert, lookup-insert_self, lookup-erase_ne,
}
use agentforgev.Common.Sort.{In, In-of_filter, In-of_take}
use agentforgev.Webhooks.Entry.{Entry, leased, is_delivered}
use agentforgev.Webhooks.Outbox.{
  Outbox, update_entry, update_found, lease_all, claim_due, due_entries, erase_all, prune_settled,
  is_prunable,
}
use agentforgev.Webhooks.Outbox.Keyed.{
  IsKeyed, insert-IsKeyed, erase-IsKeyed, id_of_lookup, lookup_of_value, lookup-erase_keyed,
}
use agentforgev.Webhooks.Outbox.Claims.{due_of_entries}

found_after :
    (id k : ℕ) (f : Entry → Entry) (box : Outbox) (y : Entry) (o : Option Entry)
    → lookup id box ≡ o
    → lookup k (update_found o id f box) ≡ some y
    → (lookup k box ≡ some y) ⊎ ((x : Entry) × (lookup k box ≡ some x) × (id ≡ k) × (y ≡ f x))
found_after id k f box y none e h = inl h
found_after id k f box y (some x) e h = elim (Bool-cases (id == k)) [
  | inl q ↦
      (let i : id ≡ k = ground arith in
        let r : some y ≡ some (f x) = sym h ∙ lookup-insert id k (f x) box ∙ rw q refl in
        inr (x, ap (λ j. lookup j box) (sym i) ∙ e, i, cc))
  | inr q ↦ inl (sym (lookup-insert id k (f x) box ∙ rw q refl) ∙ h)
]

-- An entry found after a write was found before, as it is or as it was before the write.
pub lookup-update_entry :
    (id k : ℕ) (f : Entry → Entry) (box : Outbox) (y : Entry)
    → lookup k (update_entry id f box) ≡ some y
    → (lookup k box ≡ some y) ⊎ ((x : Entry) × (lookup k box ≡ some x) × (id ≡ k) × (y ≡ f x))
lookup-update_entry id k f box y h = found_after id k f box y (lookup id box) refl h

kept_after :
    (id k : ℕ) (f : Entry → Entry) (box : Outbox) (x : Entry) (o : Option Entry)
    → lookup k box ≡ some x
    → (y : Entry) × (lookup k (update_found o id f box) ≡ some y)
kept_after id k f box x none h = (x, h)
kept_after id k f box x (some z) h = elim (Bool-cases (id == k)) [
  | inl q ↦ (f z, lookup-insert id k (f z) box ∙ rw q refl)
  | inr q ↦ (x, lookup-insert id k (f z) box ∙ rw q h)
]

pub update_entry_keeps :
    (id k : ℕ) (f : Entry → Entry) (box : Outbox) (x : Entry)
    → lookup k box ≡ some x
    → (y : Entry) × (lookup k (update_entry id f box) ≡ some y)
update_entry_keeps id k f box x h = kept_after id k f box x (lookup id box) h

update_found-IsKeyed :
    (id : ℕ) (f : Entry → Entry) (box : Outbox) (o : Option Entry)
    → lookup id box ≡ o
    → ((x : Entry) → (f x).id ≡ x.id)
    → IsKeyed box
    → IsKeyed (update_found o id f box)
update_found-IsKeyed id f box none e same h = h
update_found-IsKeyed id f box (some x) e same h =
    insert-IsKeyed id (f x) box (sym (same x ∙ id_of_lookup id x box h e)) h

pub update_entry-IsKeyed :
    (id : ℕ) (f : Entry → Entry) (box : Outbox)
    → ((x : Entry) → (f x).id ≡ x.id)
    → IsKeyed box
    → IsKeyed (update_entry id f box)
update_entry-IsKeyed id f box same h = update_found-IsKeyed id f box (lookup id box) refl same h

lease_all_found :
    (now k : ℕ) (es : List Entry) (box : Outbox) (y : Entry)
    → lookup k (lease_all now es box) ≡ some y
    → (lookup k box ≡ some y) ⊎ ((e : Entry) × In e es × (e.id ≡ k) × (y ≡ leased now e))
lease_all_found now k [] box y h = inl h
lease_all_found now k (e ∷ es) box y h =
    elim (lease_all_found now k es (insert e.id (leased now e) box) y h) [
      | inr (x, m, i, q) ↦ inr (x, inr m, i, q)
      | inl l ↦ elim (Bool-cases (e.id == k)) [
        | inl q ↦ inr (
          e,
          inl refl,
          ground arith,
          (let r : some y ≡ some (leased now e) =
                sym l ∙ lookup-insert e.id k (leased now e) box ∙ rw q refl in
              cc),
        )
        | inr q ↦ inl (sym (lookup-insert e.id k (leased now e) box ∙ rw q refl) ∙ l)
      ]
    ]

lease_all_keeps :
    (now k : ℕ) (es : List Entry) (box : Outbox) (x : Entry)
    → lookup k box ≡ some x
    → (y : Entry) × (lookup k (lease_all now es box) ≡ some y)
lease_all_keeps now k [] box x h = (x, h)
lease_all_keeps now k (e ∷ es) box x h = elim (Bool-cases (e.id == k)) [
  | inl q ↦
      lease_all_keeps now k es _ (leased now e)
        (lookup-insert e.id k (leased now e) box ∙ rw q refl)
  | inr q ↦ lease_all_keeps now k es _ x (lookup-insert e.id k (leased now e) box ∙ rw q h)
]

-- A claim changes nothing in an entry but its lease.
pub claim_due_found :
    (limit now k : ℕ) (box : Outbox) (y : Entry)
    → IsKeyed box
    → lookup k (claim_due limit now box).1 ≡ some y
    → (x : Entry) × (lookup k box ≡ some x) × ((y ≡ x) ⊎ (y ≡ leased now x))
unfolding claim_due
claim_due_found limit now k box y keyed h =
    elim (lease_all_found now k (take limit (due_entries now box)) box y h) [
      | inl l ↦ (y, l, inl refl)
      | inr (x, m, i, q) ↦ (
        x,
        ap (λ j. lookup j box) (sym i)
            ∙ (due_of_entries now box x keyed (In-of_take limit x _ m)).0,
        inr q,
      )
    ]

pub claim_due_keeps :
    (limit now k : ℕ) (box : Outbox) (x : Entry)
    → lookup k box ≡ some x
    → (y : Entry) × (lookup k (claim_due limit now box).1 ≡ some y)
unfolding claim_due
claim_due_keeps limit now k box x h =
    lease_all_keeps now k (take limit (due_entries now box)) box x h

erase_all-IsKeyed : (es : List Entry) (box : Outbox) → IsKeyed box → IsKeyed (erase_all es box)
erase_all-IsKeyed [] box h = h
erase_all-IsKeyed (e ∷ es) box h = erase_all-IsKeyed es (erase e.id box) (erase-IsKeyed e.id box h)

erase_found :
    (id k : ℕ) (box : Outbox) (y : Entry)
    → IsKeyed box
    → lookup k (erase id box) ≡ some y
    → lookup k box ≡ some y
erase_found id k box y keyed h = elim (Bool-cases (id == k)) [
  | inl q ↦
      (let i : id ≡ k = ground arith in
        let n : lookup k (erase id box) ≡ none = rw i (lookup-erase_keyed k box keyed) in cc)
  | inr q ↦ sym (lookup-erase_ne id k box (ground arith)) ∙ h
]

erase_all_found :
    (k : ℕ) (es : List Entry) (box : Outbox) (y : Entry)
    → IsKeyed box
    → lookup k (erase_all es box) ≡ some y
    → lookup k box ≡ some y
erase_all_found k [] box y keyed h = h
erase_all_found k (e ∷ es) box y keyed h =
    erase_found e.id k box y keyed
      (erase_all_found k es (erase e.id box) y (erase-IsKeyed e.id box keyed) h)

erase_all_keeps :
    (k : ℕ) (es : List Entry) (box : Outbox) (x : Entry)
    → lookup k box ≡ some x
    → (lookup k (erase_all es box) ≡ some x) ⊎ ((e : Entry) × In e es × (e.id ≡ k))
erase_all_keeps k [] box x h = inl h
erase_all_keeps k (e ∷ es) box x h = elim (Bool-cases (e.id == k)) [
  | inl q ↦ inr (e, inl refl, ground arith)
  | inr q ↦
      elim (erase_all_keeps k es (erase e.id box) x
        (lookup-erase_ne e.id k box (ground arith) ∙ h)) [
          | inl l ↦ inl l
          | inr (z, m, i) ↦ inr (z, inr m, i)
        ]
]

prunable-cases :
    (older_than : ℕ) (e : Entry)
    → is_prunable older_than e ≡ true
    → (is_delivered e.status ≡ true) × (ltb e.updated_at older_than ≡ true)
prunable-cases older_than e h = ground arith

pub prune_settled-IsKeyed :
    (older_than : ℕ) (box : Outbox) → IsKeyed box → IsKeyed (prune_settled older_than box).1
unfolding prune_settled
prune_settled-IsKeyed older_than box h =
    erase_all-IsKeyed (filter (is_prunable older_than) (values box)) box h

-- A sweep changes no entry that it leaves, and removes only delivered entries that were last touched
-- before the bound.
pub prune_settled_only :
    (older_than k : ℕ) (box : Outbox)
    → IsKeyed box
    → ((y : Entry) → lookup k (prune_settled older_than box).1 ≡ some y → lookup k box ≡ some y)
      × ((x : Entry)
          → lookup k box ≡ some x
          → (lookup k (prune_settled older_than box).1 ≡ some x)
            ⊎ ((is_delivered x.status ≡ true) × (ltb x.updated_at older_than ≡ true)))
unfolding prune_settled
prune_settled_only older_than k box keyed =
    let doomed = filter (is_prunable older_than) (values box) in
    (
      λ y h. erase_all_found k doomed box y keyed h,
      λ x h. elim (erase_all_keeps k doomed box x h) [
        | inl l ↦ inl l
        | inr (e, m, i) ↦
            (let (v, d) = In-of_filter (is_prunable older_than) e (values box) m in
              let both : some x ≡ some e =
                sym h ∙ ap (λ j. lookup j box) (sym i) ∙ lookup_of_value e box keyed v in
              let q : x ≡ e = cc in inr (rw q (prunable-cases older_than e d)))
      ],
    )

written_after :
    (id : ℕ) (f : Entry → Entry) (box : Outbox) (x : Entry) (o : Option Entry)
    → o ≡ some x
    → lookup id (update_found o id f box) ≡ some (f x)
written_after id f box x none e = cc
written_after id f box x (some y) e =
    let q : y ≡ x = cc in lookup-insert_self id (f y) box ∙ ap (λ z. some (f z)) q

-- A write to an entry that is there is found.
pub lookup-update_entry_self :
    (id : ℕ) (f : Entry → Entry) (box : Outbox) (x : Entry)
    → lookup id box ≡ some x
    → lookup id (update_entry id f box) ≡ some (f x)
lookup-update_entry_self id f box x h = written_after id f box x (lookup id box) h
