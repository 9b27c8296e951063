-- ===== src/Webhooks/Outbox/Claims.antt =====
-- `claim_due` of webhooks/outbox.py, and two claims one after the other.
use agentforgev.Common.{
  ℕ, ◌+◌, ◌≤◌, ◌<◌, ◌≡◌, ◌≢◌, ◌∙◌, ◌⊎◌, inl, inr, sym, ap, true, false, some, List, [], ◌∷◌, arith,
  number_keys, map, length, take, filter, All, length-take,
}
use agentforgev.Common.Dict.{lookup, values}
use agentforgev.Common.Sort.{
  In, All-from_In, In-filter, In-of_filter, In-of_take, In-map, In-of_map, length-map, take_or_drop,
  length-take_of_drop, In-sort_by, In-of_sort_by, sort_by-IsSorted, take-IsSorted, le_of_take-drop,
  IsSorted,
}
use agentforgev.Webhooks.Entry.{Entry, is_due, due_before, leased, lease}
use agentforgev.Webhooks.Outbox.{Outbox, due_entries, claim_due}
use agentforgev.Webhooks.Outbox.Keyed.{
  IsKeyed, lookup_of_value, value_of_lookup, lease_all-IsKeyed, lookup-lease_all_other,
  lookup-lease_all,
}

due_before_total : (e f : Entry) → due_before e f ≡ false → due_before f e ≡ true
unfolding due_before
due_before_total e f h = ground arith

due_before_trans :
    (e f g : Entry) → due_before e f ≡ true → due_before f g ≡ true → due_before e g ≡ true
unfolding due_before
due_before_trans e f g h k = ground arith

due_entries-IsSorted : (now : ℕ) (box : Outbox) → IsSorted due_before (due_entries now box)
unfolding due_entries
due_entries-IsSorted now box =
    sort_by-IsSorted due_before due_before_total due_before_trans (filter (is_due now) (values box))

pub due_of_entries :
    (now : ℕ) (box : Outbox) (x : Entry)
    → IsKeyed box
    → In x (due_entries now box)
    → (lookup x.id box ≡ some x) × (is_due now x ≡ true)
unfolding due_entries
due_of_entries now box x h m =
    let (v, d) = In-of_filter (is_due now) x (values box) (In-of_sort_by due_before x _ m) in
    (lookup_of_value x box h v, d)

entries_of_due :
    (now : ℕ) (box : Outbox) (x : Entry)
    → lookup x.id box ≡ some x
    → is_due now x ≡ true
    → In x (due_entries now box)
unfolding due_entries
entries_of_due now box x l d =
    In-sort_by due_before x _
      (In-filter (is_due now) x (values box) (value_of_lookup x.id x box l) d)

-- Two due entries with one id are one entry.
same_of_id :
    (now : ℕ) (box : Outbox) (x y : Entry)
    → IsKeyed box
    → In x (due_entries now box)
    → In y (due_entries now box)
    → x.id ≡ y.id
    → x ≡ y
same_of_id now box x y h m k e =
    let a = (due_of_entries now box x h m).0 in
    let b = (due_of_entries now box y h k).0 in cc (ap (λ i. lookup i box) e)

leased-All :
    (now : ℕ) (e : Entry) (es : List Entry)
    → All (λ y. due_before e y ≡ true) es
    → All (λ y. due_before (leased now e) y ≡ true) (map (leased now) es)
unfolding due_before
leased-All now e [] h = tt
leased-All now e (x ∷ es) h = (h.0, leased-All now e es h.1)

map-leased-IsSorted :
    (now : ℕ) (es : List Entry) → IsSorted due_before es → IsSorted due_before (map (leased now) es)
map-leased-IsSorted now [] h = tt
map-leased-IsSorted now (e ∷ es) h = (leased-All now e es h.0, map-leased-IsSorted now es h.1)

before_leased : (now : ℕ) (x e : Entry) → due_before x e ≡ true → due_before (leased now x) e ≡ true
unfolding due_before
before_leased now x e h = h

module _ (limit now : ℕ) (box : Outbox) (keyed : IsKeyed box) where
  abbrev chosen : List Entry
  chosen = take limit (due_entries now box)

  chosen_of_claimed :
      (y : Entry)
      → In y (claim_due limit now box).0
      → (e : Entry) × In e (due_entries now box) × In e chosen × (y ≡ leased now e)
  unfolding claim_due
  chosen_of_claimed y m =
      let (e, k, q) = In-of_map (leased now) y chosen m in (e, In-of_take limit e _ k, k, q)

  claimed_of_chosen : (e : Entry) → In e chosen → In (leased now e) (claim_due limit now box).0
  unfolding claim_due
  claimed_of_chosen e m = In-map (leased now) e chosen m

  lookup-claim_due :
      (e : Entry) → In e chosen → lookup e.id (claim_due limit now box).1 ≡ some (leased now e)
  unfolding claim_due
  lookup-claim_due e m =
      lookup-lease_all now e chosen box
        (λ x k q. same_of_id now box x e keyed (In-of_take limit x _ k) (In-of_take limit e _ m) q)
        (inl m)

  -- One claimed entry: it was due, and it is returned and stored with a lease of two minutes.
  abbrev pub IsClaimed : Entry → Type 0
  IsClaimed y =
      (e : Entry) × (lookup e.id box ≡ some e)
      × (is_due now e ≡ true)
      × (y ≡ leased now e)
      × (lookup e.id (claim_due limit now box).1 ≡ some y)

  length-claim_due : length (claim_due limit now box).0 ≡ length chosen
  unfolding claim_due
  length-claim_due = length-map (leased now) chosen

  claim_due-IsSorted : IsSorted due_before (claim_due limit now box).0
  unfolding claim_due
  claim_due-IsSorted =
      map-leased-IsSorted now chosen
        (take-IsSorted due_before limit (due_entries now box) (due_entries-IsSorted now box))

  pub claim_due-IsClaimed : (y : Entry) → In y (claim_due limit now box).0 → IsClaimed y
  claim_due-IsClaimed y m =
      let (e, due, k, q) = chosen_of_claimed y m in
      let facts = due_of_entries now box e keyed due in
      (e, facts.0, facts.1, q, rw q (lookup-claim_due e k))

  -- A claim returns at most `limit` entries, the longest due first; each of them was due, and is now
  -- stored as it is returned, leased until two minutes from now.
  pub claim_due_sound :
      (length (claim_due limit now box).0 ≤ limit)
      × IsSorted due_before (claim_due limit now box).0
      × All IsClaimed (claim_due limit now box).0
  claim_due_sound = (
    omega (arith, length-claim_due, length-take limit (due_entries now box)),
    claim_due-IsSorted,
    All-from_In IsClaimed (claim_due limit now box).0 claim_due-IsClaimed,
  )

  -- A due entry is claimed, unless the claim is full of entries that were due no later.
  pub claim_due_complete :
      (e : Entry)
      → lookup e.id box ≡ some e
      → is_due now e ≡ true
      → In (leased now e) (claim_due limit now box).0
        ⊎ ((length (claim_due limit now box).0 ≡ limit)
            × All (λ y. due_before y e ≡ true) (claim_due limit now box).0)
  claim_due_complete e l d =
      elim (take_or_drop limit e (due_entries now box) (entries_of_due now box e l d)) [
        | inl m ↦ inl (claimed_of_chosen e m)
        | inr m ↦ inr (
          length-claim_due ∙ length-take_of_drop limit e (due_entries now box) m,
          All-from_In (λ y. due_before y e ≡ true) (claim_due limit now box).0
              (λ y k.
                let (x, due, c, q) = chosen_of_claimed y k in
                rw q (
                  before_leased now x e (
                    le_of_take-drop due_before limit (due_entries now box) x e
                      (due_entries-IsSorted now box) c m))),
        )
      ]

  pub claim_due-IsKeyed : IsKeyed (claim_due limit now box).1
  unfolding claim_due
  claim_due-IsKeyed = lease_all-IsKeyed now chosen box keyed

  -- A claim leaves every entry that it does not return as it was.
  pub claim_due_others :
      (k : ℕ)
      → ((y : Entry) → In y (claim_due limit now box).0 → y.id ≢ k)
      → lookup k (claim_due limit now box).1 ≡ lookup k box
  unfolding claim_due
  claim_due_others k h =
      lookup-lease_all_other now k chosen box
        (λ x m. h (leased now x) (In-map (leased now) x chosen m))

still_leased :
    (now now' : ℕ) (e x : Entry) → x ≡ leased now e → is_due now' x ≡ true → now' < now + lease → ⊥
unfolding is_due
still_leased now now' e x q d h = ground arith

-- Two workers never take the same entry: of two claims, one after the other on the same outbox, with
-- whatever limits, the second returns no entry that the first returned, as long as it is made
-- within the two minutes of the lease.
pub claim_due_exclusive :
    (limit limit' now now' : ℕ) (box : Outbox)
    → IsKeyed box
    → now' < now + lease
    → let (first, box') = claim_due limit now box in
      All (λ y. All (λ x. x.id ≢ y.id) first) (claim_due limit' now' box').0
claim_due_exclusive limit limit' now now' box keyed early =
    let box' = (claim_due limit now box).1 in
    All-from_In _ (claim_due limit' now' box').0 (λ y m.
      All-from_In _ (claim_due limit now box).0 (λ x k same.
        let (e', stored', due', q', _) =
          claim_due-IsClaimed limit' now' box' (claim_due-IsKeyed limit now box keyed) y m in
        let (e, stored, due, q, leased_now) = claim_due-IsClaimed limit now box keyed x k in
        let ids : e.id ≡ e'.id =
          sym (ap (λ (t : Entry). t.id) q) ∙ same ∙ ap (λ (t : Entry). t.id) q' in
        let both : some e' ≡ some x =
          sym stored' ∙ ap (λ i. lookup i box') (sym ids) ∙ leased_now in
        let e'_x : e' ≡ x = cc in still_leased now now' e e' (e'_x ∙ q) due' early))
