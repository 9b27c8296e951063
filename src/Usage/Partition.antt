-- ===== src/Usage/Partition.antt =====
-- observability/analytics.py: the breakdowns of a report add up to its totals.
use agentforgev.Common.{
  ℕ, ◌+◌, ◌≡◌, refl, ap, ◌∙◌, String, Bool-cases, ◌&&◌, none, some, inl, inr, List, [], ◌∷◌, leb,
  ◌==◌, number_keys, text_keys, filter, map, All, arith,
}
use agentforgev.Common.Dict.{
  Dict, keys, values, lookup, insert, lookup-insert, lookup-behind, IsDistinct, insert-IsDistinct,
}
use agentforgev.Common.Sort.{sort_by}
use agentforgev.Common.Sort.Sums.{total-sort_by}
use agentforgev.Usage.{
  UsageRecord, UsageStore, list_usage, BreakdownEntry, get_or, add_at, sums_by, leb_text, group_sum,
  total_of, user_key, usage_report,
}

abbrev pub of_key : (UsageRecord → String) → String → List UsageRecord → List UsageRecord
of_key key k rs = filter (λ r. key r == k) rs

abbrev sum : List ℕ → ℕ
sum ns = total_of (λ n. n) ns

module _ (key : UsageRecord → String) (amount : UsageRecord → ℕ) where
  get_or-sums_by :
      (k : String) (rs : List UsageRecord) (d : Dict String ℕ)
      → get_or 0 (lookup k (sums_by key amount rs d))
        ≡ get_or 0 (lookup k d) + total_of amount (of_key key k rs)
  get_or-sums_by k [] d = omega arith
  get_or-sums_by k (r ∷ rs) d = elim (Bool-cases (key r == k)) [
    | inl same ↦
        (let q : key r ≡ k = (text_keys.equals_iff (key r) k).0 same in
          let at : lookup k (add_at (key r) (amount r) d)
              ≡ some (get_or 0 (lookup (key r) d) + amount r) =
            lookup-insert (key r) k _ d ∙ rw same refl in
          let here : get_or 0 (lookup k (add_at (key r) (amount r) d))
              ≡ get_or 0 (lookup (key r) d) + amount r =
            ap (get_or 0) at in
          let there : get_or 0 (lookup (key r) d) ≡ get_or 0 (lookup k d) =
            ap (λ j. get_or 0 (lookup j d)) q in
          rw same (omega (arith, get_or-sums_by k rs (add_at (key r) (amount r) d), here, there)))
    | inr other ↦
        (let at : lookup k (add_at (key r) (amount r) d) ≡ lookup k d =
            lookup-insert (key r) k _ d ∙ rw other refl in
          let here : get_or 0 (lookup k (add_at (key r) (amount r) d)) ≡ get_or 0 (lookup k d) =
            ap (get_or 0) at in
          rw other (omega (arith, get_or-sums_by k rs (add_at (key r) (amount r) d), here)))
  ]

  sums_by-IsDistinct :
      (rs : List UsageRecord) (d : Dict String ℕ)
      → IsDistinct d
      → IsDistinct (sums_by key amount rs d)
  sums_by-IsDistinct [] d h = h
  sums_by-IsDistinct (r ∷ rs) d h =
      sums_by-IsDistinct rs (add_at (key r) (amount r) d) (insert-IsDistinct (key r) _ d h)

  sum-insert :
      (k : String) (v : ℕ) (d : Dict String ℕ)
      → sum (values (insert k v d)) + get_or 0 (lookup k d) ≡ sum (values d) + v
  sum-insert k v [] = omega arith
  sum-insert k v ((j, n) ∷ d) = elim (Bool-cases (j == k)) [
    | inl same ↦ rw same (omega arith)
    | inr other ↦ rw other (omega (arith, sum-insert k v d))
  ]

  sum-sums_by :
      (rs : List UsageRecord) (d : Dict String ℕ)
      → sum (values (sums_by key amount rs d)) ≡ sum (values d) + total_of amount rs
  sum-sums_by [] d = omega arith
  sum-sums_by (r ∷ rs) d = omega (
    arith,
    sum-sums_by rs (add_at (key r) (amount r) d),
    sum-insert (key r) (get_or 0 (lookup (key r) d) + amount r) d,
  )

-- Each entry is what its key leads to.
abbrev Agrees : Dict String ℕ → Dict String ℕ → Type 0
Agrees whole d = All (λ (k, n). lookup k whole ≡ some n) d

Agrees-behind :
    (j : String) (n : ℕ) (whole d : Dict String ℕ)
    → lookup j whole ≡ none
    → Agrees whole d
    → Agrees ((j, n) ∷ whole) d
Agrees-behind j n whole [] h a = tt
Agrees-behind j n whole ((k, m) ∷ d) h a =
    (lookup-behind j k n m whole h a.0, Agrees-behind j n whole d h a.1)

IsDistinct-Agrees : (d : Dict String ℕ) → IsDistinct d → Agrees d d
IsDistinct-Agrees [] h = tt
IsDistinct-Agrees ((j, n) ∷ d) h =
    (ground (arith, text_keys.equals_iff j j), Agrees-behind j n d d h.0 (IsDistinct-Agrees d h.1))

total_of-keys :
    (whole d : Dict String ℕ)
    → Agrees whole d
    → total_of (λ k. get_or 0 (lookup k whole)) (keys d) ≡ sum (values d)
total_of-keys whole [] a = refl
total_of-keys whole ((k, n) ∷ d) a =
    let q : get_or 0 (lookup k whole) ≡ n = ap (get_or 0) a.0 in
    omega (arith, q, total_of-keys whole d a.1)

keys-insert :
    (k : String) (v w : ℕ) (d e : Dict String ℕ)
    → keys d ≡ keys e
    → keys (insert k v d) ≡ keys (insert k w e)
keys-insert k v w [] [] h = refl
keys-insert k v w [] (x ∷ e) h = cc
keys-insert k v w (x ∷ d) [] h = cc
keys-insert k v w ((i, x) ∷ d) ((j, y) ∷ e) h =
    let q : i ≡ j = cc in
    let r : keys d ≡ keys e = cc in
    ground (arith, q, r, keys-insert k v w d e r, ap (λ s. s == k) q)

keys-sums_by :
    (key : UsageRecord → String) (a b : UsageRecord → ℕ) (rs : List UsageRecord)
    (d e : Dict String ℕ)
    → keys d ≡ keys e
    → keys (sums_by key a rs d) ≡ keys (sums_by key b rs e)
keys-sums_by key a b [] d e h = h
keys-sums_by key a b (r ∷ rs) d e h =
    keys-sums_by key a b rs (add_at (key r) (a r) d) (add_at (key r) (b r) e)
      (keys-insert (key r) _ _ d e h)

total_of-map :
    {A B : Type 0} (f : A → B) (amount : B → ℕ) (xs : List A)
    → total_of amount (map f xs) ≡ total_of (λ x. amount (f x)) xs
total_of-map f amount [] = refl
total_of-map f amount (x ∷ xs) = omega (arith, total_of-map f amount xs)

All-map :
    {A B : Type 0} (P : B → Type 0) (f : A → B) (xs : List A)
    → ((x : A) → P (f x))
    → All P (map f xs)
All-map P f [] h = tt
All-map P f (x ∷ xs) h = (h x, All-map P f xs h)

-- The sums of a key over all keys, sorted, are the sums over all records.
total_of-sorted_keys :
    (key : UsageRecord → String) (amount : UsageRecord → ℕ) (rs : List UsageRecord)
    → let d = sums_by key amount rs [] in
      total_of (λ k. get_or 0 (lookup k d)) (sort_by leb_text (keys d)) ≡ total_of amount rs
total_of-sorted_keys key amount rs =
    let d = sums_by key amount rs [] in
    let f : String → ℕ = λ k. get_or 0 (lookup k d) in
    let tail : 0 + total_of amount rs ≡ total_of amount rs = omega arith in
    total-sort_by leb_text f (total_of f) refl (λ x xs. refl) (keys d)
    ∙ total_of-keys d d (IsDistinct-Agrees d (sums_by-IsDistinct key amount rs [] tt))
    ∙ sum-sums_by key amount rs []
    ∙ tail

-- The entries of a breakdown: each adds up the records of its key, and together they add up to the totals.
abbrev pub IsPartition :
    (UsageRecord → String) → List UsageRecord → ℕ → ℕ → List BreakdownEntry → Type 0
IsPartition key records tokens cost entries =
    (total_of (λ e. e.total_tokens) entries ≡ tokens)
    × (total_of (λ e. e.total_cost) entries ≡ cost)
    × All
        (λ e.
          (e.total_tokens ≡ total_of (λ r. r.total_tokens) (of_key key e.key records))
          × (e.total_cost ≡ total_of (λ r. r.cost) (of_key key e.key records)))
        entries

group_sum-IsPartition :
    (key : UsageRecord → String) (rs : List UsageRecord)
    → IsPartition key rs
        (total_of (λ r. r.total_tokens) rs)
        (total_of (λ r. r.cost) rs)
        (group_sum rs key)
unfolding group_sum
group_sum-IsPartition key rs =
    let tokens : UsageRecord → ℕ = λ r. r.total_tokens in
    let costs : UsageRecord → ℕ = λ r. r.cost in
    let d = sums_by key tokens rs [] in
    let e = sums_by key costs rs [] in
    let entry : String → BreakdownEntry = λ k. record {
      key = k;
      total_tokens = get_or 0 (lookup k d);
      total_cost = get_or 0 (lookup k e);
    } in
    let ks = sort_by leb_text (keys d) in
    (
      total_of-map entry (λ x. x.total_tokens) ks ∙ total_of-sorted_keys key tokens rs,
      total_of-map entry (λ x. x.total_cost) ks
          ∙ ap (λ js. total_of (λ k. get_or 0 (lookup k e)) (sort_by leb_text js))
              (keys-sums_by key tokens costs rs [] [] refl)
          ∙ total_of-sorted_keys key costs rs,
      All-map
          (λ x.
            (x.total_tokens ≡ total_of tokens (of_key key x.key rs))
            × (x.total_cost ≡ total_of costs (of_key key x.key rs)))
          entry ks (λ k. (get_or_at k tokens, get_or_at k costs)),
    )
  where
    get_or_at :
        (k : String) (amount : UsageRecord → ℕ)
        → get_or 0 (lookup k (sums_by key amount rs [])) ≡ total_of amount (of_key key k rs)
    get_or_at k amount =
        let tail : 0 + total_of amount (of_key key k rs) ≡ total_of amount (of_key key k rs) =
          omega arith in
        get_or-sums_by key amount k rs [] ∙ tail

pub usage_report-IsPartition :
    (uuid_text : ℕ → String) (org start stop : ℕ) (s : UsageStore)
    → let report = usage_report uuid_text org start stop s in
      let records =
        filter (λ r. (r.org_id == org) && leb start r.created_at && leb r.created_at stop) s in
      IsPartition (λ r. r.provider) records report.total_tokens report.total_cost report.by_provider
      × IsPartition (λ r. r.model) records report.total_tokens report.total_cost report.by_model
      × IsPartition
          (λ r. user_key uuid_text r.user_id)
          records
          report.total_tokens
          report.total_cost
          report.by_user
unfolding usage_report list_usage
usage_report-IsPartition uuid_text org start stop s =
    let records =
      filter (λ r. (r.org_id == org) && leb start r.created_at && leb r.created_at stop) s in
    (
      group_sum-IsPartition (λ r. r.provider) records,
      group_sum-IsPartition (λ r. r.model) records,
      group_sum-IsPartition (λ r. user_key uuid_text r.user_id) records,
    )
