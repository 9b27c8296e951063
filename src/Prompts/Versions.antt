-- ===== src/Prompts/Versions.antt =====
-- The versions that observability/prompt_registry/registry.py gives out for each prompt of each organization.
use agentforgev.Common.{
  ℕ, zero, suc, max, ◌+◌, ◌≤◌, ◌<◌, ◌≡◌, ◌∙◌, refl, sym, ap, String, Bool, Bool-cases, inl, inr,
  true, Option, none, some, List, [], ◌∷◌, ◌++◌, arith, leb, number_keys, text_keys, length, All,
  filter, map, append_nil, append_assoc, if◌then◌else◌,
}
use agentforgev.Common.Sort.{sort_by, sort_by-of_IsSorted, IsSorted}
use agentforgev.Prompts.{
  PromptVersion, PromptStore, is_for, versions_for, greatest, next_version_number, first_numbered,
  newest, newest_of, list_versions, create_version, get_prompt,
}

-- A call of `create_version`, with the identifier and the time that it draws.
pub record Draft : Type 0 where
  pub id : ℕ
  pub now : ℕ
  pub org_id : ℕ
  pub template_name : String
  pub body : String
  pub variables : List String

abbrev pub create_all : List Draft → PromptStore → PromptStore
create_all [] st = st
create_all (d ∷ ds) st =
    create_all ds (create_version d.id d.now d.org_id d.template_name d.body d.variables st).1

-- The calls for one prompt of one organization.
abbrev pub drafts_for : ℕ → String → List Draft → List Draft
drafts_for org name ds = filter (λ d. is_for org name d.org_id d.template_name) ds

abbrev pub version_of : ℕ → Draft → PromptVersion
version_of n d = record {
  id = d.id;
  org_id = d.org_id;
  template_name = d.template_name;
  version = n;
  body = d.body;
  variables = d.variables;
  created_at = d.now;
}

-- The versions numbered from `n` on.
abbrev pub version_all : ℕ → List Draft → List PromptVersion
version_all n [] = []
version_all n (d ∷ ds) = version_of n d ∷ version_all (n + 1) ds

abbrev pub numbers_from : ℕ → ℕ → List ℕ
numbers_from n zero = []
numbers_from n (suc k) = n ∷ numbers_from (n + 1) k

version_all-append :
    (n : ℕ) (ds : List Draft) (d : Draft)
    → version_all n (ds ++ d ∷ []) ≡ version_all n ds ++ version_of (n + length ds) d ∷ []
version_all-append n [] d = ap (λ m. version_of m d ∷ []) (omega arith)
version_all-append n (e ∷ ds) d =
    let q : n + 1 + length ds ≡ n + suc (length ds) = omega arith in
    ap (λ vs. version_of n e ∷ vs)
      (version_all-append (n + 1) ds d ∙ ap (λ m. version_all (n + 1) ds ++ version_of m d ∷ []) q)

greatest-version_all :
    (n : ℕ) (ds : List Draft)
    → max n (greatest (map (λ v. v.version) (version_all (n + 1) ds))) ≡ n + length ds
greatest-version_all n [] = omega arith
greatest-version_all n (d ∷ ds) = omega (arith, greatest-version_all (n + 1) ds)

abbrev pub get_elem? : {A : Type 0} → ℕ → List A → Option A
get_elem? n [] = none
get_elem? zero (x ∷ xs) = some x
get_elem? (suc n) (x ∷ xs) = get_elem? n xs

abbrev pub last_of : {A : Type 0} → List A → Option A
last_of [] = none
last_of (x ∷ []) = some x
last_of (x ∷ y ∷ ys) = last_of (y ∷ ys)

filter-append_one :
    {A : Type 0} (p : A → Bool) (xs : List A) (x : A)
    → filter p (xs ++ x ∷ []) ≡ filter p xs ++ (if p x then x ∷ [] else [])
filter-append_one p [] x = refl
filter-append_one p (y ∷ ys) x = ground (arith, filter-append_one p ys x)

next_version_number-version_all :
    (org : ℕ) (name : String) (old : List Draft) (st : PromptStore)
    → versions_for org name st ≡ version_all 1 old
    → next_version_number org name st ≡ 1 + length old
next_version_number-version_all org name old st h =
    let q : greatest (map (λ v. v.version) (versions_for org name st)) ≡ length old =
      rw h (omega (arith, greatest-version_all 0 old)) in
    omega (arith, q)

-- The store of one prompt after the calls `ds`, when `old` are the calls made for it before.
module _ (org : ℕ) (name : String) where
  added :
      (d : Draft) (old : List Draft) (st : PromptStore)
      → is_for org name d.org_id d.template_name ≡ true
      → versions_for org name st ≡ version_all 1 old
      → versions_for org name
          (st ++ version_of (next_version_number d.org_id d.template_name st) d ∷ [])
        ≡ version_all 1 (old ++ d ∷ [])
  added d old st same h =
      let owner : d.org_id ≡ org = ground (arith, number_keys.equals_iff d.org_id org) in
      let template : d.template_name ≡ name =
        ground (arith, text_keys.equals_iff d.template_name name) in
      let number : next_version_number d.org_id d.template_name st ≡ 1 + length old =
        rw owner (rw template (next_version_number-version_all org name old st h)) in
      let here : versions_for org name
            (st ++ version_of (next_version_number d.org_id d.template_name st) d ∷ [])
          ≡ versions_for org name st
            ++ version_of (next_version_number d.org_id d.template_name st) d ∷ [] =
        filter-append_one (λ v. is_for org name v.org_id v.template_name) st
          (version_of (next_version_number d.org_id d.template_name st) d)
        ∙ rw same refl in
      here
      ∙ ap (λ n. versions_for org name st ++ version_of n d ∷ []) number
      ∙ ap (λ vs. vs ++ version_of (1 + length old) d ∷ []) h
      ∙ sym (version_all-append 1 old d)

  versions_for-create_all :
      (ds old : List Draft) (st : PromptStore)
      → versions_for org name st ≡ version_all 1 old
      → versions_for org name (create_all ds st) ≡ version_all 1 (old ++ drafts_for org name ds)
  unfolding create_version
  versions_for-create_all [] old st h = h ∙ ap (version_all 1) (sym (append_nil old))
  versions_for-create_all (d ∷ ds) old st h =
      let v = version_of (next_version_number d.org_id d.template_name st) d in
      let st' = st ++ v ∷ [] in
      elim (Bool-cases (is_for org name d.org_id d.template_name)) [
        | inl same ↦
            (rw same (
              versions_for-create_all ds (old ++ d ∷ []) st' (added d old st same h)
              ∙ ap (version_all 1) (append_assoc old (d ∷ []) (drafts_for org name ds))))
        | inr other ↦
            (let kept : versions_for org name st' ≡ versions_for org name st =
                filter-append_one (λ u. is_for org name u.org_id u.template_name) st v
                ∙ rw other (append_nil (versions_for org name st)) in
              rw other (versions_for-create_all ds old st' (kept ∙ h)))
      ]

newest-version_all :
    (n : ℕ) (d : Draft) (ds : List Draft)
    → some (newest (version_of n d) (version_all (n + 1) ds)) ≡ last_of (version_all n (d ∷ ds))
newest-version_all n d [] = refl
newest-version_all n d (e ∷ ds) = ground (arith, newest-version_all (n + 1) e ds)

newest_of-version_all :
    (n : ℕ) (ds : List Draft) → newest_of (version_all n ds) ≡ last_of (version_all n ds)
newest_of-version_all n [] = refl
newest_of-version_all n (d ∷ ds) = newest-version_all n d ds

first_numbered-version_all :
    (n i : ℕ) (ds : List Draft)
    → first_numbered (n + i) (version_all n ds) ≡ get_elem? i (version_all n ds)
first_numbered-version_all n i [] = refl
first_numbered-version_all n zero (d ∷ ds) = ground arith
first_numbered-version_all n (suc i) (d ∷ ds) =
    let q : n + 1 + i ≡ n + suc i = omega arith in
    ground (arith, first_numbered-version_all (n + 1) i ds, q)

first_numbered_below :
    (n m : ℕ) (ds : List Draft) → n < m → first_numbered n (version_all m ds) ≡ none
first_numbered_below n m [] h = refl
first_numbered_below n m (d ∷ ds) h = ground (arith, first_numbered_below n (m + 1) ds)

map-version_all :
    (n : ℕ) (ds : List Draft) → map (λ v. v.version) (version_all n ds) ≡ numbers_from n (length ds)
map-version_all n [] = refl
map-version_all n (d ∷ ds) = ap (λ ns. n ∷ ns) (map-version_all (n + 1) ds)

numbers_from_above : (m n k : ℕ) → m ≤ n → All (λ i. leb m i ≡ true) (numbers_from n k)
numbers_from_above m n zero h = tt
numbers_from_above m n (suc k) h = (ground arith, numbers_from_above m (n + 1) k (omega arith))

numbers_from-IsSorted : (n k : ℕ) → IsSorted leb (numbers_from n k)
numbers_from-IsSorted n zero = tt
numbers_from-IsSorted n (suc k) =
    (numbers_from_above n (n + 1) k (omega arith), numbers_from-IsSorted (n + 1) k)

-- Create any prompts, for any organizations and under any names, from the empty store. The versions of one
-- prompt of one organization are numbered 1, 2, 3 up to the number of the calls made for it, with no gap and
-- no repetition, whatever was created for other prompts and other organizations in between. The version `n`
-- of the prompt is what the n-th of those calls created, and no other number is found; without a number
-- the registry answers with what the last of them created, and with `not_found` if there was none.
pub create_version_numbers :
    (org : ℕ) (name : String) (ds : List Draft)
    → (list_versions org name (create_all ds []) ≡ numbers_from 1 (length (drafts_for org name ds)))
      × ((i : ℕ)
          → get_prompt org name (some (1 + i)) (create_all ds [])
            ≡ get_elem? i (version_all 1 (drafts_for org name ds)))
      × (get_prompt org name (some 0) (create_all ds []) ≡ none)
      × (get_prompt org name none (create_all ds [])
          ≡ last_of (version_all 1 (drafts_for org name ds)))
unfolding list_versions get_prompt
create_version_numbers org name ds =
    let mine = drafts_for org name ds in
    let all : versions_for org name (create_all ds []) ≡ version_all 1 mine =
      versions_for-create_all org name ds [] [] refl in
    (
      ap (λ vs. sort_by leb (map (λ v. v.version) vs)) all
          ∙ ap (sort_by leb) (map-version_all 1 mine)
          ∙ sort_by-of_IsSorted leb (numbers_from 1 (length mine))
              (numbers_from-IsSorted 1 (length mine)),
      (λ i. ap (first_numbered (1 + i)) all ∙ first_numbered-version_all 1 i mine),
      ap (first_numbered 0) all ∙ first_numbered_below 0 1 mine (omega arith),
      ap newest_of all ∙ newest_of-version_all 1 mine,
    )
