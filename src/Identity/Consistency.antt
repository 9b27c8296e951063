-- ===== src/Identity/Consistency.antt =====
-- enterprise/identity.py: the indexes agree with the rows, and team members belong to the organization.
use agentforgev.Common.{
  ℕ, ◌≡◌, ◌≢◌, sym, ap, ◌∙◌, String, true, false, Bool-cases, inl, inr, ◌&&◌, Option, none, some,
  [], ◌∷◌, ◌==◌, number_keys, text_keys, pair_keys, filter, map, arith,
}
use agentforgev.Common.Dict.{
  Dict, values, lookup, insert, erase, has_key, remove_where, IsDistinct, lookup-of_not_has_key,
  lookup-of_insert, insert-IsDistinct, erase-IsDistinct, lookup-insert_self, lookup-insert_ne,
  lookup-erase_ne, lookup-erase_self, has_key-insert, has_key-erase_ne, has_key-of_remove_where,
}
use agentforgev.Identity.{
  User, Team, Membership, TeamMembership, IdentityStore, contains, org_team_ids,
}

pub record UsersAgree (users : Dict ℕ User) (by_email : Dict String ℕ) : Type 0 where
  pub mailed : (u : ℕ) (x : User) → lookup u users ≡ some x → lookup x.email by_email ≡ some u

pub record TeamsAgree (teams : Dict ℕ Team) (by_name : Dict (ℕ × String) ℕ) : Type 0 where
  pub distinct : IsDistinct teams
  pub keyed : (t : ℕ) (x : Team) → lookup t teams ≡ some x → x.id ≡ t
  pub named :
      (t : ℕ) (x : Team) → lookup t teams ≡ some x → lookup (x.org_id, x.name) by_name ≡ some t

-- Whoever is in a team is a member of the organization of the team, which exists.
abbrev pub TeamsBelong :
    Dict ℕ Team → Dict (ℕ × ℕ) TeamMembership → Dict (ℕ × ℕ) Membership → Type 0
TeamsBelong teams team_memberships memberships =
    (t u : ℕ)
    → has_key (t, u) team_memberships ≡ true
    → (x : Team) × (lookup t teams ≡ some x) × (has_key (u, x.org_id) memberships ≡ true)

-- A key that is not there differs from one that is.
ne_of_absent :
    {K V : Type 0} (f : K → Option V) (j k : K) (v : V) → f j ≡ none → f k ≡ some v → j ≢ k
ne_of_absent f j k v a b e = cc (a, b, ap f e)

pub insert-UsersAgree :
    (id : ℕ) (x : User) (users : Dict ℕ User) (by_email : Dict String ℕ)
    → has_key x.email by_email ≡ false
    → UsersAgree users by_email
    → UsersAgree (insert id x users) (insert x.email id by_email)
insert-UsersAgree id x users by_email new h = record {
  mailed = λ u y l. elim (lookup-of_insert id u x y users l) [
    | inl (q, r) ↦ rw (← r) (rw (← q) (lookup-insert_self x.email id by_email))
    | inr (q, l') ↦
        lookup-insert_ne x.email y.email id by_email (
          ne_of_absent (λ k. lookup k by_email) x.email y.email u
            (lookup-of_not_has_key x.email by_email new) (h.mailed u y l'))
        ∙ h.mailed u y l'
  ];
}

pub insert-TeamsAgree :
    (x : Team) (teams : Dict ℕ Team) (by_name : Dict (ℕ × String) ℕ)
    → has_key (x.org_id, x.name) by_name ≡ false
    → TeamsAgree teams by_name
    → TeamsAgree (insert x.id x teams) (insert (x.org_id, x.name) x.id by_name)
insert-TeamsAgree x teams by_name new h = record {
  distinct = insert-IsDistinct x.id x teams h.distinct;
  keyed = λ t y l. elim (lookup-of_insert x.id t x y teams l) [
    | inl (q, r) ↦ sym (ap (λ z. z.id) r) ∙ q
    | inr (q, l') ↦ h.keyed t y l'
  ];
  named = λ t y l. elim (lookup-of_insert x.id t x y teams l) [
    | inl (q, r) ↦ rw (← r) (rw (← q) (lookup-insert_self (x.org_id, x.name) x.id by_name))
    | inr (q, l') ↦
        lookup-insert_ne (x.org_id, x.name) (y.org_id, y.name) x.id by_name
          (ne_of_absent (λ k. lookup k by_name) (x.org_id, x.name) (y.org_id, y.name) t
            (lookup-of_not_has_key (x.org_id, x.name) by_name new) (h.named t y l'))
        ∙ h.named t y l'
  ];
}

-- What `erase` leaves was there, under another key.
lookup-of_erase :
    (team t : ℕ) (y : Team) (teams : Dict ℕ Team)
    → IsDistinct teams
    → lookup t (erase team teams) ≡ some y
    → (team ≢ t) × (lookup t teams ≡ some y)
lookup-of_erase team t y teams d l = elim (Bool-cases (team == t)) [
  | inl same ↦
      (let q : team ≡ t = (number_keys.equals_iff team t).0 same in
        let n : lookup t (erase t teams) ≡ none = lookup-erase_self t teams d in
        cc (l, n, ap (λ k. lookup t (erase k teams)) q))
  | inr other ↦
      (let ne : team ≢ t = λ q. cc (other, (number_keys.equals_iff team t).1 q) in
        (ne, sym (lookup-erase_ne team t teams ne) ∙ l))
]

pub erase-TeamsAgree :
    (team : ℕ) (x : Team) (teams : Dict ℕ Team) (by_name : Dict (ℕ × String) ℕ)
    → lookup team teams ≡ some x
    → TeamsAgree teams by_name
    → TeamsAgree (erase team teams) (erase (x.org_id, x.name) by_name)
erase-TeamsAgree team x teams by_name e h = record {
  distinct = erase-IsDistinct team teams h.distinct;
  keyed = λ t y l. h.keyed t y (lookup-of_erase team t y teams h.distinct l).1;
  named = λ t y l.
      let (ne, l') = lookup-of_erase team t y teams h.distinct l in
      let other : ◌≢◌ {A = ℕ × String} (x.org_id, x.name) (y.org_id, y.name) =
        λ q. ne (cc (h.named team x e, h.named t y l', ap (λ k. lookup k by_name) q)) in
      lookup-erase_ne (x.org_id, x.name) (y.org_id, y.name) by_name other ∙ h.named t y l';
}

pub insert_team-TeamsBelong :
    (x : Team) (teams : Dict ℕ Team) (team_memberships : Dict (ℕ × ℕ) TeamMembership)
    (memberships : Dict (ℕ × ℕ) Membership)
    → lookup x.id teams ≡ none
    → TeamsBelong teams team_memberships memberships
    → TeamsBelong (insert x.id x teams) team_memberships memberships
insert_team-TeamsBelong x teams tm ms fresh h t u k =
    let (y, l, m) = h t u k in
    (
      y,
      lookup-insert_ne x.id t x teams (ne_of_absent (λ j. lookup j teams) x.id t y fresh l) ∙ l,
      m,
    )

pub insert_member-TeamsBelong :
    (k : ℕ × ℕ) (x : Membership) (teams : Dict ℕ Team)
    (team_memberships : Dict (ℕ × ℕ) TeamMembership) (memberships : Dict (ℕ × ℕ) Membership)
    → TeamsBelong teams team_memberships memberships
    → TeamsBelong teams team_memberships (insert k x memberships)
insert_member-TeamsBelong k x teams tm ms h t u j =
    let (y, l, m) = h t u j in (y, l, ground (arith, has_key-insert k (u, y.org_id) x ms, m))

pub join-TeamsBelong :
    (team user : ℕ) (x : Team) (y : TeamMembership) (teams : Dict ℕ Team)
    (team_memberships : Dict (ℕ × ℕ) TeamMembership) (memberships : Dict (ℕ × ℕ) Membership)
    → lookup team teams ≡ some x
    → has_key (user, x.org_id) memberships ≡ true
    → TeamsBelong teams team_memberships memberships
    → TeamsBelong teams (insert (team, user) y team_memberships) memberships
join-TeamsBelong team user x y teams tm ms l m h t u k =
    elim (Bool-cases ((team == t) && (user == u))) [
      | inl same ↦
          (let q : team ≡ t = ground (arith, number_keys.equals_iff team t) in
            let r : user ≡ u = ground (arith, number_keys.equals_iff user u) in
            (x, rw (← q) l, rw (← r) m))
      | inr other ↦ h t u (ground (arith, has_key-insert (team, user) (t, u) y tm))
    ]

pub erase_team-TeamsBelong :
    (team : ℕ) (teams : Dict ℕ Team) (team_memberships : Dict (ℕ × ℕ) TeamMembership)
    (memberships : Dict (ℕ × ℕ) Membership)
    → TeamsBelong teams team_memberships memberships
    → TeamsBelong
        (erase team teams)
        (remove_where (λ (k, user). k == team) team_memberships)
        memberships
erase_team-TeamsBelong team teams tm ms h t u k =
    let (k', p) = has_key-of_remove_where (λ (k, user). k == team) (t, u) tm k in
    let (y, l, m) = h t u k' in
    let ne : team ≢ t = λ q. cc (p, (number_keys.equals_iff t team).1 (sym q)) in
    (y, lookup-erase_ne team t teams ne ∙ l, m)

contains-org_team_ids :
    (org t : ℕ) (x : Team) (teams : Dict ℕ Team)
    → lookup t teams ≡ some x
    → x.id ≡ t
    → x.org_id ≡ org
    → contains t (map (λ y. y.id) (filter (λ y. y.org_id == org) (values teams))) ≡ true
contains-org_team_ids org t x [] l i o = cc
contains-org_team_ids org t x ((j, y) ∷ d) l i o = ground (arith, contains-org_team_ids org t x d)

pub remove_member-TeamsBelong :
    (user org : ℕ) (s : IdentityStore)
    → ((t : ℕ) (x : Team) → lookup t s.teams ≡ some x → x.id ≡ t)
    → TeamsBelong s.teams s.team_memberships s.memberships
    → TeamsBelong s.teams
        (remove_where
          (λ (team, uid). (uid == user) && contains team (org_team_ids org s))
          s.team_memberships)
        (erase (user, org) s.memberships)
remove_member-TeamsBelong user org s keyed h t u k =
    let (k', p) =
      has_key-of_remove_where (λ (team, uid). (uid == user) && contains team (org_team_ids org s))
        (t, u) s.team_memberships k in
    let (x, l, m) = h t u k' in
    let ne : ◌≢◌ {A = ℕ × ℕ} (user, org) (u, x.org_id) = λ q. not_both x l p q in
    (x, l, has_key-erase_ne (user, org) (u, x.org_id) s.memberships ne m)
  where
    not_both :
        (x : Team)
        → lookup t s.teams ≡ some x
        → ((u == user) && contains t (org_team_ids org s)) ≡ false
        → ◌≡◌ {A = ℕ × ℕ} (user, org) (u, x.org_id)
        → ⊥
    not_both x l p q = ground (
      arith,
      contains-org_team_ids org t x s.teams l (keyed t x l) (sym (ap (λ j. j.1) q)),
      number_keys.equals_iff u user,
      ap (λ (j : ℕ × ℕ). j.0) q,
    )
