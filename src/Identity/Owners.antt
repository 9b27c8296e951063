-- ===== src/Identity/Owners.antt =====
-- enterprise/identity.py: an organization that has an owner keeps one.
use agentforgev.Common.{
  ℕ, ◌≡◌, ◌≢◌, refl, sym, ap, ◌∙◌, true, false, Bool-cases, inl, inr, ◌⊎◌, Option, none, some, List,
  [], ◌∷◌, ◌==◌, number_keys, pair_keys, arith,
}
use agentforgev.Common.Dict.{
  lookup, insert, erase, has_key, IsDistinct, lookup-of_not_has_key, insert-IsDistinct,
  erase-IsDistinct, lookup-insert_self, lookup-insert_ne, lookup-erase_ne,
}
use agentforgev.Enterprise.Rbac.{Role, owner}
use agentforgev.Identity.{
  Membership, IdentityStore, is_owner_or_none, orphans_owner, org_roles, create_user,
  create_organization, add_membership, update_membership_role, set_found_role, remove_membership,
  get_membership,
}
use agentforgev.Identity.Teams.{create_team, add_team_member, delete_team, remove_team_member}
use agentforgev.Identity.Calls.{
  Call, call, call_all, no_identities, user_call, organization_call, join_call, role_call,
  remove_call, team_call, team_join_call, team_delete_call, team_leave_call,
}
use agentforgev.Identity.Memberships.{
  Memberships, roles_in, IsKeyed, insert-IsKeyed, erase-IsKeyed, owner_seen, other_owner,
  is_owner-eq,
}

-- Each user has at most one membership of an organization, under the key of the two.
abbrev pub IsIndexed : Memberships → Type 0
IsIndexed d = IsKeyed d × IsDistinct d

abbrev pub Owned : ℕ → Memberships → Type 0
Owned org d = (user : ℕ) × (m : Membership) × (lookup (user, org) d ≡ some m) × (m.role ≡ owner)

abbrev pub HasOwner : ℕ → IdentityStore → Type 0
HasOwner org s =
    (user : ℕ) × (m : Membership) × (get_membership user org s ≡ some m) × (m.role ≡ owner)

-- What the test of the last owner leaves.
owner_left :
    (org user : ℕ) (new_role : Option Role) (d : Memberships)
    → IsIndexed d
    → Owned org d
    → orphans_owner (roles_in org d) user new_role ≡ false
    → (is_owner_or_none new_role ≡ true)
      ⊎ ((u : ℕ) × (m : Membership) × (lookup (u, org) d ≡ some m) × (m.role ≡ owner) × (u ≢ user))
unfolding orphans_owner
owner_left org user new_role d i (u, m, l, r) h = elim (Bool-cases (is_owner_or_none new_role)) [
  | inl q ↦ inl q
  | inr q ↦ inr (other_owner org user d i.0 i.1 (ground (arith, owner_seen org u m d i.0 l r)))
]

insert-Owned :
    (org u o : ℕ) (m : Membership) (d : Memberships)
    → IsIndexed d
    → Owned org d
    → orphans_owner (roles_in o d) u (some m.role) ≡ false
    → Owned org (insert (u, o) m d)
insert-Owned org u o m d i (v, n, l, r) h = elim (Bool-cases (o == org)) [
  | inl same ↦
      (let q : o ≡ org = (number_keys.equals_iff o org).0 same in
        elim (owner_left o u (some m.role) d i (v, n, rw q l, r) h) [
          | inl own ↦ (u, m, rw (← q) (lookup-insert_self (u, o) m d), is_owner-eq m.role own)
          | inr (w, k, lw, rk, ne) ↦ (
            w,
            k,
            rw (← q) (lookup-insert_ne (u, o) (w, o) m d (λ e. ne (sym (ap (λ p. p.0) e))) ∙ lw),
            rk,
          )
        ])
  | inr other ↦ (v, n, lookup-insert_ne (u, o) (v, org) m d (λ e. ground arith) ∙ l, r)
]

erase-Owned :
    (org u o : ℕ) (d : Memberships)
    → IsIndexed d
    → Owned org d
    → orphans_owner (roles_in o d) u none ≡ false
    → Owned org (erase (u, o) d)
erase-Owned org u o d i (v, n, l, r) h = elim (Bool-cases (o == org)) [
  | inl same ↦
      (let q : o ≡ org = (number_keys.equals_iff o org).0 same in
        elim (owner_left o u none d i (v, n, rw q l, r) h) [
          | inl own ↦ absurd (ground (arith, own))
          | inr (w, k, lw, rk, ne) ↦ (
            w,
            k,
            rw (← q) (lookup-erase_ne (u, o) (w, o) d (λ e. ne (sym (ap (λ p. p.0) e))) ∙ lw),
            rk,
          )
        ])
  | inr other ↦ (v, n, lookup-erase_ne (u, o) (v, org) d (λ e. ground arith) ∙ l, r)
]

insert_new-Owned :
    (org u o : ℕ) (m : Membership) (d : Memberships)
    → has_key (u, o) d ≡ false
    → Owned org d
    → Owned org (insert (u, o) m d)
insert_new-Owned org u o m d new (v, n, l, r) =
    (v, n, lookup-insert_ne (u, o) (v, org) m d (λ e. not_both e) ∙ l, r)
  where
    not_both : ◌≡◌ {A = ℕ × ℕ} (u, o) (v, org) → ⊥
    not_both e =
        let absent : lookup (u, o) d ≡ none = lookup-of_not_has_key (u, o) d new in
        cc (absent, l, ap (λ k. lookup k d) e)

-- What a call may do to the memberships.
record Kept (d d' : Memberships) : Type 0 where
  indexed : IsIndexed d → IsIndexed d'
  owned : (org : ℕ) → IsIndexed d → Owned org d → Owned org d'

unchanged : (d d' : Memberships) → d ≡ d' → Kept d d'
unchanged d d' e = rw (← e) (record { indexed = λ i. i; owned = λ org i o. o })

inserted :
    (u o : ℕ) (m : Membership) (d : Memberships)
    → ◌≡◌ {A = ℕ × ℕ} (u, o) (m.user_id, m.org_id)
    → ((org : ℕ) → IsIndexed d → Owned org d → Owned org (insert (u, o) m d))
    → Kept d (insert (u, o) m d)
inserted u o m d e own = record {
  indexed = λ i. (insert-IsKeyed (u, o) m d e i.0, insert-IsDistinct (u, o) m d i.1);
  owned = own;
}

set_found_role-Kept :
    (old : Option Membership) (user org : ℕ) (role : Role) (s : IdentityStore)
    → Kept s.memberships (set_found_role old user org role s).1.memberships
set_found_role-Kept none user org role s = unchanged _ _ refl
set_found_role-Kept (some old) user org role s =
    elim (Bool-cases (orphans_owner (org_roles org s) user (some role))) [
      | inl q ↦ rw q (unchanged _ _ refl)
      | inr q ↦ rw q (
          inserted user org
            record { user_id = user; org_id = org; role = role; created_at = old.created_at }
            s.memberships refl (λ org' i o. insert-Owned org' user org _ s.memberships i o q))
    ]

add_membership-Kept :
    (now user org : ℕ) (role : Role) (s : IdentityStore)
    → Kept s.memberships (add_membership now user org role s).1.memberships
unfolding add_membership
add_membership-Kept now user org role s = elim (Bool-cases (has_key (user, org) s.memberships)) [
  | inl q ↦ rw q (unchanged _ _ refl)
  | inr q ↦ rw q (
      inserted user org record { user_id = user; org_id = org; role = role; created_at = now }
        s.memberships refl (λ org' i o. insert_new-Owned org' user org _ s.memberships q o))
]

remove_membership-Kept :
    (user org : ℕ) (s : IdentityStore)
    → Kept s.memberships (remove_membership user org s).1.memberships
unfolding remove_membership
remove_membership-Kept user org s = elim (Bool-cases (has_key (user, org) s.memberships)) [
  | inr q ↦ rw q (unchanged _ _ refl)
  | inl q ↦ elim (Bool-cases (orphans_owner (org_roles org s) user none)) [
    | inl o ↦ rw q (rw o (unchanged _ _ refl))
    | inr o ↦ rw q (
        rw o (record {
          indexed = λ i. (
            erase-IsKeyed (user, org) s.memberships i.0,
            erase-IsDistinct (user, org) s.memberships i.1,
          );
          owned = λ org' i h. erase-Owned org' user org s.memberships i h o;
        }))
  ]
]

call-Kept : (c : Call) (s : IdentityStore) → Kept s.memberships (call c s).memberships
unfolding create_user create_organization create_team add_team_member delete_team remove_team_member
    update_membership_role
call-Kept (user_call id now email password_hash) s = unchanged _ _ (ground arith)
call-Kept (organization_call id now name) s = unchanged _ _ refl
call-Kept (join_call now user org role) s = add_membership-Kept now user org role s
call-Kept (role_call user org role) s =
    set_found_role-Kept (lookup (user, org) s.memberships) user org role s
call-Kept (remove_call user org) s = remove_membership-Kept user org s
call-Kept (team_call id now org name) s = unchanged _ _ (ground arith)
call-Kept (team_join_call now team user) s = unchanged _ _ (ground arith)
call-Kept (team_delete_call org team) s = unchanged _ _ (ground arith)
call-Kept (team_leave_call org team user) s = unchanged _ _ (ground arith)

call_all-Kept :
    (cs : List Call) (s : IdentityStore) → Kept s.memberships (call_all cs s).memberships
call_all-Kept [] s = unchanged _ _ refl
call_all-Kept (c ∷ cs) s =
    let a = call-Kept c s in
    let b = call_all-Kept cs (call c s) in
    record {
      indexed = λ i. b.indexed (a.indexed i);
      owned = λ org i o. b.owned org (a.indexed i) (a.owned org i o);
    }

-- Make any calls of the store, in any order, after which an organization has an owner; and then any further
-- calls, among them changes of the owner's role and removals of members. The organization still has an owner.
pub HasOwner-call_all :
    (org : ℕ) (before after : List Call)
    → HasOwner org (call_all before no_identities)
    → HasOwner org (call_all after (call_all before no_identities))
unfolding get_membership
HasOwner-call_all org before after o =
    (call_all-Kept after (call_all before no_identities)).owned org
      ((call_all-Kept before no_identities).indexed (tt, tt)) o
