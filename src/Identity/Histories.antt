-- ===== src/Identity/Histories.antt =====
-- enterprise/identity.py: what holds of the store after any calls.
use agentforgev.Common.{
  ℕ, ◌≡◌, refl, String, Bool-cases, Option-cases, inl, inr, Option, none, some, List, [], ◌∷◌,
  number_keys, text_keys, pair_keys, arith,
}
use agentforgev.Common.Dict.{lookup, insert, has_key, has_key-of_erase}
use agentforgev.Enterprise.Rbac.{Role}
use agentforgev.Identity.{
  Team, Membership, IdentityStore, orphans_owner, org_roles, create_user, create_organization,
  add_membership, update_membership_role, set_found_role, remove_membership,
}
use agentforgev.Identity.Teams.{
  create_team, add_team_member, add_to_team, if_in_org, delete_team, delete_found_team,
  remove_team_member, leave_team, get_team,
}
use agentforgev.Identity.Calls.{
  Call, call, call_all, no_identities, user_call, organization_call, join_call, role_call,
  remove_call, team_call, team_join_call, team_delete_call, team_leave_call,
}
use agentforgev.Identity.Consistency.{
  UsersAgree, insert-UsersAgree, TeamsAgree, insert-TeamsAgree, erase-TeamsAgree, TeamsBelong,
  insert_team-TeamsBelong, insert_member-TeamsBelong, join-TeamsBelong, erase_team-TeamsBelong,
  remove_member-TeamsBelong,
}

pub record IsConsistent (s : IdentityStore) : Type 0 where
  pub users_agree : UsersAgree s.users s.users_by_email
  pub teams_agree : TeamsAgree s.teams s.teams_by_org_name
  pub teams_belong : TeamsBelong s.teams s.team_memberships s.memberships

-- `uuid4` draws no identifier of a team that is there.
abbrev pub IsFresh : Call → IdentityStore → Type 0
IsFresh (team_call id now org name) s = lookup id s.teams ≡ none
IsFresh c s = Unit

abbrev pub AllFresh : List Call → IdentityStore → Type 0
AllFresh [] s = Unit
AllFresh (c ∷ cs) s = IsFresh c s × AllFresh cs (call c s)

create_user-IsConsistent :
    (id now : ℕ) (email password_hash : String) (s : IdentityStore)
    → IsConsistent s
    → IsConsistent (create_user id now email password_hash s).1
unfolding create_user
create_user-IsConsistent id now email password_hash s h =
    elim (Bool-cases (has_key email s.users_by_email)) [
      | inl q ↦ rw q h
      | inr q ↦ rw q (record {
        users_agree =
            insert-UsersAgree id
              record { id = id; email = email; password_hash = password_hash; created_at = now }
              s.users s.users_by_email q h.users_agree;
        teams_agree = h.teams_agree;
        teams_belong = h.teams_belong;
      })
    ]

member_set :
    (k : ℕ × ℕ) (m : Membership) (s : IdentityStore)
    → IsConsistent s
    → IsConsistent (record s { memberships = insert k m s.memberships })
member_set k m s h = record {
  users_agree = h.users_agree;
  teams_agree = h.teams_agree;
  teams_belong =
      insert_member-TeamsBelong k m s.teams s.team_memberships s.memberships h.teams_belong;
}

add_membership-IsConsistent :
    (now user org : ℕ) (role : Role) (s : IdentityStore)
    → IsConsistent s
    → IsConsistent (add_membership now user org role s).1
unfolding add_membership
add_membership-IsConsistent now user org role s h =
    elim (Bool-cases (has_key (user, org) s.memberships)) [
      | inl q ↦ rw q h
      | inr q ↦ rw q (member_set (user, org) _ s h)
    ]

set_found_role-IsConsistent :
    (old : Option Membership) (user org : ℕ) (role : Role) (s : IdentityStore)
    → IsConsistent s
    → IsConsistent (set_found_role old user org role s).1
set_found_role-IsConsistent none user org role s h = h
set_found_role-IsConsistent (some old) user org role s h =
    elim (Bool-cases (orphans_owner (org_roles org s) user (some role))) [
      | inl q ↦ rw q h
      | inr q ↦ rw q (member_set (user, org) _ s h)
    ]

remove_membership-IsConsistent :
    (user org : ℕ) (s : IdentityStore)
    → IsConsistent s
    → IsConsistent (remove_membership user org s).1
unfolding remove_membership
remove_membership-IsConsistent user org s h =
    elim (Bool-cases (has_key (user, org) s.memberships)) [
      | inr q ↦ rw q h
      | inl q ↦ elim (Bool-cases (orphans_owner (org_roles org s) user none)) [
        | inl o ↦ rw q (rw o h)
        | inr o ↦ rw q (
            rw o (record {
              users_agree = h.users_agree;
              teams_agree = h.teams_agree;
              teams_belong =
                  remove_member-TeamsBelong user org s h.teams_agree.keyed h.teams_belong;
            }))
      ]
    ]

create_team-IsConsistent :
    (id now org : ℕ) (name : String) (s : IdentityStore)
    → lookup id s.teams ≡ none
    → IsConsistent s
    → IsConsistent (create_team id now org name s).1
unfolding create_team
create_team-IsConsistent id now org name s fresh h =
    let team : Team = record { id = id; org_id = org; name = name; created_at = now } in
    elim (Bool-cases (has_key (org, name) s.teams_by_org_name)) [
      | inl q ↦ rw q h
      | inr q ↦ rw q (record {
        users_agree = h.users_agree;
        teams_agree = insert-TeamsAgree team s.teams s.teams_by_org_name q h.teams_agree;
        teams_belong =
            insert_team-TeamsBelong team s.teams s.team_memberships s.memberships fresh
              h.teams_belong;
      })
    ]

add_to_team-IsConsistent :
    (t : Option Team) (now team user : ℕ) (s : IdentityStore)
    → lookup team s.teams ≡ t
    → IsConsistent s
    → IsConsistent (add_to_team t now team user s).1
add_to_team-IsConsistent none now team user s l h = h
add_to_team-IsConsistent (some t) now team user s l h =
    elim (Bool-cases (has_key (user, t.org_id) s.memberships)) [
      | inr q ↦ rw q h
      | inl q ↦ rw q (elim (Option-cases (lookup (team, user) s.team_memberships)) [
        | inl e ↦ rw e (record {
          users_agree = h.users_agree;
          teams_agree = h.teams_agree;
          teams_belong =
              join-TeamsBelong team user t _ s.teams s.team_memberships s.memberships l q
                h.teams_belong;
        })
        | inr (m, e) ↦ rw e h
      ])
    ]

if_in_org-eq : (org : ℕ) (t : Option Team) (x : Team) → if_in_org org t ≡ some x → t ≡ some x
if_in_org-eq org none x h = cc
if_in_org-eq org (some y) x h = ground arith

delete_found_team-IsConsistent :
    (t : Option Team) (team : ℕ) (s : IdentityStore)
    → ((x : Team) → t ≡ some x → lookup team s.teams ≡ some x)
    → IsConsistent s
    → IsConsistent (delete_found_team t team s).1
delete_found_team-IsConsistent none team s l h = h
delete_found_team-IsConsistent (some t) team s l h = record {
  users_agree = h.users_agree;
  teams_agree = erase-TeamsAgree team t s.teams s.teams_by_org_name (l t refl) h.teams_agree;
  teams_belong =
      erase_team-TeamsBelong team s.teams s.team_memberships s.memberships h.teams_belong;
}

leave_team-IsConsistent :
    (t : Option Team) (team user : ℕ) (s : IdentityStore)
    → IsConsistent s
    → IsConsistent (leave_team t team user s).1
leave_team-IsConsistent none team user s h = h
leave_team-IsConsistent (some t) team user s h = record {
  users_agree = h.users_agree;
  teams_agree = h.teams_agree;
  teams_belong =
      λ k u j. h.teams_belong k u (has_key-of_erase (team, user) (k, u) s.team_memberships j);
}

call-IsConsistent :
    (c : Call) (s : IdentityStore) → IsFresh c s → IsConsistent s → IsConsistent (call c s)
unfolding create_organization update_membership_role add_team_member delete_team remove_team_member
    get_team
call-IsConsistent (user_call id now email password_hash) s f h =
    create_user-IsConsistent id now email password_hash s h
call-IsConsistent (organization_call id now name) s f h = record {
  users_agree = h.users_agree;
  teams_agree = h.teams_agree;
  teams_belong = h.teams_belong;
}
call-IsConsistent (join_call now user org role) s f h =
    add_membership-IsConsistent now user org role s h
call-IsConsistent (role_call user org role) s f h =
    set_found_role-IsConsistent (lookup (user, org) s.memberships) user org role s h
call-IsConsistent (remove_call user org) s f h = remove_membership-IsConsistent user org s h
call-IsConsistent (team_call id now org name) s f h = create_team-IsConsistent id now org name s f h
call-IsConsistent (team_join_call now team user) s f h =
    add_to_team-IsConsistent (lookup team s.teams) now team user s refl h
call-IsConsistent (team_delete_call org team) s f h =
    delete_found_team-IsConsistent (if_in_org org (lookup team s.teams)) team s
      (λ x. if_in_org-eq org (lookup team s.teams) x) h
call-IsConsistent (team_leave_call org team user) s f h =
    leave_team-IsConsistent (if_in_org org (lookup team s.teams)) team user s h

calls-IsConsistent :
    (cs : List Call) (s : IdentityStore)
    → AllFresh cs s
    → IsConsistent s
    → IsConsistent (call_all cs s)
calls-IsConsistent [] s f h = h
calls-IsConsistent (c ∷ cs) s f h =
    calls-IsConsistent cs (call c s) f.1 (call-IsConsistent c s f.0 h)

-- Make any calls of the store in any order, from the empty store, where no new team is given the identifier
-- of a team that is there. Then an email leads to the one user who has it, a team is found by its organization
-- and its name, so no two users share an email and no two teams of an organization a name; and whoever is
-- in a team is a member of the organization of the team, also after members and teams were removed.
pub call_all-IsConsistent :
    (cs : List Call) → AllFresh cs no_identities → IsConsistent (call_all cs no_identities)
call_all-IsConsistent cs f = calls-IsConsistent cs no_identities f (record {
  users_agree = record { mailed = λ u x l. absurd (cc l) };
  teams_agree = record {
    distinct = tt;
    keyed = λ t x l. absurd (cc l);
    named = λ t x l. absurd (cc l);
  };
  teams_belong = λ t u h. absurd (cc h);
})
