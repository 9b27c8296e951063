-- ===== src/Identity/Tests.antt =====
-- Runs of the store of enterprise/identity.py.
use agentforgev.Common.{◌≡◌, refl, some, List, [], ◌∷◌}
use agentforgev.Enterprise.Rbac.{owner, member}
use agentforgev.Identity.{
  create_user, create_organization, add_membership, update_membership_role, remove_membership,
  get_membership, refused, last_owner, orphans_owner, get_user_by_email,
}
use agentforgev.Identity.Teams.{create_team, add_team_member, list_team_members, get_team}
use agentforgev.Identity.Calls.{
  Call, call_all, no_identities, user_call, organization_call, join_call, role_call, remove_call,
  team_call, team_join_call,
}
use agentforgev.Identity.Owners.{HasOwner, HasOwner-call_all}
use agentforgev.Identity.Histories.{IsConsistent, call_all-IsConsistent}
use agentforgev.Common.Sort.{sort_by}

-- Two users of an organization, the first its owner, and a team of both.
abbrev opened : List Call
opened =
    user_call 1 10 "a@x" "h1"
    ∷ user_call 2 11 "b@x" "h2"
    ∷ organization_call 7 12 "Acme"
    ∷ join_call 13 1 7 owner
    ∷ join_call 14 2 7 member
    ∷ team_call 5 15 7 "Ops"
    ∷ team_join_call 16 5 1
    ∷ team_join_call 17 5 2
    ∷ []

-- The owner asks to step down and to leave, and the other user is removed.
abbrev changed : List Call
changed = role_call 1 7 member ∷ remove_call 1 7 ∷ remove_call 2 7 ∷ []

HasOwner-call_all_example : HasOwner 7 (call_all changed (call_all opened no_identities))
unfolding get_membership create_user create_organization add_membership create_team add_team_member
HasOwner-call_all_example =
    HasOwner-call_all 7 opened changed
      (1, record { user_id = 1; org_id = 7; role = owner; created_at = 13 }, refl, refl)

call_all-IsConsistent_example : IsConsistent (call_all opened no_identities)
unfolding create_user create_organization add_membership
call_all-IsConsistent_example =
    call_all-IsConsistent opened (tt, (tt, (tt, (tt, (tt, (refl, (tt, (tt, tt))))))))

refuses_last_owner :
    (update_membership_role 1 7 member (call_all opened no_identities)).0 ≡ refused last_owner
unfolding create_user create_organization add_membership create_team add_team_member
    update_membership_role orphans_owner
refuses_last_owner = refl

leaves_the_team :
    list_team_members 7 5 (call_all (remove_call 2 7 ∷ []) (call_all opened no_identities))
    ≡ record { team_id = 5; user_id = 1; created_at = 16 } ∷ []
unfolding create_user create_organization add_membership create_team add_team_member
    remove_membership orphans_owner get_team sort_by
leaves_the_team = refl

found_by_email :
    get_user_by_email "b@x" (call_all opened no_identities)
    ≡ some record { id = 2; email = "b@x"; password_hash = "h2"; created_at = 11 }
unfolding get_user_by_email create_user create_organization add_membership create_team
    add_team_member
found_by_email = refl
