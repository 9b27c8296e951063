-- ===== src/Identity/Calls.antt =====
-- enterprise/identity.py: the calls that change the store, in whatever order they come.
use agentforgev.Common.{ℕ, String, List, [], ◌∷◌}
use agentforgev.Enterprise.Rbac.{Role}
use agentforgev.Identity.{
  IdentityStore, create_user, create_organization, add_membership, update_membership_role,
  remove_membership,
}
use agentforgev.Identity.Teams.{create_team, add_team_member, delete_team, remove_team_member}

-- Each with its arguments, behind the identifier and the time that it draws.
pub data Call : Type 0 where
  user_call : ℕ → ℕ → String → String → Call
  organization_call : ℕ → ℕ → String → Call
  join_call : ℕ → ℕ → ℕ → Role → Call
  role_call : ℕ → ℕ → Role → Call
  remove_call : ℕ → ℕ → Call
  team_call : ℕ → ℕ → ℕ → String → Call
  team_join_call : ℕ → ℕ → ℕ → Call
  team_delete_call : ℕ → ℕ → Call
  team_leave_call : ℕ → ℕ → ℕ → Call

abbrev pub call : Call → IdentityStore → IdentityStore
call (user_call id now email password_hash) s = (create_user id now email password_hash s).1
call (organization_call id now name) s = (create_organization id now name s).1
call (join_call now user org role) s = (add_membership now user org role s).1
call (role_call user org role) s = (update_membership_role user org role s).1
call (remove_call user org) s = (remove_membership user org s).1
call (team_call id now org name) s = (create_team id now org name s).1
call (team_join_call now team user) s = (add_team_member now team user s).1
call (team_delete_call org team) s = (delete_team org team s).1
call (team_leave_call org team user) s = (remove_team_member org team user s).1

abbrev pub call_all : List Call → IdentityStore → IdentityStore
call_all [] s = s
call_all (c ∷ cs) s = call_all cs (call c s)

abbrev pub no_identities : IdentityStore
no_identities = record {
  users = [];
  users_by_email = [];
  orgs = [];
  memberships = [];
  teams = [];
  teams_by_org_name = [];
  team_memberships = [];
}
