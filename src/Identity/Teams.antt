-- ===== src/Identity/Teams.antt =====
-- enterprise/identity.py: the operations on teams.
use agentforgev.Common.{
  ℕ, String, Bool, true, false, not, Option, none, some, List, [], leb, ◌==◌, number_keys,
  text_keys, pair_keys, filter, if◌then◌else◌,
}
use agentforgev.Common.Dict.{values, lookup, insert, erase, has_key, remove_where}
use agentforgev.Common.Sort.{sort_by}
use agentforgev.Identity.{
  Team, TeamMembership, IdentityStore, team_exists, not_found, org_mismatch, Result, ok, refused,
}

unfoldable pub create_team : ℕ → ℕ → ℕ → String → IdentityStore → Result Team × IdentityStore
create_team id now org name s =
    let team : Team = record { id = id; org_id = org; name = name; created_at = now } in
    if has_key (org, name) s.teams_by_org_name then (refused team_exists, s) else (
      ok team,
      record s {
        teams = insert id team s.teams;
        teams_by_org_name = insert (org, name) id s.teams_by_org_name;
      },
    )

abbrev pub join_team :
    Option TeamMembership → ℕ → ℕ → ℕ → IdentityStore → Result TeamMembership × IdentityStore
join_team none now team user s =
    let membership : TeamMembership = record { team_id = team; user_id = user; created_at = now } in
    (
      ok membership,
      record s { team_memberships = insert (team, user) membership s.team_memberships },
    )
join_team (some existing) now team user s = (ok existing, s)

abbrev pub add_to_team :
    Option Team → ℕ → ℕ → ℕ → IdentityStore → Result TeamMembership × IdentityStore
add_to_team none now team user s = (refused not_found, s)
add_to_team (some t) now team user s =
    if not (has_key (user, t.org_id) s.memberships)
    then (refused org_mismatch, s)
    else join_team (lookup (team, user) s.team_memberships) now team user s

unfoldable pub add_team_member : ℕ → ℕ → ℕ → IdentityStore → Result TeamMembership × IdentityStore
add_team_member now team user s = add_to_team (lookup team s.teams) now team user s

abbrev pub if_in_org : ℕ → Option Team → Option Team
if_in_org org none = none
if_in_org org (some t) = if not (t.org_id == org) then none else some t

unfoldable pub get_team : ℕ → ℕ → IdentityStore → Option Team
get_team org team s = if_in_org org (lookup team s.teams)

abbrev pub list_teams : ℕ → IdentityStore → List Team
list_teams org s =
    sort_by (λ a b. leb a.created_at b.created_at) (filter (λ t. t.org_id == org) (values s.teams))

abbrev pub delete_found_team : Option Team → ℕ → IdentityStore → Bool × IdentityStore
delete_found_team none team s = (false, s)
delete_found_team (some t) team s = (
  true,
  record s {
    teams = erase team s.teams;
    teams_by_org_name = erase (t.org_id, t.name) s.teams_by_org_name;
    team_memberships = remove_where (λ (k, user). k == team) s.team_memberships;
  },
)

unfoldable pub delete_team : ℕ → ℕ → IdentityStore → Bool × IdentityStore
unfolding get_team
delete_team org team s = delete_found_team (get_team org team s) team s

abbrev pub members_of : Option Team → ℕ → IdentityStore → List TeamMembership
members_of none team s = []
members_of (some t) team s =
    sort_by (λ a b. leb a.created_at b.created_at)
      (filter (λ m. m.team_id == team) (values s.team_memberships))

abbrev pub list_team_members : ℕ → ℕ → IdentityStore → List TeamMembership
list_team_members org team s = members_of (get_team org team s) team s

abbrev pub leave_team : Option Team → ℕ → ℕ → IdentityStore → Bool × IdentityStore
leave_team none team user s = (false, s)
leave_team (some t) team user s = (
  has_key (team, user) s.team_memberships,
  record s { team_memberships = erase (team, user) s.team_memberships },
)

unfoldable pub remove_team_member : ℕ → ℕ → ℕ → IdentityStore → Bool × IdentityStore
unfolding get_team
remove_team_member org team user s = leave_team (get_team org team s) team user s
