-- ===== src/Identity.antt =====
-- enterprise/identity.py: the in-memory store of users, organizations, memberships and teams. An identifier
-- that the code draws with `uuid4`, and the time of the call, are arguments.
pub mod Teams
pub mod Calls
pub mod Memberships
pub mod Owners
pub mod Consistency
pub mod Histories
mod Tests
use agentforgev.Common.{
  ℕ, String, Bool, true, false, not, ◌&&◌, ◌||◌, Option, none, some, List, [], ◌∷◌, ltb, leb, ◌==◌,
  number_keys, text_keys, pair_keys, filter, map, if◌then◌else◌,
}
use agentforgev.Common.Dict.{Dict, values, lookup, insert, erase, has_key, remove_where}
use agentforgev.Common.Sort.{sort_by}
use agentforgev.Enterprise.Rbac.{Role, owner, rank}

pub record User : Type 0 where
  pub id : ℕ
  pub email : String
  pub password_hash : String
  pub created_at : ℕ

pub record Organization : Type 0 where
  pub id : ℕ
  pub name : String
  pub created_at : ℕ

pub record Membership : Type 0 where
  pub user_id : ℕ
  pub org_id : ℕ
  pub role : Role
  pub created_at : ℕ

pub record Team : Type 0 where
  pub id : ℕ
  pub org_id : ℕ
  pub name : String
  pub created_at : ℕ

pub record TeamMembership : Type 0 where
  pub team_id : ℕ
  pub user_id : ℕ
  pub created_at : ℕ

pub record IdentityStore : Type 0 where
  pub users : Dict ℕ User
  pub users_by_email : Dict String ℕ
  pub orgs : Dict ℕ Organization
  pub memberships : Dict (ℕ × ℕ) Membership
  pub teams : Dict ℕ Team
  pub teams_by_org_name : Dict (ℕ × String) ℕ
  pub team_memberships : Dict (ℕ × ℕ) TeamMembership

-- The codes of the `AppError` that an operation raises.
pub data Refusal : Type 0 where
  email_exists membership_exists last_owner team_exists not_found org_mismatch : Refusal

pub data Result (A : Type 0) : Type 0 where
  ok : A → Result A
  refused : Refusal → Result A

abbrev pub is_owner : Role → Bool
is_owner role = rank role == rank owner

abbrev pub is_owner_or_none : Option Role → Bool
is_owner_or_none none = false
is_owner_or_none (some role) = is_owner role

abbrev pub any_owner : List (ℕ × Role) → Bool
any_owner [] = false
any_owner ((uid, role) ∷ roles) = is_owner role || any_owner roles

abbrev pub others_own : ℕ → List (ℕ × Role) → Bool
others_own user [] = false
others_own user ((uid, role) ∷ roles) = not (uid == user) && is_owner role || others_own user roles

-- `none` for the new role stands for the removal of the membership.
unfoldable pub orphans_owner : List (ℕ × Role) → ℕ → Option Role → Bool
orphans_owner roles user new_role =
    if not (any_owner roles)
    then false
    else if others_own user roles
    then false
    else not (is_owner_or_none new_role)

unfoldable pub create_user : ℕ → ℕ → String → String → IdentityStore → Result User × IdentityStore
create_user id now email password_hash s =
    let user : User = record {
      id = id;
      email = email;
      password_hash = password_hash;
      created_at = now;
    } in
    if has_key email s.users_by_email then (refused email_exists, s) else (
      ok user,
      record s {
        users = insert id user s.users;
        users_by_email = insert email id s.users_by_email;
      },
    )

abbrev pub user_at : Option ℕ → Dict ℕ User → Option User
user_at none users = none
user_at (some id) users = lookup id users

unfoldable pub get_user_by_email : String → IdentityStore → Option User
get_user_by_email email s = user_at (lookup email s.users_by_email) s.users

abbrev pub get_user : ℕ → IdentityStore → Option User
get_user id s = lookup id s.users

abbrev pub contains : ℕ → List ℕ → Bool
contains x [] = false
contains x (y ∷ ys) = (x == y) || contains x ys

abbrev pub cons_found : Option User → List User → List User
cons_found none found = found
cons_found (some user) found = user ∷ found

-- The loop of `list_users_by_ids`, with the identifiers seen so far.
abbrev pub users_by_ids : List ℕ → List ℕ → IdentityStore → List User
users_by_ids [] seen s = []
users_by_ids (id ∷ ids) seen s =
    let skip = users_by_ids ids seen s in
    let take_it = cons_found (lookup id s.users) (users_by_ids ids (id ∷ seen) s) in
    if contains id seen then skip else take_it

abbrev pub list_users_by_ids : List ℕ → IdentityStore → List User
list_users_by_ids ids s = users_by_ids ids [] s

unfoldable pub create_organization : ℕ → ℕ → String → IdentityStore → Organization × IdentityStore
create_organization id now name s =
    let org : Organization = record { id = id; name = name; created_at = now } in
    (org, record s { orgs = insert id org s.orgs })

abbrev pub get_organization : ℕ → IdentityStore → Option Organization
get_organization id s = lookup id s.orgs

unfoldable pub add_membership : ℕ → ℕ → ℕ → Role → IdentityStore → Result Membership × IdentityStore
add_membership now user org role s =
    let membership : Membership = record {
      user_id = user;
      org_id = org;
      role = role;
      created_at = now;
    } in
    if has_key (user, org) s.memberships
    then (refused membership_exists, s)
    else (ok membership, record s { memberships = insert (user, org) membership s.memberships })

unfoldable pub get_membership : ℕ → ℕ → IdentityStore → Option Membership
get_membership user org s = lookup (user, org) s.memberships

-- The order of `(created_at, str(user_id))`: the text of a UUID orders as its number.
abbrev pub is_older : Membership → Membership → Bool
is_older m n =
    ltb m.created_at n.created_at || (m.created_at == n.created_at) && leb m.user_id n.user_id

abbrev pub list_org_members : ℕ → IdentityStore → List Membership
list_org_members org s = sort_by is_older (filter (λ m. m.org_id == org) (values s.memberships))

abbrev pub list_memberships_for_user : ℕ → IdentityStore → List Membership
list_memberships_for_user user s = filter (λ m. m.user_id == user) (values s.memberships)

abbrev pub org_roles : ℕ → IdentityStore → List (ℕ × Role)
org_roles org s =
    map (λ m. (m.user_id, m.role)) (filter (λ m. m.org_id == org) (values s.memberships))

abbrev pub set_found_role :
    Option Membership → ℕ → ℕ → Role → IdentityStore → Result (Option Membership) × IdentityStore
set_found_role none user org role s = (ok none, s)
set_found_role (some existing) user org role s =
    let updated : Membership = record {
      user_id = user;
      org_id = org;
      role = role;
      created_at = existing.created_at;
    } in
    if orphans_owner (org_roles org s) user (some role)
    then (refused last_owner, s)
    else (ok (some updated), record s { memberships = insert (user, org) updated s.memberships })

unfoldable pub update_membership_role :
    ℕ → ℕ → Role → IdentityStore → Result (Option Membership) × IdentityStore
update_membership_role user org role s =
    set_found_role (lookup (user, org) s.memberships) user org role s

abbrev pub org_team_ids : ℕ → IdentityStore → List ℕ
org_team_ids org s = map (λ t. t.id) (filter (λ t. t.org_id == org) (values s.teams))

unfoldable pub remove_membership : ℕ → ℕ → IdentityStore → Result Bool × IdentityStore
remove_membership user org s =
    if not (has_key (user, org) s.memberships)
    then (ok false, s)
    else if orphans_owner (org_roles org s) user none
    then (refused last_owner, s)
    else (
      ok true,
      record s {
        memberships = erase (user, org) s.memberships;
        team_memberships =
            remove_where (λ (team, uid). (uid == user) && contains team (org_team_ids org s))
              s.team_memberships;
      },
    )
