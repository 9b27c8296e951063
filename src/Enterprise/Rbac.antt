-- ===== src/Enterprise/Rbac.antt =====
-- enterprise/rbac.py: the roles, their permissions, and the decision.
use agentforgev.Common.{
  ℕ, ◌≤◌, ◌≡◌, ◌↔◌, Bool, true, false, List, [], ◌∷◌, ◌++◌, ◌||◌, ◌==◌, number_keys, arith,
}

pub data Role : Type 0 where
  owner admin member viewer : Role

pub data Permission : Type 0 where
  manage_members manage_api_keys manage_integrations : Permission
  manage_webhooks read_audit_log manage_budget : Permission
  ingest_documents run_agents read : Permission

abbrev pub viewer_permissions : List Permission
viewer_permissions = read ∷ []

abbrev pub member_permissions : List Permission
member_permissions = viewer_permissions ++ run_agents ∷ ingest_documents ∷ []

abbrev pub admin_permissions : List Permission
admin_permissions =
    member_permissions ++ manage_api_keys ∷ manage_integrations ∷ manage_webhooks ∷ []

abbrev pub owner_permissions : List Permission
owner_permissions = admin_permissions ++ manage_members ∷ read_audit_log ∷ manage_budget ∷ []

-- ROLE_PERMISSIONS[role], also `permissions_for`
abbrev pub permissions_for : Role → List Permission
permissions_for viewer = viewer_permissions
permissions_for member = member_permissions
permissions_for admin = admin_permissions
permissions_for owner = owner_permissions

-- Permissions by their place in the enumeration, to compare them.
abbrev pub place : Permission → ℕ
place manage_members = 0
place manage_api_keys = 1
place manage_integrations = 2
place manage_webhooks = 3
place read_audit_log = 4
place manage_budget = 5
place ingest_documents = 6
place run_agents = 7
place read = 8

abbrev pub holds : Permission → List Permission → Bool
holds p [] = false
holds p (q ∷ qs) = place p == place q || holds p qs

unfoldable pub is_authorized : Role → Permission → Bool
is_authorized role permission = holds permission (permissions_for role)

-- How far up a role stands, and how far up one must stand for a permission.
abbrev pub rank : Role → ℕ
rank viewer = 0
rank member = 1
rank admin = 2
rank owner = 3

abbrev pub least_rank : Permission → ℕ
least_rank read = 0
least_rank run_agents = 1
least_rank ingest_documents = 1
least_rank manage_api_keys = 2
least_rank manage_integrations = 2
least_rank manage_webhooks = 2
least_rank manage_members = 3
least_rank read_audit_log = 3
least_rank manage_budget = 3

-- The permissions nest: a role has a permission exactly when it stands at least as high as the lowest
-- role with the permission. So whatever a role may do, every higher role may do; every role may read;
-- only the owner may manage members or the budget or read the audit log.
pub is_authorized_iff :
    (r : Role) (p : Permission) → (is_authorized r p ≡ true) ↔ (least_rank p ≤ rank r)
unfolding is_authorized
is_authorized_iff r p = ground arith
