-- ===== src/Identity/Memberships.antt =====
-- enterprise/identity.py: the dict of memberships, and the owners that `_org_roles` reads from it.
use agentforgev.Common.{
  ℕ, ◌≡◌, ◌≢◌, refl, true, Bool-cases, inl, inr, not, ◌&&◌, some, List, [], ◌∷◌, ◌==◌, number_keys,
  pair_keys, filter, map, All, arith,
}
use agentforgev.Common.Dict.{Dict, values, lookup, insert, erase, lookup-behind, IsDistinct}
use agentforgev.Enterprise.Rbac.{Role, owner, admin, member, viewer}
use agentforgev.Identity.{Membership, is_owner, any_owner, others_own}

abbrev pub Memberships : Type 0
Memberships = Dict (ℕ × ℕ) Membership

abbrev pub roles_in : ℕ → Memberships → List (ℕ × Role)
roles_in org d = map (λ m. (m.user_id, m.role)) (filter (λ m. m.org_id == org) (values d))

-- Every membership stands under its user and its organization.
abbrev pub IsKeyed : Memberships → Type 0
IsKeyed d = All (λ (k, m). k ≡ (m.user_id, m.org_id)) d

pub is_owner-eq : (role : Role) → is_owner role ≡ true → role ≡ owner
is_owner-eq owner h = refl
is_owner-eq admin h = cc
is_owner-eq member h = cc
is_owner-eq viewer h = cc

pub insert-IsKeyed :
    (k : ℕ × ℕ) (m : Membership) (d : Memberships)
    → k ≡ (m.user_id, m.org_id)
    → IsKeyed d
    → IsKeyed (insert k m d)
insert-IsKeyed k m [] e h = (e, tt)
insert-IsKeyed k m ((j, n) ∷ d) e h =
    ground (arith, pair_keys.equals_iff j k, insert-IsKeyed k m d e)

pub erase-IsKeyed : (k : ℕ × ℕ) (d : Memberships) → IsKeyed d → IsKeyed (erase k d)
erase-IsKeyed k [] h = h
erase-IsKeyed k ((j, n) ∷ d) h = ground (arith, erase-IsKeyed k d)

pub owner_seen :
    (org user : ℕ) (m : Membership) (d : Memberships)
    → IsKeyed d
    → lookup (user, org) d ≡ some m
    → m.role ≡ owner
    → any_owner (roles_in org d) ≡ true
owner_seen org user m [] h l o = cc
owner_seen org user m ((j, n) ∷ d) h l o =
    ground (arith, pair_keys.equals_iff j (user, org), owner_seen org user m d)

pub other_owner :
    (org user : ℕ) (d : Memberships)
    → IsKeyed d
    → IsDistinct d
    → others_own user (roles_in org d) ≡ true
    → (u : ℕ) × (m : Membership) × (lookup (u, org) d ≡ some m) × (m.role ≡ owner) × (u ≢ user)
other_owner org user [] h i o = cc
other_owner org user ((j, n) ∷ d) h i o =
    elim (Bool-cases ((n.org_id == org) && not (n.user_id == user) && is_owner n.role)) [
      | inl here ↦ (
        n.user_id,
        n,
        ground (arith, pair_keys.equals_iff j (n.user_id, org)),
        is_owner-eq n.role (ground arith),
        ground arith,
      )
      | inr behind ↦
          (let (u, m, l, r, ne) = other_owner org user d h.1 i.1 (ground arith) in
            (u, m, lookup-behind j (u, org) n m d i.0 l, r, ne))
    ]
