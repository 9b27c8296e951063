-- ===== src/Enterprise/Tests.antt =====
-- A concrete role for enterprise/rbac.py, and concrete requests for enterprise/rate_limit.py.
use agentforgev.Common.{◌≤◌, ◌<◌, ◌≡◌, ◌↔◌, refl, true, List, [], ◌∷◌}
use agentforgev.Enterprise.Rbac.{
  is_authorized, is_authorized_iff, admin, manage_budget, rank, least_rank,
}
use agentforgev.Enterprise.RateLimit.{Limiter, Asked, check, check_all, asked, check_iff}

is_authorized_iff_example :
    (is_authorized admin manage_budget ≡ true) ↔ (least_rank manage_budget ≤ rank admin)
is_authorized_iff_example = is_authorized_iff admin manage_budget

abbrev limiter : Limiter
limiter = record { max_requests = 2; window_seconds = 60 }

abbrev requests : List Asked
requests = ("a", 61) ∷ ("b", 62) ∷ ("a", 119) ∷ ("a", 120) ∷ []

counts : asked limiter "a" 100 requests ≡ 2
counts = refl

check_iff_example :
    ((check limiter "a" 100 (check_all limiter requests [])).0 ≡ true)
    ↔ (asked limiter "a" 100 requests < 2)
check_iff_example = check_iff limiter requests "a" 100
