-- ===== src/Overview/Figures.antt =====
-- How the figures of backend/app/routers/overview.py are related.
use sentri_mesh_astra.Prelude.{
  ℕ, ◌+◌, ◌*◌, ◌≤◌, min, ◌≡◌, refl, Bool, true, some, List, [], ◌∷◌, arith, if◌then◌else◌, length,
  keep, first, ok,
}
use sentri_mesh_astra.Models.{Tenant, User, Incident, Severity, is_critical}
use sentri_mesh_astra.System.{tenant_is}
use sentri_mesh_astra.Control.{has_access, check_tenant_access}
use sentri_mesh_astra.Overview.{
  Dashboard, severity_weight, total_weight, open_of, overview_of, get_overview,
}

abbrev criticals : List Incident → ℕ
criticals is = length (keep (λ i. is_critical i.severity) is)

length-keep : {A : Type 0} (p : A → Bool) (xs : List A) → length (keep p xs) ≤ length xs
length-keep p [] = omega arith
length-keep p (x ∷ xs) = ground (arith, length-keep p xs)

weight_of : (s : Severity) → (2 + (if is_critical s then 33 else 0)) ≤ severity_weight s
weight_of s = ground arith

-- Every open incident weighs two at least, and a critical one thirty-five.
total_weight_least : (is : List Incident) → 2 * length is + 33 * criticals is ≤ total_weight is
total_weight_least [] = omega arith
total_weight_least (i ∷ is) = ground (arith, weight_of i.severity, total_weight_least is)

-- The figures of a dashboard for whoever may see it: the risk score is 100 at most, and reaches what the
-- open incidents weigh at the least, two points each and thirty-three more for a critical one, so that
-- three critical incidents make it 100; there are no more critical incidents than open ones.
pub get_overview_bounds :
    (user : User) (tenant_id now : ℕ) (t : Tenant) (d : Dashboard)
    → has_access user tenant_id ≡ true
    → first (tenant_is tenant_id) d.tenants ≡ some t
    → let o = overview_of tenant_id now d t in
      (get_overview user tenant_id now d ≡ (ok o, d))
      × (o.risk_score ≤ 100)
      × (min 100 (2 * o.open_incidents + 33 * o.critical_incidents) ≤ o.risk_score)
      × (o.critical_incidents ≤ o.open_incidents)
unfolding get_overview check_tenant_access overview_of
get_overview_bounds user tenant_id now t d access found = (
  rw (access, found) refl,
  omega arith,
  omega (arith, total_weight_least (open_of tenant_id d.incidents)),
  length-keep (λ i. is_critical i.severity) (open_of tenant_id d.incidents),
)
