-- ===== src/Overview/Tests.antt =====
-- A dashboard without incidents.
use sentri_mesh_astra.Prelude.{◌+◌, ◌*◌, ◌≤◌, min, ◌≡◌, refl, [], ◌∷◌, ok}
use sentri_mesh_astra.Control.{has_access}
use sentri_mesh_astra.Control.Sample.{acme, holder}
use sentri_mesh_astra.Overview.{Dashboard, overview_of, get_overview}
use sentri_mesh_astra.Overview.Figures.{get_overview_bounds}

abbrev dashboard : Dashboard
dashboard = record {
  tenants = acme ∷ [];
  incidents = [];
  approvals = [];
  connectors = [];
  reports = [];
}

get_overview_bounds_example :
    let o = overview_of 1 9 dashboard acme in
    (get_overview holder 1 9 dashboard ≡ (ok o, dashboard))
    × (o.risk_score ≤ 100)
    × (min 100 (2 * o.open_incidents + 33 * o.critical_incidents) ≤ o.risk_score)
    × (o.critical_incidents ≤ o.open_incidents)
unfolding has_access
get_overview_bounds_example = get_overview_bounds holder 1 9 acme dashboard refl refl
