-- ===== src/Listings/Tests.antt =====
-- Two incidents of one tenant and one of another.
use sentri_mesh_astra.Prelude.{ℕ, ◌≡◌, refl, true, [], ◌∷◌, ok}
use sentri_mesh_astra.Json.{no_fields}
use sentri_mesh_astra.Models.{Severity, Incident}
use sentri_mesh_astra.Control.{check_tenant_access, has_access}
use sentri_mesh_astra.Control.Sample.{holder}
use sentri_mesh_astra.Exposure.{scan_incident}
use sentri_mesh_astra.Listings.{Tables, list_incidents, recent}
use sentri_mesh_astra.Listings.Recent.{AreRecent, lists-AreRecent}

abbrev at : ℕ → ℕ → ℕ → Incident
at tenant_id id now = scan_incident tenant_id "" "" Severity.low true no_fields id now

abbrev tables : Tables
tables = record {
  incidents = at 1 3 10 ∷ at 2 4 11 ∷ at 1 5 12 ∷ [];
  actions = [];
  approvals = [];
  reports = [];
  audit_log = [];
}

lists-AreRecent_example : AreRecent holder 1 tables
lists-AreRecent_example = lists-AreRecent holder 1 tables

list_incidents_run : list_incidents holder 1 tables ≡ (ok (at 1 5 12 ∷ at 1 3 10 ∷ []), tables)
unfolding list_incidents check_tenant_access has_access recent
list_incidents_run = refl
