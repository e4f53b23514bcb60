-- ===== src/Control/Sample.antt =====
-- A small state and some events for the tests of the routes in backend/app/routers.
use sentri_mesh_astra.Prelude.{ℕ, true, false, none, some, List, [], ◌∷◌}
use sentri_mesh_astra.Json.{no_fields, entry, Value}
use sentri_mesh_astra.Models.{User, UserRole, Tenant, ActionProposal, Severity}
use sentri_mesh_astra.Response.{State, proposal_of, pending_approval}
use sentri_mesh_astra.Executor.Sample.{sample_host}
use sentri_mesh_astra.Control.{Event}

abbrev pub acme : Tenant
acme = record {
  id = 1;
  name = "Acme";
  domain = "acme.test";
  sector = "general";
  created_at = 0;
  kill_switch_engaged = false;
  kill_switch_reason = none;
}

abbrev pub halted_acme : Tenant
halted_acme = record acme { kill_switch_engaged = true }

abbrev pub root : User
root = record {
  id = 1;
  email = "root@platform.test";
  hashed_password = "";
  role = UserRole.admin;
  tenant_id = none;
  full_name = "Root";
  is_active = true;
  created_at = 0;
}

abbrev pub holder : User
holder = record root {
  id = 2;
  email = "holder@acme.test";
  role = UserRole.security_holder;
  tenant_id = some 1;
}

abbrev pub stranger : User
stranger = record holder { id = 3; email = "x@other.test"; tenant_id = some 2 }

abbrev pub block_proposal : ActionProposal
block_proposal =
    proposal_of 10 1 5 "block_ip" Severity.high
      (entry "src_ip" (Value.text "203.0.113.9") no_fields) 0

abbrev pub sample : State sample_host true
sample = record {
  tenants = acme ∷ [];
  incidents = [];
  proposals = block_proposal ∷ [];
  approvals = pending_approval 0 20 block_proposal ∷ [];
  bus = record { audit_log = []; delivered = [] };
  mails = [];
  firewall = [];
}

abbrev pub halted_sample : State sample_host true
halted_sample = record sample { tenants = halted_acme ∷ [] }

-- A notification, the approval of the block_proposal, and a rollback.
abbrev pub events : List (ℕ × Event)
events =
    (1, Event.classified 11 21 1 6 Severity.low (some "notify") no_fields)
    ∷ (2, Event.decide holder 1 20 true "go")
    ∷ (3, Event.roll_back holder 1 10)
    ∷ []
