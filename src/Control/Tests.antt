-- ===== src/Control/Tests.antt =====
-- Inputs at which the theorems about the response agent and the routers apply.
use sentri_mesh_astra.Prelude.{
  String, ◌≡◌, refl, true, false, some, List, [], ◌∷◌, first, contains, ok, err, http, exception,
}
use sentri_mesh_astra.Json.{put, truthy, get}
use sentri_mesh_astra.Executor.{
  validate_ip, run_process, rule_exists, iptables_execute, is_real, ExecutionResult, execute_with,
  not_started,
}
use sentri_mesh_astra.Executor.{block}
use sentri_mesh_astra.Executor.Sample.{sample_host}
use sentri_mesh_astra.Response.{parameters_for, mark_executed}
use sentri_mesh_astra.Control.{
  Event, handle, check_tenant_access, proposal_is, Host, State, execute, decide_approval,
  has_access,
}
use sentri_mesh_astra.Control.Sample.{block_proposal, acme, holder, sample}
use sentri_mesh_astra.Control.Refused.{handle_refused}
use sentri_mesh_astra.Control.Routes.{execute_once}

unknown_approval :
    (handle sample_host true 5 (Event.decide holder 1 99 true "") sample).0 ≡ err (http 404)
unfolding handle decide_approval check_tenant_access has_access
unknown_approval = refl

handle_refused_example :
    (handle sample_host true 5 (Event.decide holder 1 99 true "") sample).1 ≡ sample
handle_refused_example =
    handle_refused sample_host true 5 (Event.decide holder 1 99 true "") sample 404 unknown_approval

abbrev blocked : ExecutionResult
blocked = record {
  success = true;
  detail = "Blocked 203.0.113.9 via iptables DROP rule on INPUT.";
  simulated = false;
}

blocked_run :
    (execute_with sample_host true block_proposal.action_type block_proposal.parameters []).0
    ≡ ok blocked
unfolding execute_with is_real iptables_execute block rule_exists run_process validate_ip contains
    get parameters_for truthy put
blocked_run = refl

execute_once_example :
    let s' = (execute sample_host true 7 10 sample).1 in
    (first (proposal_is 10) s'.proposals ≡ some (mark_executed blocked 7 block_proposal))
    × (execute sample_host true 8 10 s' ≡ (ok tt, s'))
execute_once_example =
    execute_once sample_host true 7 8 10 block_proposal blocked sample refl refl refl blocked_run

-- A host without `iptables`.
abbrev broken_host : Host
broken_host = record {
  Firewall = List String;
  run = λ args f. (not_started, f);
  parse_ip = λ s. some s;
  repr = λ v. "";
}

abbrev broken : State broken_host true
broken = record {
  tenants = acme ∷ [];
  incidents = [];
  proposals = block_proposal ∷ [];
  approvals = [];
  bus = record { audit_log = []; delivered = [] };
  mails = [];
  firewall = [];
}

raised_run :
    (execute_with broken_host true block_proposal.action_type block_proposal.parameters []).0
    ≡ err exception
unfolding execute_with is_real iptables_execute block rule_exists run_process validate_ip contains
    get parameters_for truthy put
raised_run = refl
