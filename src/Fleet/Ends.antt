-- ===== src/Fleet/Ends.antt =====
-- That the agents of backend/app/agents/runner.py come to rest: a message brings about only messages that
-- weigh less.
use sentri_mesh_astra.Exposure.Scanner.{scan_domain}
use sentri_mesh_astra.Prelude.{
  ℕ, zero, suc, ◌+◌, ◌*◌, ◌≤◌, ◌≡◌, refl, ap, ◌∙◌, Bool, Option, none, some, List, [], ◌∷◌, arith,
  length,
}
use sentri_mesh_astra.Bus.{Message}
use sentri_mesh_astra.Executor.{Host}
use sentri_mesh_astra.Listening.{subscribe, register_all, receive, handlers_of, call_all}
use sentri_mesh_astra.Exposure.Sources.{searched}
use sentri_mesh_astra.Fleet.{
  set_delivered, drain, turn, World, Answers, fresh, intake, flow, registrations, started,
  as_incoming, integration, detection, threat_intel, orchestrator, response, guardian,
  exposure_scan, dependency_scan, reports_of,
}
use sentri_mesh_astra.Fleet.Load.{total, weight, world_load}
use sentri_mesh_astra.Fleet.Detecting.{on_normalized_event-Adds}
use sentri_mesh_astra.Fleet.Responding.{on_action_proposed-Adds, on_classified_incident-Adds}
use sentri_mesh_astra.Fleet.Agents.{
  on_raw_event-Adds, on_new_incident-Adds, on_enriched_incident-Adds, on_scan_requested-Adds,
  on_dependency_scan_requested-Adds,
}

weight_bounds : (m : Message) → (1 ≤ weight m) × (weight m ≤ 14)
weight_bounds m = ground arith

total_bound : (ms : List Message) → total ms ≤ 14 * length ms
total_bound [] = omega arith
total_bound (m ∷ ms) = omega (arith, weight_bounds m, total_bound ms)

no_weight : (m : Message) (ms : List Message) → total (m ∷ ms) ≤ 0 → ⊥
no_weight m ms le = omega (arith, weight_bounds m, le)

module _ (host : Host) (enabled : Bool) (answers : Answers) where
  -- Who receives a message, and what that adds.
  receive_adds :
      (m : Message) (w : World host.Firewall)
      → world_load (receive (started host enabled answers) (as_incoming host enabled answers m) w)
          + 1
        ≤ world_load w + weight m
  unfolding receive register_all subscribe handlers_of call_all registrations fresh integration
      detection threat_intel orchestrator response guardian exposure_scan dependency_scan
  receive_adds (Message.raw_event e) w =
      omega (arith, on_raw_event-Adds answers.outside.str e w.next_id w.now (intake w))
  receive_adds (Message.normalized_event t k n) w = omega (
    arith,
    on_normalized_event-Adds answers.outside t k n w.next_id (w.next_id + 1) w.now (flow w),
  )
  receive_adds (Message.incident_new t k c) w =
      omega (arith, on_new_incident-Adds answers.lookup_ip t k c w.next_id w.now (flow w))
  receive_adds (Message.incident_enriched t k c) w =
      omega (arith, on_enriched_incident-Adds t k c w.now (flow w))
  receive_adds (Message.incident_classified t k sev a c) w = omega (
    arith,
    on_classified_incident-Adds host enabled w.now w.next_id (w.next_id + 1) t k sev a c w.system,
  )
  receive_adds (Message.action_proposed t k sev) w =
      omega (arith, on_action_proposed-Adds host enabled t k (some sev) w.now w.system)
  receive_adds (Message.scan_requested t domain) w = omega (
    arith,
    on_scan_requested-Adds answers.outside.str t (scan_domain domain (answers.fetch domain))
        (searched answers.outside.str (answers.serpapi domain)) w.next_id w.now (flow w),
  )
  receive_adds (Message.dependency_scan_requested t ps) w = omega (
    arith,
    on_dependency_scan_requested-Adds answers.outside.str t (reports_of answers ps) w.next_id w.now
        (flow w),
  )
  receive_adds (Message.action_approved _ _ _ _) w = omega arith
  receive_adds (Message.action_denied _ _ _ _) w = omega arith
  receive_adds (Message.action_executed _ _ _) w = omega arith
  receive_adds (Message.report_ready _ _) w = omega arith
  receive_adds (Message.guardian_alert _ _) w = omega arith

  -- What the loop leaves, if no message is pending, and if `m` is.
  abbrev Rests : Option (World host.Firewall) → Type 0
  Rests result = (w : World host.Firewall) × (result ≡ some w) × (w.system.bus.delivered ≡ [])

  turn_adds :
      (clock : ℕ → ℕ) (m : Message) (rest : List Message) (w : World host.Firewall)
      → world_load (turn host enabled answers clock m rest w) + 1 ≤ total rest + weight m
  unfolding turn
  turn_adds clock m rest w =
      receive_adds m (record (set_delivered host enabled answers rest w) { now = clock w.now })

  pub drain_more :
      (clock : ℕ → ℕ) (fuel : ℕ) (m : Message) (rest : List Message) (w : World host.Firewall)
      → w.system.bus.delivered ≡ m ∷ rest
      → drain host enabled answers clock (suc fuel) w
        ≡ drain host enabled answers clock fuel (turn host enabled answers clock m rest w)
  unfolding drain
  drain_more clock fuel m rest w e =
      ap
        (λ ms. elim ms as (λ _. Option (World host.Firewall)) [
          | [] ↦ some w
          | m ∷ rest ↦
              drain host enabled answers clock fuel (turn host enabled answers clock m rest w)
        ])
        e

  pub drain_empty :
      (clock : ℕ → ℕ) (fuel : ℕ) (w : World host.Firewall)
      → w.system.bus.delivered ≡ []
      → drain host enabled answers clock fuel w ≡ some w
  unfolding drain
  drain_empty clock zero w e = rw e refl
  drain_empty clock (suc fuel) w e = rw e refl

  pub drain_out :
      (clock : ℕ → ℕ) (m : Message) (rest : List Message) (w : World host.Firewall)
      → w.system.bus.delivered ≡ m ∷ rest
      → drain host enabled answers clock 0 w ≡ none
  unfolding drain
  drain_out clock m rest w e = rw e refl

  drain_within :
      (clock : ℕ → ℕ) (fuel : ℕ) (w : World host.Firewall) (ms : List Message)
      → w.system.bus.delivered ≡ ms
      → total ms ≤ fuel
      → Rests (drain host enabled answers clock fuel w)
  unfolding drain
  drain_within clock zero w [] e le = (w, drain_empty clock 0 w e, e)
  drain_within clock (suc fuel) w [] e le = (w, drain_empty clock (suc fuel) w e, e)
  drain_within clock zero w (m ∷ rest) e le = absurd (no_weight m rest le)
  drain_within clock (suc fuel) w (m ∷ rest) e le =
      let after = turn host enabled answers clock m rest w in
      let (last, ends, empty) =
        drain_within clock fuel after after.system.bus.delivered refl
          (omega (arith, turn_adds clock m rest w, le)) in
      (last, drain_more clock fuel m rest w e ∙ ends, empty)

  -- From any state of the tables, and whatever the world outside answers, the agents work off all pending
  -- messages, and all that come of them, in at most fourteen turns of the loop for each pending message:
  -- the loop ends with no message left.
  pub drain_ends :
      (clock : ℕ → ℕ) (fuel : ℕ) (w : World host.Firewall)
      → 14 * length w.system.bus.delivered ≤ fuel
      → (last : World host.Firewall) × (drain host enabled answers clock fuel w ≡ some last)
        × (last.system.bus.delivered ≡ [])
  drain_ends clock fuel w enough =
      drain_within clock fuel w w.system.bus.delivered refl
        (omega (arith, total_bound w.system.bus.delivered, enough))
