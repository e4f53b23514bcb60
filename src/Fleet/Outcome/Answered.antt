-- ===== src/Fleet/Outcome/Answered.antt =====
-- That every announced incident ends with a proposal: backend/app/agents, from incidents.new to
-- actions.proposed.
use sentri_mesh_astra.Prelude.{
  ℕ, zero, suc, ◌+◌, ◌*◌, ◌≤◌, String, ◌≡◌, refl, sym, ◌∙◌, subst, inl, inr, Bool, true, false,
  ◌||◌, Option, none, some, List, [], ◌∷◌, ◌++◌, arith, ◌==◌, ==_iff, Bool-cases, and_true, is_some,
  length, any, All, any-append, any-append_left,
}
use sentri_mesh_astra.Fleet.Outcome.Clear.{IsClear, IsClean}
use sentri_mesh_astra.Fleet.Outcome.Cleared.{WorldIsClear, receive-Clear}
use sentri_mesh_astra.Fleet.Outcome.Received.{receive-Holds}
use sentri_mesh_astra.Fleet.Ends.{drain_ends, drain_out, drain_empty, drain_more}
use sentri_mesh_astra.Models.{ActionProposal}
use sentri_mesh_astra.Bus.{Message}
use sentri_mesh_astra.Executor.{Host}
use sentri_mesh_astra.Listening.{subscribe, register_all, receive, handlers_of, call_all}
use sentri_mesh_astra.Fleet.{
  on_classified_incident, on_enriched_incident, on_new_incident, set_delivered, drain, turn, World,
  Answers, fresh, flow, registrations, started, as_incoming, integration, detection, threat_intel,
  orchestrator, response, guardian, exposure_scan, dependency_scan,
}
use sentri_mesh_astra.Fleet.Lasting.{IsUnique}
use sentri_mesh_astra.Fleet.Outcome.{
  names_action, get, incident_is, is_readable, is_for, is_about, IsGrowing, is_countable, Holds,
  HasFreshIds,
}
use sentri_mesh_astra.Fleet.Outcome.Moved.{on_enriched_incident-IsSaid, on_new_incident-IsSaid}
use sentri_mesh_astra.Fleet.Outcome.Proposed.{on_classified_incident-HasProposal, is_for-marked}

-- Incident `k` has a proposal, or a message that an agent answers.
abbrev IsOwed : ℕ → List Message → List ActionProposal → Type 0
IsOwed k ms ps = (any (is_about k) ms || any (is_for k) ps) ≡ true

owed-published :
    (k : ℕ) (ms : List Message) (m : Message) (b : Bool)
    → (any (is_about k) ms || b) ≡ true
    → (any (is_about k) (ms ++ m ∷ []) || b) ≡ true
owed-published k ms m b h = rw (any-append (is_about k) ms (m ∷ [])) (ground (arith, h))

owed-either : (a b c : Bool) → (a || b) ≡ true → (b ≡ true → c ≡ true) → (a || c) ≡ true
owed-either a b c h next = ground (arith, h, next)

IsOwed-IsGrowing : (k : ℕ) → IsGrowing (IsOwed k)
IsOwed-IsGrowing k = record {
  published = λ ms m ps quiet h. owed-published k ms m (any (is_for k) ps) h;
  proposed = λ ms ps p h.
      owed-either (any (is_about k) ms) (any (is_for k) ps) (any (is_for k) (ps ++ p ∷ [])) h
        (any-append_left (is_for k) ps (p ∷ []));
  marked = λ ms ps j r now h.
      owed-either (any (is_about k) ms) (any (is_for k) ps) _ h (is_for-marked k j r now ps);
}

module _ (host : Host) (enabled : Bool) (answers : Answers) (k : ℕ)
    (answered : (ip : String) → is_some (answers.lookup_ip ip) ≡ true) where
  -- The incident goes on to be answered, and all can be read.
  abbrev AllHold : World host.Firewall → Type 0
  AllHold w = Holds k (IsOwed k) w × WorldIsClear answers.outside.str w

  abbrev Nothing : List Message → List ActionProposal → Type 0
  Nothing ms ps = Unit {0}

  Nothing-IsGrowing : IsGrowing Nothing
  Nothing-IsGrowing = record {
    published = λ ms m ps quiet h. h;
    proposed = λ ms ps p h. h;
    marked = λ ms ps j r now h. h;
  }

  abbrev received : Message → World host.Firewall → World host.Firewall
  received m w = receive (started host enabled answers) (as_incoming host enabled answers m) w

  said-owed : (a b : Bool) → a ≡ true → (a || b) ≡ true
  said-owed a b h = ground (arith, h)

  done-owed : (a b : Bool) → b ≡ true → (a || b) ≡ true
  done-owed a b h = ground (arith, h)

  same_row :
      (j : ℕ) (w : World host.Firewall)
      → j ≡ k
      → Holds k Nothing w
      → any (incident_is j) w.system.incidents ≡ true
  same_row j w e h = subst (λ x. any (incident_is x) w.system.incidents ≡ true) (sym e) h.0.0

  -- A message about the incident is answered.
  receive-IsOwed :
      (m : Message) (w : World host.Firewall)
      → Holds k Nothing w
      → All IsClear w.system.incidents
      → is_about k m ≡ true
      → IsOwed k (received m w).system.bus.delivered (received m w).system.proposals
  unfolding receive register_all subscribe handlers_of call_all registrations fresh integration
      detection threat_intel orchestrator response guardian exposure_scan dependency_scan
  receive-IsOwed (Message.incident_new t j c) w h clear about =
      let (same, readable) = and_true (j == k) (is_readable (get "src_ip" c)) about in
      let e : j ≡ k = (==_iff j k).0 same in
      let out = on_new_incident answers.lookup_ip t j c w.next_id w.now (flow w) in
      said-owed (any (is_about k) out.1.bus.delivered) (any (is_for k) w.system.proposals) (
        subst (λ x. any (is_about x) out.1.bus.delivered ≡ true) e
          (on_new_incident-IsSaid answers.lookup_ip t j c w.next_id w.now (flow w)
            (same_row j w e h) clear h.1 answered readable))
  receive-IsOwed (Message.incident_enriched t j c) w h clear about =
      let (same, counted) = and_true (j == k) (is_countable c) about in
      let e : j ≡ k = (==_iff j k).0 same in
      let out = on_enriched_incident t j c w.now (flow w) in
      said-owed (any (is_about k) out.1.bus.delivered) (any (is_for k) w.system.proposals) (
        subst (λ x. any (is_about x) out.1.bus.delivered ≡ true) e
          (on_enriched_incident-IsSaid t j c w.now (flow w) (same_row j w e h) clear counted))
  receive-IsOwed (Message.incident_classified t j sev a c) w h clear about =
      let (same, named) = and_true (j == k) (names_action a) about in
      let e : j ≡ k = (==_iff j k).0 same in
      let out =
        on_classified_incident host enabled w.now w.next_id (w.next_id + 1) t j sev a c w.system in
      done-owed (any (is_about k) out.1.bus.delivered) (any (is_for k) out.1.proposals) (
        subst (λ x. any (is_for x) out.1.proposals ≡ true) e
          (on_classified_incident-HasProposal host enabled w.now w.next_id (w.next_id + 1) t j sev a
            c w.system (same_row j w e h) h.0.1 named))
  receive-IsOwed (Message.raw_event _) w h clear about = absurd (ground (arith, about))
  receive-IsOwed (Message.normalized_event _ _ _) w h clear about = absurd (ground (arith, about))
  receive-IsOwed (Message.action_proposed _ _ _) w h clear about = absurd (ground (arith, about))
  receive-IsOwed (Message.scan_requested _ _) w h clear about = absurd (ground (arith, about))
  receive-IsOwed (Message.dependency_scan_requested _ _) w h clear about =
      absurd (ground (arith, about))
  receive-IsOwed (Message.action_approved _ _ _ _) w h clear about = absurd (ground (arith, about))
  receive-IsOwed (Message.action_denied _ _ _ _) w h clear about = absurd (ground (arith, about))
  receive-IsOwed (Message.action_executed _ _ _) w h clear about = absurd (ground (arith, about))
  receive-IsOwed (Message.report_ready _ _) w h clear about = absurd (ground (arith, about))
  receive-IsOwed (Message.guardian_alert _ _) w h clear about = absurd (ground (arith, about))

  -- One turn of the loop keeps what is owed, whether its message is about the incident or not.
  turn-Holds :
      (clock : ℕ → ℕ) (m : Message) (rest : List Message) (w : World host.Firewall)
      → w.system.bus.delivered ≡ m ∷ rest
      → AllHold w
      → AllHold (turn host enabled answers clock m rest w)
  unfolding turn
  turn-Holds clock m rest w e (h, (rows, events)) =
      let v = record (set_delivered host enabled answers rest w) { now = clock w.now } in
      let owed : IsOwed k (m ∷ rest) w.system.proposals =
        subst (λ ms. IsOwed k ms w.system.proposals) e h.0.2 in
      let clean : All (IsClean answers.outside.str) (m ∷ rest) =
        subst (All (IsClean answers.outside.str)) e events in
      let held : Holds k Nothing v = ((h.0.0, h.0.1, tt), h.1) in
      let cleared = receive-Clear host enabled answers k m v Nothing held clean.0 (rows, clean.1) in
      elim (Bool-cases (is_about k m)) [
        | inl about ↦
            let kept =
              receive-Holds host enabled answers k Nothing Nothing-IsGrowing (λ ms t j n ps h. h) m
                v held in
            (((kept.0.0, kept.0.1, receive-IsOwed m v held rows about), kept.1), cleared)
        | inr other ↦ (
          receive-Holds host enabled answers k (IsOwed k) (IsOwed-IsGrowing k)
              (λ ms t j n ps h.
                owed-published k ms (Message.normalized_event t j n) (any (is_for k) ps) h)
              m v
              ((h.0.0, h.0.1, still_owed (is_about k m) (any (is_about k) rest) _ other owed), h.1),
          cleared,
        )
      ]
    where
      still_owed : (a b c : Bool) → a ≡ false → ((a || b) || c) ≡ true → (b || c) ≡ true
      still_owed a b c past h = ground (arith, past, h)

  abbrev IfSome : Option (World host.Firewall) → Type 0
  IfSome none = Unit {0}
  IfSome (some v) = AllHold v

  drain-Holds :
      (clock : ℕ → ℕ) (fuel : ℕ) (w last : World host.Firewall) (ms : List Message)
      → w.system.bus.delivered ≡ ms
      → drain host enabled answers clock fuel w ≡ some last
      → AllHold w
      → AllHold last
  drain-Holds clock fuel w last [] e ends h =
      subst IfSome (sym (drain_empty host enabled answers clock fuel w e) ∙ ends) h
  drain-Holds clock zero w last (m ∷ rest) e ends h =
      subst IfSome (sym (drain_out host enabled answers clock m rest w e) ∙ ends) tt
  drain-Holds clock (suc fuel) w last (m ∷ rest) e ends h =
      let after = turn host enabled answers clock m rest w in
      drain-Holds clock fuel after last after.system.bus.delivered refl
        (sym (drain_more host enabled answers clock fuel m rest w e) ∙ ends)
        (turn-Holds clock m rest w e h)

  -- An incident that is stored and announced on `incidents.new`, with a `src_ip` that is a text or nothing,
  -- or further on its way, gets a proposal: from any state of the tables in which no address has two
  -- indicators and the ids of proposals are below the fresh ones, with whatever other messages and
  -- whatever answers from outside, the agents come to rest within fourteen turns for each pending message,
  -- and then there is a proposal for it. This is so while lookups of addresses raise nothing, and while
  -- Python can look for a text in the techniques of the stored incidents and of the events that wait, and
  -- can compare the counts of failed logins in stored and published contexts.
  pub incident_answered :
      (clock : ℕ → ℕ) (fuel : ℕ) (w : World host.Firewall)
      → any (incident_is k) w.system.incidents ≡ true
      → any (is_about k) w.system.bus.delivered ≡ true
      → HasFreshIds w.next_id w.system.proposals
      → IsUnique w.indicators
      → WorldIsClear answers.outside.str w
      → 14 * length w.system.bus.delivered ≤ fuel
      → (last : World host.Firewall) × (drain host enabled answers clock fuel w ≡ some last)
        × (any (is_for k) last.system.proposals ≡ true)
  incident_answered clock fuel w row about fresh unique clear enough =
      let (last, ends, empty) = drain_ends host enabled answers clock fuel w enough in
      let owed = drain-Holds clock fuel w last w.system.bus.delivered refl ends (
        ((row, fresh, said-owed (any (is_about k) w.system.bus.delivered) _ about), unique),
        clear,
      ) in
      (last, ends, subst (λ ms. IsOwed k ms last.system.proposals) empty owed.0.0.2)
