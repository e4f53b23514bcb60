-- ===== src/Control/Safety/Steps.antt =====
-- A stable predicate holds of every proposal after any event that the system handles.
use sentri_mesh_astra.Prelude.{
  ℕ, String, ◌≡◌, refl, subst, Bool, true, false, Option, none, some, List, [], ◌∷◌, ◌++◌, arith,
  str_eq, ==_self, any, first, first-keep-none, All, All-append, update_first, first-append, pure,
  if_keeps, raise_if_keeps, exception,
}
use sentri_mesh_astra.Json.{Fields}
use sentri_mesh_astra.Models.{
  User, Tenant, ActionProposal, ApprovalRequest, Severity, is_pending, is_tier1,
}
use sentri_mesh_astra.System.{proposal_is, publish_in}
use sentri_mesh_astra.Bus.{Message, publish}
use sentri_mesh_astra.Executor.{Host}
use sentri_mesh_astra.Response.{
  approval_has, State, proposal_of, pending_approval, execute, rollback, request_approval,
  on_classified_incident,
}
use sentri_mesh_astra.Control.{decided}
use sentri_mesh_astra.Control.Safety.Stable.{
  IsStable, Holds, is_allowed, execute-Holds, rollback-Holds,
}

module _ (host : Host) (enabled : Bool) (ts : List Tenant)
    (good : List ApprovalRequest → ActionProposal → Bool) (g : IsStable ts good) where
  -- All proposals are good by the approvals of the state, and its tenants are `ts`.
  abbrev pub Good : State host enabled → Type 0
  Good s = All (λ p. good s.approvals p ≡ true) s.proposals × (s.tenants ≡ ts)

  Good-Holds : (s : State host enabled) → Good s → Holds host enabled ts good g s.approvals s
  Good-Holds s h = record { proposals_good = h.0; same_approvals = refl; same_tenants = h.1 }

  Holds-Good :
      (rs : List ApprovalRequest) (s : State host enabled)
      → Holds host enabled ts good g rs s
      → Good s
  Holds-Good rs s h = (rw h.same_approvals h.proposals_good, h.same_tenants)

  pub execute-Good :
      (now k : ℕ) (s : State host enabled)
      → ((q : ActionProposal)
          → first (proposal_is k) s.proposals ≡ some q
          → is_allowed s.approvals q ≡ true)
      → Good s
      → Good (execute host enabled now k s).1
  execute-Good now k s may h =
      Holds-Good s.approvals (execute host enabled now k s).1
        (execute-Holds host enabled ts good g s.approvals now k s may (Good-Holds s h))

  pub rollback-Good :
      (now k : ℕ) (s : State host enabled) → Good s → Good (rollback host enabled now k s).1
  rollback-Good now k s h =
      Holds-Good s.approvals (rollback host enabled now k s).1
        (rollback-Holds host enabled ts good g s.approvals now k s (Good-Holds s h))

  All-added :
      (rs : List ApprovalRequest) (a : ApprovalRequest) (ps : List ActionProposal)
      → All (λ p. good rs p ≡ true) ps
      → All (λ p. good (rs ++ a ∷ []) p ≡ true) ps
  All-added rs a [] h = tt
  All-added rs a (p ∷ ps) h = (g.added rs p a h.0, All-added rs a ps h.1)

  pub All-resolved :
      (rs : List ApprovalRequest) (user : User) (test : ApprovalRequest → Bool) (approve : Bool)
      (note : String) (now : ℕ) (ps : List ActionProposal)
      → ((a : ApprovalRequest) → first test rs ≡ some a → is_pending a.status ≡ true)
      → All (λ p. good rs p ≡ true) ps
      → All (λ p. good (update_first test (decided user approve note now) rs) p ≡ true) ps
  All-resolved rs user test approve note now [] open_ h = tt
  All-resolved rs user test approve note now (p ∷ ps) open_ h = (
    g.resolved rs p user test approve note now open_ h.0,
    All-resolved rs user test approve note now ps open_ h.1,
  )

  request_approval-Good :
      (now k : ℕ) (p : ActionProposal) (s : State host enabled)
      → Good s
      → Good (request_approval host enabled now k p s).1
  unfolding request_approval
  request_approval-Good now k p s h =
      raise_if_keeps Good (any (approval_has k) s.approvals) exception _ s h
        (λ free. (All-added s.approvals (pending_approval now k p) s.proposals h.0, h.1))

  -- The new row is what the search for its key finds.
  first_fresh :
      (ps : List ActionProposal) (p q : ActionProposal)
      → any (proposal_is p.id) ps ≡ false
      → first (proposal_is p.id) (ps ++ p ∷ []) ≡ some q
      → p ≡ q
  first_fresh ps p q none_before found = ground (
    arith,
    first-append (proposal_is p.id) ps (p ∷ []),
    first-keep-none (proposal_is p.id) ps,
    ==_self p.id,
  )

  pub classified-Good :
      (now pid aid t i : ℕ) (sev : Severity) (a : Option String) (c : Fields)
      (s : State host enabled)
      → ((b : String) → a ≡ some b → good s.approvals (proposal_of pid t i b sev c now) ≡ true)
      → Good s
      → Good (on_classified_incident host enabled now pid aid t i sev a c s).1
  unfolding on_classified_incident publish_in
  classified-Good now pid aid t i sev none c s fresh h = h
  classified-Good now pid aid t i sev (some a) c s fresh h =
      let p = proposal_of pid t i a sev c now in
      if_keeps (λ m. Good (m s).1) (str_eq a "") (pure tt) _ (λ blank. h)
        (λ named. raise_if_keeps Good (any (proposal_is pid) s.proposals) exception _ s h (λ free.
          let s' : State host enabled = record s {
            proposals = s.proposals ++ p ∷ [];
            bus = publish "response" (some t) (Message.action_proposed t pid sev) now s.bus;
          } in
          let h' : Good s' = (
            All-append (λ q. good s.approvals q ≡ true) s.proposals (p ∷ []) h.0 (fresh a refl, tt),
            h.1,
          ) in
          if_keeps (λ m. Good (m s').1) (is_tier1 p.tier) (execute host enabled now pid)
            (request_approval host enabled now aid p)
            (λ auto.
              execute-Good now pid s'
                (λ q found.
                  subst (λ x. is_allowed s.approvals x ≡ true)
                    (first_fresh s.proposals p q free found) (rw auto))
                h')
            (λ held. request_approval-Good now aid p s' h')))
