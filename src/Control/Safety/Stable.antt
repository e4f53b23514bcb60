-- ===== src/Control/Safety/Stable.antt =====
-- Predicates on proposals that the handlers keep, whatever is asked of the system.
use sentri_mesh_astra.Prelude.{
  ℕ, String, ◌≡◌, refl, subst, Bool, true, false, not, ◌&&◌, ◌||◌, Option, none, some, List, [],
  ◌∷◌, ◌++◌, ◌==◌, ==_iff, is_some, any, first, first-passes, All, All-first, update_first,
  All-update_first, Action, pure, ◌>>=◌, >>=_keeps, if_keeps,
}
use sentri_mesh_astra.Models.{is_approved, is_tier1, Tenant, ActionProposal, ApprovalRequest}
use sentri_mesh_astra.System.{tenant_is, proposal_is, publish_in, audit_in}
use sentri_mesh_astra.Executor.{Host, ExecutionResult, execute_with, rollback_with}
use sentri_mesh_astra.Control.{or_404, is_pending, User, decided}
use sentri_mesh_astra.Response.{
  State, on_firewall, mark_executed, mark_rolled_back, run_executor, audit_blocked, execute_found,
  execute, run_rollback, rollback_found, rollback, is_engaged,
}

-- A row that is not there ends a request, and changes nothing.
pub or_404_keeps :
    {S A B : Type 0} (P : S → Type 0) (o : Option A) (k : A → Action S B) (s : S)
    → P s
    → ((a : A) → o ≡ some a → P (k a s).1)
    → P ((or_404 o >>= k) s).1
or_404_keeps P none k s h rest = h
or_404_keeps P (some a) k s h rest = rest a refl

-- The approvals by which a person let the proposal `k` run.
abbrev pub approves : ℕ → ApprovalRequest → Bool
approves k a = a.action_proposal_id == k && is_approved a.status && is_some a.decided_by_user_id

-- What may run: a tier-1 action, or an action that a person has approved.
abbrev pub is_allowed : List ApprovalRequest → ActionProposal → Bool
is_allowed rs p = is_tier1 p.tier || any (approves p.id) rs

-- A predicate on a proposal, given the approvals, that no handler breaks while the tenants are `ts`.
pub record IsStable (ts : List Tenant) (good : List ApprovalRequest → ActionProposal → Bool)
    : Type 0 where
  pub rolled :
      (rs : List ApprovalRequest) (p : ActionProposal) (r : ExecutionResult)
      → good rs p ≡ true
      → good rs (mark_rolled_back r p) ≡ true
  pub runs :
      (rs : List ApprovalRequest) (p : ActionProposal) (r : ExecutionResult) (now : ℕ)
      → is_engaged (first (tenant_is p.tenant_id) ts) ≡ false
      → is_allowed rs p ≡ true
      → good rs p ≡ true
      → good rs (mark_executed r now p) ≡ true
  pub added :
      (rs : List ApprovalRequest) (p : ActionProposal) (a : ApprovalRequest)
      → good rs p ≡ true
      → good (rs ++ a ∷ []) p ≡ true
  pub resolved :
      (rs : List ApprovalRequest) (p : ActionProposal) (user : User) (test : ApprovalRequest → Bool)
      (approve : Bool) (note : String) (now : ℕ)
      → ((a : ApprovalRequest) → first test rs ≡ some a → is_pending a.status ≡ true)
      → good rs p ≡ true
      → good (update_first test (decided user approve note now) rs) p ≡ true

module _ (host : Host) (enabled : Bool) (ts : List Tenant)
    (good : List ApprovalRequest → ActionProposal → Bool) (g : IsStable ts good) where
  -- All proposals are good; the approvals and tenants are these.
  pub record Holds (rs : List ApprovalRequest) (s : State host enabled) : Type 0 where
    pub proposals_good : All (λ p. good rs p ≡ true) s.proposals
    pub same_approvals : s.approvals ≡ rs
    pub same_tenants : s.tenants ≡ ts

  module _ (rs : List ApprovalRequest) where
    abbrev Kept : State host enabled → Type 0
    Kept = Holds rs

    run_executor-Holds :
        (now : ℕ) (p : ActionProposal) (s : State host enabled)
        → ((r : ExecutionResult) (q : ActionProposal)
            → first (proposal_is p.id) s.proposals ≡ some q
            → good rs (mark_executed r now q) ≡ true)
        → Kept s
        → Kept (run_executor host enabled now p s).1
    unfolding run_executor on_firewall publish_in
    run_executor-Holds now p s may h =
        >>=_keeps Kept
          (on_firewall host enabled (execute_with host enabled p.action_type p.parameters)) _ s
          (record {
            proposals_good = h.proposals_good;
            same_approvals = h.same_approvals;
            same_tenants = h.same_tenants;
          })
          (λ r e k. record {
            proposals_good =
                All-update_first (λ q. good rs q ≡ true) (proposal_is p.id) (mark_executed r now)
                  s.proposals (λ q found old. may r q found) h.proposals_good;
            same_approvals = h.same_approvals;
            same_tenants = h.same_tenants;
          })

    -- The row that the executor marks is the one that was found.
    marks_found :
        (now k : ℕ) (s : State host enabled) (p : ActionProposal)
        → first (proposal_is k) s.proposals ≡ some p
        → is_allowed rs p ≡ true
        → is_engaged (first (tenant_is p.tenant_id) s.tenants) ≡ false
        → Kept s
        → (r : ExecutionResult) (q : ActionProposal) → first (proposal_is p.id) s.proposals ≡ some q
        → good rs (mark_executed r now q) ≡ true
    marks_found now k s p found may free h r q e =
        let same : p.id ≡ k =
          (==_iff p.id k).0 (first-passes (proposal_is k) s.proposals p found) in
        let e' : first (proposal_is k) s.proposals ≡ some q =
          subst (λ j. first (proposal_is j) s.proposals ≡ some q) same e in
        let p_q : p ≡ q = cc (found, e') in
        subst (λ x. good rs (mark_executed r now x) ≡ true) p_q
          (g.runs rs p r now
            (subst (λ x. is_engaged (first (tenant_is p.tenant_id) x) ≡ false) h.same_tenants free)
            may
            (All-first (λ x. good rs x ≡ true) (proposal_is k) s.proposals p h.proposals_good
              found))

    execute_found-Holds :
        (now k : ℕ) (s : State host enabled) (o : Option ActionProposal)
        → first (proposal_is k) s.proposals ≡ o
        → ((q : ActionProposal) → o ≡ some q → is_allowed rs q ≡ true)
        → Kept s
        → Kept (execute_found host enabled now o s).1
    unfolding execute_found audit_blocked audit_in
    execute_found-Holds now k s none found may h = h
    execute_found-Holds now k s (some p) found may h =
        if_keeps (λ m. Kept (m s).1) p.executed (pure tt) _ (λ done. h)
          (λ waiting.
            if_keeps (λ m. Kept (m s).1) (is_engaged (first (tenant_is p.tenant_id) s.tenants))
              (audit_blocked host enabled now p) (run_executor host enabled now p)
              (λ halted. record {
                proposals_good = h.proposals_good;
                same_approvals = h.same_approvals;
                same_tenants = h.same_tenants;
              })
              (λ free.
                run_executor-Holds now p s (marks_found now k s p found (may p refl) free h) h))

    rollback_found-Holds :
        (now : ℕ) (o : Option ActionProposal) (s : State host enabled)
        → Kept s
        → Kept (rollback_found host enabled now o s).1
    unfolding rollback_found run_rollback on_firewall audit_in
    rollback_found-Holds now none s h = h
    rollback_found-Holds now (some p) s h =
        if_keeps (λ m. Kept (m s).1) (not p.executed) _ (run_rollback host enabled now p)
          (λ waiting. h)
          (λ done.
            >>=_keeps Kept
              (on_firewall host enabled (rollback_with host enabled p.action_type p.parameters)) _ s
              (record {
                proposals_good = h.proposals_good;
                same_approvals = h.same_approvals;
                same_tenants = h.same_tenants;
              })
              (λ r e k. record {
                proposals_good =
                    All-update_first (λ q. good rs q ≡ true) (proposal_is p.id) (mark_rolled_back r)
                      s.proposals (λ q found old. g.rolled rs q r old) h.proposals_good;
                same_approvals = h.same_approvals;
                same_tenants = h.same_tenants;
              }))

    -- An execution keeps the predicate if what it finds is allowed to run.
    pub execute-Holds :
        (now k : ℕ) (s : State host enabled)
        → ((q : ActionProposal)
            → first (proposal_is k) s.proposals ≡ some q
            → is_allowed rs q ≡ true)
        → Kept s
        → Kept (execute host enabled now k s).1
    unfolding execute
    execute-Holds now k s may h =
        execute_found-Holds now k s (first (proposal_is k) s.proposals) refl may h

    pub rollback-Holds :
        (now k : ℕ) (s : State host enabled) → Kept s → Kept (rollback host enabled now k s).1
    unfolding rollback
    rollback-Holds now k s h = rollback_found-Holds now (first (proposal_is k) s.proposals) s h
