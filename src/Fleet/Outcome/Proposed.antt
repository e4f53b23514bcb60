-- ===== src/Fleet/Outcome/Proposed.antt =====
-- A classified incident gets its proposal: backend/app/agents/response.py.
use sentri_mesh_astra.Prelude.{
  ℕ, ◌+◌, ◌≤◌, ◌<◌, String, ◌≡◌, refl, Bool, true, false, Option, none, some, List, [], ◌∷◌, ◌++◌,
  arith, str_eq, ==_self, any, All-append, any-append, update_first, any-update_first,
  any-append_left,
}
use sentri_mesh_astra.Json.{Fields}
use sentri_mesh_astra.Models.{Severity, ActionProposal}
use sentri_mesh_astra.Bus.{Message}
use sentri_mesh_astra.System.{incident_is, proposal_is}
use sentri_mesh_astra.Executor.{Host, ExecutionResult}
use sentri_mesh_astra.Response.{State, on_classified_incident, proposal_of, mark_executed}
use sentri_mesh_astra.Fleet.Outcome.{is_for, names_action, HasFreshIds, IsGrowing}
use sentri_mesh_astra.Fleet.Outcome.Kept.{announced-Keeps}
use sentri_mesh_astra.Fleet.Outcome.Moved.{false_of_not}

-- That incident `k` has a proposal goes on to hold.
abbrev HasProposal : ℕ → List Message → List ActionProposal → Type 0
HasProposal k ms ps = any (is_for k) ps ≡ true

pub is_for-marked :
    (k j : ℕ) (r : ExecutionResult) (now : ℕ) (ps : List ActionProposal)
    → any (is_for k) ps ≡ true
    → any (is_for k) (update_first (proposal_is j) (mark_executed r now) ps) ≡ true
is_for-marked k j r now ps h =
    any-update_first (is_for k) (proposal_is j) (mark_executed r now) ps (λ p found own. own) h

HasProposal-IsGrowing : (k : ℕ) → IsGrowing (HasProposal k)
HasProposal-IsGrowing k = record {
  published = λ ms m ps quiet h. h;
  proposed = λ ms ps p h. any-append_left (is_for k) ps (p ∷ []) h;
  marked = λ ms ps j r now h. is_for-marked k j r now ps h;
}

fresh_free : (n : ℕ) (ps : List ActionProposal) → HasFreshIds n ps → any (proposal_is n) ps ≡ false
fresh_free n [] h = refl
fresh_free n (p ∷ ps) h = ground (arith, fresh_free n ps h.1, h.0)

pub HasFreshIds-le :
    (m n : ℕ) (ps : List ActionProposal) → m ≤ n → HasFreshIds m ps → HasFreshIds n ps
HasFreshIds-le m n [] le h = tt
HasFreshIds-le m n (p ∷ ps) le h = (omega (arith, le, h.0), HasFreshIds-le m n ps le h.1)

module _ (host : Host) (enabled : Bool) where
  -- A classified incident with an action gets its proposal under the fresh id.
  pub on_classified_incident-HasProposal :
      (now n approval_id t k : ℕ) (sev : Severity) (action : Option String) (context : Fields)
      (s : State host enabled)
      → any (incident_is k) s.incidents ≡ true
      → HasFreshIds n s.proposals
      → names_action action ≡ true
      → any
          (is_for k)
          (on_classified_incident host enabled now n approval_id t k sev action context
            s).1.proposals
        ≡ true
  unfolding on_classified_incident
  on_classified_incident-HasProposal now n approval_id t k sev none context s row fresh named =
      absurd (ground (arith, named))
  on_classified_incident-HasProposal now n approval_id t k sev (some a) context s row fresh named =
      let p = proposal_of n t k a sev context now in
      rw (false_of_not (str_eq a "") named, fresh_free n s.proposals fresh)
        (announced-Keeps host enabled k (HasProposal k) (HasProposal-IsGrowing k) (n + 1) now
          approval_id p sev (record s { proposals = s.proposals ++ p ∷ [] })
          (
            row,
            All-append (λ q. q.id < n + 1) s.proposals (p ∷ [])
                (HasFreshIds-le n (n + 1) s.proposals (omega arith) fresh) (omega arith, tt),
            rw (any-append (is_for k) s.proposals (p ∷ [])) (ground (arith, ==_self k)),
          )).2
