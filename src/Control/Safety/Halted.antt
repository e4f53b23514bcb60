-- ===== src/Control/Safety/Halted.antt =====
-- The kill switch of a tenant stops its actions: backend/app/agents/response.py and
-- backend/app/routers/tenants.py, over any run of the system.
use sentri_mesh_astra.Prelude.{
  ℕ, ◌≡◌, refl, subst, inl, inr, Bool, true, false, not, ◌&&◌, ◌||◌, List, [], ◌∷◌, arith, ◌==◌,
  ==_iff, ==_self, Bool-cases, any, first, All,
}
use sentri_mesh_astra.Models.{Tenant, ActionProposal, ApprovalRequest}
use sentri_mesh_astra.System.{tenant_is}
use sentri_mesh_astra.Executor.{Host}
use sentri_mesh_astra.Response.{State, is_engaged}
use sentri_mesh_astra.Control.{Event, handle, serve}
use sentri_mesh_astra.Control.Safety.Stable.{IsStable}
use sentri_mesh_astra.Control.Safety.Events.{handle-proposals, handle-engaged, disengages}

-- The proposal with key `k` was already executed among `ps`.
abbrev pub was_executed : List ActionProposal → ℕ → Bool
was_executed ps k = any (λ q. q.id == k && q.executed) ps

-- A proposal of tenant `t` that is executed was so among `ps`.
abbrev pub halted : ℕ → List ActionProposal → List ApprovalRequest → ActionProposal → Bool
halted t ps rs p = not (p.tenant_id == t && p.executed) || was_executed ps p.id

other_tenant :
    (t k : ℕ) (ts : List Tenant)
    → is_engaged (first (tenant_is t) ts) ≡ true
    → is_engaged (first (tenant_is k) ts) ≡ false
    → (k == t) ≡ false
other_tenant t k ts on off = elim (Bool-cases (k == t)) [
  | inl same ↦
      let k_t : k ≡ t = (==_iff k t).0 same in
      cc (on, subst (λ j. is_engaged (first (tenant_is j) ts) ≡ false) k_t off)
  | inr other ↦ other
]

halted-IsStable :
    (t : ℕ) (ps : List ActionProposal) (ts : List Tenant)
    → is_engaged (first (tenant_is t) ts) ≡ true
    → IsStable ts (halted t ps)
halted-IsStable t ps ts on = record {
  rolled = λ rs p r h. h;
  runs = λ rs p r now free may old. rw (other_tenant t p.tenant_id ts on free);
  added = λ rs p a h. h;
  resolved = λ rs p user test approve note now pending h. h;
}

All-suffix :
    (t : ℕ) (rs : List ApprovalRequest) (ps qs : List ActionProposal)
    → ((k : ℕ) → was_executed qs k ≡ true → was_executed ps k ≡ true)
    → All (λ p. halted t ps rs p ≡ true) qs
All-suffix t rs ps [] within = tt
All-suffix t rs ps (q ∷ qs) within = (
  ground (arith, within q.id, ==_self q.id),
  All-suffix t rs ps qs (λ k h. within k (ground arith)),
)

-- Every executed proposal is among the executed ones of its own table.
pub All-executed :
    (t : ℕ) (rs : List ApprovalRequest) (ps : List ActionProposal)
    → All (λ p. halted t ps rs p ≡ true) ps
All-executed t rs ps = All-suffix t rs ps ps (λ k h. h)

module _ (host : Host) (enabled : Bool) (t : ℕ) where
  abbrev pub IsHalted : List ActionProposal → State host enabled → Type 0
  IsHalted ps s =
      All (λ p. halted t ps s.approvals p ≡ true) s.proposals
      × (is_engaged (first (tenant_is t) s.tenants) ≡ true)

  pub serve_from-IsHalted :
      (ps : List ActionProposal) (es : List (ℕ × Event)) (s : State host enabled)
      → All (λ e. disengages t e.1 ≡ false) es
      → IsHalted ps s
      → IsHalted ps (serve host enabled es s)
  unfolding serve
  serve_from-IsHalted ps [] s quiet h = h
  serve_from-IsHalted ps ((now, e) ∷ es) s quiet h =
      let g = halted-IsStable t ps s.tenants h.1 in
      serve_from-IsHalted ps es (handle host enabled now e s).1 quiet.1 (
        handle-proposals host enabled s.tenants (halted t ps) g (λ rs p w. ground arith) now e s
            (h.0, refl),
        handle-engaged host enabled s.tenants (halted t ps) g (λ rs p w. ground arith) t now e s
            (h.0, refl) quiet.0 h.1,
      )

  -- While the kill switch of tenant `t` is engaged and no admin ends it, no event of any kind, an
  -- approval included, executes an action of that tenant, and the switch stays engaged.
  pub serve-IsHalted :
      (es : List (ℕ × Event)) (s : State host enabled)
      → All (λ e. disengages t e.1 ≡ false) es
      → is_engaged (first (tenant_is t) s.tenants) ≡ true
      → IsHalted s.proposals (serve host enabled es s)
  serve-IsHalted es s quiet on =
      serve_from-IsHalted s.proposals es s quiet (All-executed t s.approvals s.proposals, on)
