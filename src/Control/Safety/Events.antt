-- ===== src/Control/Safety/Events.antt =====
-- What every event keeps, and what the kill switch route does to the tenants.
use sentri_mesh_astra.Prelude.{
  ℕ, String, ◌≡◌, refl, sym, ◌∙◌, subst, Bool, true, false, not, ◌&&◌, Option, List, [], ◌∷◌, arith,
  ◌==◌, first, All, update_first, pure, >>=_keeps, raise_if_keeps, http,
}
use sentri_mesh_astra.Models.{User, Tenant, ActionProposal, ApprovalRequest, is_admin}
use sentri_mesh_astra.System.{tenant_is, publish_in}
use sentri_mesh_astra.Bus.{Bus}
use sentri_mesh_astra.Executor.{Host}
use sentri_mesh_astra.Response.{State, is_engaged}
use sentri_mesh_astra.Control.{
  rollback_action, decide_approval, Event, handle, set_kill_switch, check_tenant_access, has_access,
}
use sentri_mesh_astra.Control.Safety.Stable.{IsStable, or_404_keeps}
use sentri_mesh_astra.Control.Safety.Steps.{Good, classified-Good}
use sentri_mesh_astra.Control.Safety.Requests.{decide_approval-Good, rollback_action-Good}

-- The events by which an admin ends the kill switch of tenant `k`.
abbrev pub disengages : ℕ → Event → Bool
disengages k (Event.kill_switch user t engaged reason) =
    t == k && not engaged && is_admin user.role && has_access user t
disengages k _ = false

engaged-update_first :
    (k t : ℕ) (engaged : Bool) (reason : Option String) (ts : List Tenant)
    → (t == k) && not engaged ≡ false
    → is_engaged (first (tenant_is k) ts) ≡ true
    → is_engaged (
        first (tenant_is k) (
          update_first
            (tenant_is t)
            (λ u. record u { kill_switch_engaged = engaged; kill_switch_reason = reason })
            ts))
      ≡ true
engaged-update_first k t engaged reason [] keep_on h = h
engaged-update_first k t engaged reason (u ∷ ts) keep_on h =
    ground (arith, engaged-update_first k t engaged reason ts keep_on)

module _ (host : Host) (enabled : Bool) where
  -- The kill switch route leaves proposals and approvals alone, and the tenants as they are or with
  -- the one tenant's switch set.
  set_kill_switch-keeps :
      (user : User) (t : ℕ) (engaged : Bool) (reason : Option String) (now : ℕ)
      (P : State host enabled → Type 0) (s : State host enabled)
      → P s
      → (not engaged && not (is_admin user.role) ≡ false
          → has_access user t ≡ true
          → (b : Bus)
          → P (record s {
            tenants =
                update_first
                  (tenant_is t)
                  (λ u. record u { kill_switch_engaged = engaged; kill_switch_reason = reason })
                  s.tenants;
            bus = b;
          }))
      → P (set_kill_switch host enabled user t engaged reason now s).1
  unfolding set_kill_switch check_tenant_access publish_in
  set_kill_switch-keeps user t engaged reason now P s h changed =
      raise_if_keeps P (not (has_access user t)) (http 403) _ s h (λ allowed.
        raise_if_keeps P (not engaged && not (is_admin user.role)) (http 403) _ s h (λ may.
          or_404_keeps P (first (tenant_is t) s.tenants) _ s h
            (λ u found. changed may (ground arith) _)))

  module _ (ts : List Tenant) (good : List ApprovalRequest → ActionProposal → Bool)
      (g : IsStable ts good)
      (fresh : (rs : List ApprovalRequest) (p : ActionProposal)
        → p.executed ≡ false
        → good rs p ≡ true) where
    abbrev Kept : State host enabled → Type 0
    Kept s = All (λ p. good s.approvals p ≡ true) s.proposals

    -- Any event, whether it succeeds or raises, leaves every proposal good by the approvals then.
    pub handle-proposals :
        (now : ℕ) (e : Event) (s : State host enabled)
        → Good host enabled ts good g s
        → Kept (handle host enabled now e s).1
    unfolding handle
    handle-proposals now (Event.classified pid aid t i sev a c) s h =
        (classified-Good host enabled ts good g now pid aid t i sev a c s
          (λ b e. fresh s.approvals _ refl) h).0
    handle-proposals now (Event.decide user t k approve note) s h =
        >>=_keeps Kept (decide_approval host enabled user t k approve note now) (λ x. pure tt) s
          (decide_approval-Good host enabled ts good g user t k approve note now s h).0
          (λ x e kept. kept)
    handle-proposals now (Event.kill_switch user t engaged reason) s h =
        >>=_keeps Kept (set_kill_switch host enabled user t engaged reason now) (λ x. pure tt) s
          (set_kill_switch-keeps user t engaged reason now Kept s h.0 (λ may access b. h.0))
          (λ x e kept. kept)
    handle-proposals now (Event.roll_back user t k) s h =
        >>=_keeps Kept (rollback_action host enabled user t k now) (λ x. pure tt) s
          (rollback_action-Good host enabled ts good g user t k now s h).0 (λ x e kept. kept)

    -- An engaged kill switch stays engaged unless an admin with access ends it.
    pub handle-engaged :
        (k now : ℕ) (e : Event) (s : State host enabled)
        → Good host enabled ts good g s
        → disengages k e ≡ false
        → is_engaged (first (tenant_is k) s.tenants) ≡ true
        → is_engaged (first (tenant_is k) (handle host enabled now e s).1.tenants) ≡ true
    unfolding handle
    handle-engaged k now (Event.kill_switch user t engaged reason) s h keep_on on =
        let P : State host enabled → Type 0 =
          λ u. is_engaged (first (tenant_is k) u.tenants) ≡ true in
        >>=_keeps P (set_kill_switch host enabled user t engaged reason now) (λ x. pure tt) s
          (set_kill_switch-keeps user t engaged reason now P s on
            (λ may access b. engaged-update_first k t engaged reason s.tenants (ground arith) on))
          (λ x e kept. kept)
    handle-engaged k now (Event.classified pid aid t i sev a c) s h keep_on on =
        subst (λ x. is_engaged (first (tenant_is k) x) ≡ true)
          (h.1
            ∙ sym
                (classified-Good host enabled ts good g now pid aid t i sev a c s
                  (λ b e. fresh s.approvals _ refl) h).1)
          on
    handle-engaged k now (Event.decide user t j approve note) s h keep_on on =
        subst (λ x. is_engaged (first (tenant_is k) x) ≡ true)
          (h.1
            ∙ sym (
                >>=_keeps (λ (u : State host enabled). u.tenants ≡ ts)
                  (decide_approval host enabled user t j approve note now) (λ x. pure tt) s
                  (decide_approval-Good host enabled ts good g user t j approve note now s h).1
                  (λ x e kept. kept)))
          on
    handle-engaged k now (Event.roll_back user t j) s h keep_on on =
        subst (λ x. is_engaged (first (tenant_is k) x) ≡ true)
          (h.1
            ∙ sym (
                >>=_keeps (λ (u : State host enabled). u.tenants ≡ ts)
                  (rollback_action host enabled user t j now) (λ x. pure tt) s
                  (rollback_action-Good host enabled ts good g user t j now s h).1
                  (λ x e kept. kept)))
          on
