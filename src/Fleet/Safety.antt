-- ===== src/Fleet/Safety.antt =====
-- What holds of the platform while agents and people are at work: backend/app/agents and the routers that
-- decide about actions.
use sentri_mesh_astra.Prelude.{
  ℕ, ◌≡◌, refl, subst, Bool, true, false, List, [], ◌∷◌, ◌++◌, arith, first, All,
}
use sentri_mesh_astra.Models.{Tenant}
use sentri_mesh_astra.Executor.{Host}
use sentri_mesh_astra.System.{tenant_is}
use sentri_mesh_astra.Response.{is_engaged}
use sentri_mesh_astra.Control.{Event, serve}
use sentri_mesh_astra.Control.Safety.Events.{disengages}
use sentri_mesh_astra.Control.Safety.Authorized.{IsAuthorized, serve-IsAuthorized}
use sentri_mesh_astra.Control.Safety.Halted.{IsHalted, serve_from-IsHalted, All-executed}
use sentri_mesh_astra.Fleet.{World}
use sentri_mesh_astra.Fleet.Work.{Activity, Turn, request, work, work-keeps}

-- An activity by which an admin ends the kill switch of tenant `t`.
abbrev pub ends_halt : ℕ → Activity → Bool
ends_halt t (request e) = disengages t e
ends_halt t _ = false

module _ (host : Host) (enabled : Bool) where
  -- A company at the end of the table does not come first.
  still_engaged :
      (t : ℕ) (ts : List Tenant) (x : Tenant)
      → is_engaged (first (tenant_is t) ts) ≡ true
      → is_engaged (first (tenant_is t) (ts ++ x ∷ [])) ≡ true
  still_engaged t [] x h = absurd (ground (arith, h))
  still_engaged t (y ∷ ys) x h = ground (arith, still_engaged t ys x, h)

  any_request :
      (acts : List Turn) → All (λ (a : Turn). (e : Event) → a.2 ≡ request e → Unit {0}) acts
  any_request [] = tt
  any_request (a ∷ acts) = ((λ e same. tt), any_request acts)

  quiet_requests :
      (t : ℕ) (acts : List Turn)
      → All (λ a. ends_halt t a.2 ≡ false) acts
      → All (λ (a : Turn). (e : Event) → a.2 ≡ request e → disengages t e ≡ false) acts
  quiet_requests t [] quiet = tt
  quiet_requests t (a ∷ acts) quiet =
      ((λ e same. subst (λ x. ends_halt t x ≡ false) same quiet.0), quiet_requests t acts quiet.1)

  -- Whatever messages the agents work off, whatever requests of `Activity` arrive and whenever the two
  -- schedules run, in whatever order, succeeding or not, and whatever the world outside answers at each
  -- time: from a state where it is so, every executed proposal is of tier 1 or has been approved by a person.
  pub work-IsAuthorized :
      (acts : List Turn) (w : World host.Firewall)
      → IsAuthorized host enabled w.system
      → IsAuthorized host enabled (work host enabled acts w).system
  unfolding serve
  work-IsAuthorized acts w h =
      work-keeps host enabled (IsAuthorized host enabled) (λ s is b h. h) (λ s t h. h)
        (λ e. Unit {0}) (λ now e s may h. serve-IsAuthorized host enabled ((now, e) ∷ []) s h)
        (λ p a t k sev o c. tt) acts w (any_request acts) h

  -- While the kill switch of tenant `t` is engaged and no admin ends it, no agent, no schedule and no
  -- request of `Activity`, an approval included, executes an action of that tenant, and the switch stays
  -- engaged.
  pub work-IsHalted :
      (t : ℕ) (acts : List Turn) (w : World host.Firewall)
      → All (λ a. ends_halt t a.2 ≡ false) acts
      → is_engaged (first (tenant_is t) w.system.tenants) ≡ true
      → IsHalted host enabled t w.system.proposals (work host enabled acts w).system
  unfolding serve
  work-IsHalted t acts w quiet on =
      let ps = w.system.proposals in
      work-keeps host enabled (IsHalted host enabled t ps) (λ s is b h. h)
        (λ s x h. (h.0, still_engaged t s.tenants x h.1)) (λ e. disengages t e ≡ false)
        (λ now e s may h. serve_from-IsHalted host enabled t ps ((now, e) ∷ []) s (may, tt) h)
        (λ p a t' k sev o c. refl) acts w (quiet_requests t acts quiet)
        (All-executed t w.system.approvals ps, on)
