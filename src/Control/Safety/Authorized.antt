-- ===== src/Control/Safety/Authorized.antt =====
-- No action beyond tier 1 runs without a person's approval: backend/app/agents/response.py and
-- backend/app/routers/approvals.py, over any run of the system.
use sentri_mesh_astra.Prelude.{
  ℕ, String, ◌≡◌, refl, Bool, true, not, ◌||◌, some, List, [], ◌∷◌, arith, any, first, All,
  update_first, any-update_first, any-append_left,
}
use sentri_mesh_astra.Models.{
  User, Tenant, ActionProposal, ApprovalRequest, ApprovalStatus, is_pending, is_approved,
}
use sentri_mesh_astra.Executor.{Host}
use sentri_mesh_astra.Response.{State}
use sentri_mesh_astra.Control.{Event, handle, serve, decided}
use sentri_mesh_astra.Control.Safety.Stable.{IsStable, approves, is_allowed}
use sentri_mesh_astra.Control.Safety.Events.{handle-proposals}

-- An executed proposal is of tier 1, or an approval of it has the status APPROVED and names who
-- decided it.
abbrev pub authorized : List ApprovalRequest → ActionProposal → Bool
authorized rs p = not p.executed || is_allowed rs p

pending_not_approved : (st : ApprovalStatus) → is_pending st ≡ true → is_approved st ≡ true → ⊥
pending_not_approved st p q = ground arith

approves_status : (k : ℕ) (a : ApprovalRequest) → approves k a ≡ true → is_approved a.status ≡ true
approves_status k a h = ground arith

not_both :
    (k : ℕ) (a : ApprovalRequest) {b : Bool}
    → is_pending a.status ≡ true
    → approves k a ≡ true
    → b ≡ true
not_both k a open_ old = absurd (pending_not_approved a.status open_ (approves_status k a old))

-- Resolving a pending approval takes no approval away.
approves-resolved :
    (k : ℕ) (rs : List ApprovalRequest) (user : User) (test : ApprovalRequest → Bool)
    (approve : Bool) (note : String) (now : ℕ)
    → ((a : ApprovalRequest) → first test rs ≡ some a → is_pending a.status ≡ true)
    → any (approves k) rs ≡ true
    → any (approves k) (update_first test (decided user approve note now) rs) ≡ true
approves-resolved k rs user test approve note now pending h =
    any-update_first (approves k) test (decided user approve note now) rs
      (λ a found old. not_both k a (pending a found) old) h

authorized-IsStable : (ts : List Tenant) → IsStable ts authorized
authorized-IsStable ts = record {
  rolled = λ rs p r h. h;
  runs = λ rs p r now free may old. may;
  added = λ rs p a h. ground (arith, any-append_left (approves p.id) rs (a ∷ []));
  resolved = λ rs p user test approve note now pending h.
      ground (arith, approves-resolved p.id rs user test approve note now pending);
}

-- Every executed proposal of a state is authorized by its approvals.
abbrev pub IsAuthorized : (host : Host) (enabled : Bool) → State host enabled → Type 0
IsAuthorized host enabled s = All (λ p. authorized s.approvals p ≡ true) s.proposals

module _ (host : Host) (enabled : Bool) where
  -- Whatever classified incidents and requests arrive, in whatever order, succeeding or not: from a
  -- state where it is so, every executed proposal is of tier 1 or has been approved by a person.
  pub serve-IsAuthorized :
      (es : List (ℕ × Event)) (s : State host enabled)
      → IsAuthorized host enabled s
      → IsAuthorized host enabled (serve host enabled es s)
  unfolding serve
  serve-IsAuthorized [] s h = h
  serve-IsAuthorized ((now, e) ∷ es) s h = serve-IsAuthorized es (handle host enabled now e s).1 (
      handle-proposals host enabled s.tenants authorized (authorized-IsStable s.tenants)
        (λ rs p w. ground arith) now e s (h, refl))
