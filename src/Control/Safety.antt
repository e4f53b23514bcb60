-- ===== src/Control/Safety.antt =====
-- Invariants of the state under the handlers of backend/app/agents/response.py and the routers:
-- `Stable` has the induction, once for every predicate on proposals.
pub mod Stable
pub mod Steps
pub mod Requests
pub mod Events
pub mod Authorized
pub mod Halted
