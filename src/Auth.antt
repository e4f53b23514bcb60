-- ===== src/Auth.antt =====
-- backend/app/auth.py, ratelimit.py and routers/auth.py: accounts, sessions and the login endpoint.
pub mod Lockout
pub mod Keys
pub mod Accounts
pub mod Attempts
pub mod Refinement
pub mod Sessions
pub mod Invariant
mod Tests
use sentri_mesh_astra.Prelude.{List}
use sentri_mesh_astra.Models.{User}
use sentri_mesh_astra.Bus.{Bus}
use sentri_mesh_astra.Window.{Redis}

-- What the endpoints for accounts work on: the users table, Redis and the audit log.
pub record Portal : Type 0 where
  pub users : List User
  pub redis : Redis
  pub bus : Bus
