-- ===== src/Auth/Refinement.antt =====
-- Runs of logins: backend/app/routers/auth.py with its counters in Redis, against a specification that
-- keeps every failed attempt for ever.
use sentri_mesh_astra.Auth.Attempts.{login_refines, Stands, promised, HasUniqueEmails}
use sentri_mesh_astra.Prelude.{ℕ, ◌≤◌, ◌≡◌, refl, sym, ap, subst, List, [], ◌∷◌, Result}
use sentri_mesh_astra.Window.Refinement.{Tracks-empty, Tracks}
use sentri_mesh_astra.Models.{User}
use sentri_mesh_astra.Window.{empty}
use sentri_mesh_astra.Auth.{Portal}
use sentri_mesh_astra.Auth.Lockout.{Limits}
use sentri_mesh_astra.Auth.Accounts.{Crypto, Token, LoginRequest, login}
use sentri_mesh_astra.Auth.Keys.{Note}

module _ (crypto : Crypto) (expire_minutes : ℕ) (limits : Limits) where
  -- The outcomes of logins one after another, each with its time.
  unfoldable pub run_logins : List (ℕ × LoginRequest) → Portal → List (Result Token)
  run_logins [] p = []
  run_logins ((now, request) ∷ rest) p =
      let (out, p') = login crypto expire_minutes limits request now p in out ∷ run_logins rest p'

  abbrev pub promised_outcomes :
      List User → List (ℕ × LoginRequest) → List Note → List (Result Token)
  promised_outcomes users [] notes = []
  promised_outcomes users ((now, request) ∷ rest) notes =
      (promised crypto expire_minutes limits users request now notes).0
      ∷ promised_outcomes users rest
          (promised crypto expire_minutes limits users request now notes).1

  abbrev pub IsInOrder : ℕ → List (ℕ × LoginRequest) → Type 0
  IsInOrder t [] = Unit
  IsInOrder t ((now, request) ∷ rest) = (t ≤ now) × IsInOrder now rest

  run_logins_from :
      (users : List User) (now : ℕ) (notes : List Note) (p : Portal)
      (requests : List (ℕ × LoginRequest))
      → HasUniqueEmails users
      → Stands crypto expire_minutes limits users now notes p
      → IsInOrder now requests
      → run_logins requests p ≡ promised_outcomes users requests notes
  unfolding run_logins
  run_logins_from users now notes p [] unique h o = refl
  run_logins_from users now notes p ((s, request) ∷ rest) unique h o =
      let step =
        login_refines crypto expire_minutes limits users request now s notes p unique h o.0 in
      rw (step.0) (
        ap (λ outs. (promised crypto expire_minutes limits users request s notes).0 ∷ outs)
          (run_logins_from users s (promised crypto expire_minutes limits users request s notes).1
            (login crypto expire_minutes limits request s p).1 rest unique step.1 o.1))

  -- From an empty Redis, and while the clock does not go back and no two accounts share an email,
  -- every login ends as the specification says that keeps every failed attempt for ever: with 429
  -- while the failures for its email, case and outer white space aside, or from its source, that are
  -- less than the window old are as many as allowed, even with the right password; else with a
  -- session for an active account whose password is right, and with 401 for anything else.
  pub run_logins_refines :
      (users : List User) (p : Portal) (requests : List (ℕ × LoginRequest))
      → HasUniqueEmails users
      → p.users ≡ users
      → p.redis ≡ (λ k. empty)
      → IsInOrder 0 requests
      → run_logins requests p ≡ promised_outcomes users requests []
  run_logins_refines users p requests unique same fresh o =
      run_logins_from users 0 [] p requests unique
        (
          record {
            tracks = λ k.
                subst (λ b. Tracks limits.window 0 [] b) (sym (ap (λ r. r k) fresh))
                  (Tracks-empty limits.window 0);
          },
          same,
        )
        o
