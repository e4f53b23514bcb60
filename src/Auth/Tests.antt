-- ===== src/Auth/Tests.antt =====
-- A few accounts and logins, for the theorems about backend/app/auth.py and the login endpoint.
use sentri_mesh_astra.Auth.Attempts.{HasUniqueEmails}
use sentri_mesh_astra.Prelude.{
  ℕ, String, ◌≡◌, refl, true, none, some, List, [], ◌∷◌, arith, str_eq, ltb, if◌then◌else◌, lower,
  strip_left, strip_right, strip, ok, err, http,
}
use sentri_mesh_astra.Models.{User, UserRole}
use sentri_mesh_astra.Window.{empty}
use sentri_mesh_astra.Auth.{Portal}
use sentri_mesh_astra.Auth.Lockout.{Limits}
use sentri_mesh_astra.Auth.Accounts.{
  Crypto, LoginRequest, SecurityHolderCreate, create_access_token, user_from_jwt,
  create_security_holder, bootstrap_admin, claims_of,
}
use sentri_mesh_astra.Auth.Refinement.{run_logins, promised_outcomes, run_logins_refines}
use sentri_mesh_astra.Auth.Sessions.{user_from_jwt-create_access_token}
use sentri_mesh_astra.Auth.Invariant.{IsSound, accounts-IsSound}

abbrev ann : User
ann = record {
  id = 7;
  email = "ann@acme.test";
  hashed_password = "secret";
  role = UserRole.security_holder;
  tenant_id = some 1;
  full_name = "Ann";
  is_active = true;
  created_at = 0;
}

-- A library that keeps passwords as they are, and knows the token of Ann's session from 0.
abbrev plain_crypto : Crypto
plain_crypto = record {
  hash = λ salt password. password;
  verify = str_eq;
  encode = λ c. "token";
  decode = λ token now. if ltb 43200 now then none else some (claims_of 720 ann 0);
}

abbrev attempt : String → String → LoginRequest
attempt email password = record { email = email; password = password; ip = "203.0.113.9" }

-- Two failures lock the account, in whatever case its email is written, until the first has left
-- the window of 10 seconds.
abbrev attempts : List (ℕ × LoginRequest)
attempts =
    (0, attempt "ann@acme.test" "guess")
    ∷ (5, attempt "Ann@acme.test" "secret")
    ∷ (6, attempt "ann@acme.test" "secret")
    ∷ (10, attempt "ann@acme.test" "secret")
    ∷ []

abbrev small_limits : Limits
small_limits = record { max_per_email = 2; max_per_ip = 30; window = 10 }

abbrev portal : Portal
portal = record {
  users = ann ∷ [];
  redis = λ k. empty;
  bus = record { audit_log = []; delivered = [] };
}

one_user : (u : User) → HasUniqueEmails (u ∷ [])
one_user u email = ground arith

outcomes_run :
    promised_outcomes plain_crypto 720 small_limits (ann ∷ []) attempts []
    ≡ err (http 401)
      ∷ err (http 401)
      ∷ err (http 429)
      ∷ ok (record { access_token = "token"; role = UserRole.security_holder; tenant_id = some 1 })
      ∷ []
unfolding create_access_token lower strip strip_left strip_right
outcomes_run = refl

user_from_jwt-create_access_token_example :
    user_from_jwt plain_crypto 720 (create_access_token plain_crypto 720 ann 0) 100 portal
    ≡ (ok ann, portal)
user_from_jwt-create_access_token_example =
    user_from_jwt-create_access_token plain_crypto 720 ann 0 100 portal
      (record { decode-encode = λ now. refl })

run_logins_refines_example :
    run_logins plain_crypto 720 small_limits attempts portal
    ≡ promised_outcomes plain_crypto 720 small_limits (ann ∷ []) attempts []
run_logins_refines_example =
    run_logins_refines plain_crypto 720 small_limits (ann ∷ []) portal attempts (one_user ann) refl
      refl (omega arith, (omega arith, (omega arith, (omega arith, tt))))

accounts-IsSound_example :
    let body : SecurityHolderCreate = record {
      email = "bob@acme.test";
      password = "longer password";
      full_name = "Bob";
      tenant_id = 1;
    } in
    IsSound (create_security_holder plain_crypto 720 ann body 8 0 3 portal).1.users
    × IsSound (bootstrap_admin plain_crypto 720 "root@acme.test" "x" 8 0 3 portal).1.users
accounts-IsSound_example =
    accounts-IsSound plain_crypto 720 ann
      (record {
        email = "bob@acme.test";
        password = "longer password";
        full_name = "Bob";
        tenant_id = 1;
      })
      "root@acme.test" "x" 8 0 3 portal (one_user ann, omega arith)
