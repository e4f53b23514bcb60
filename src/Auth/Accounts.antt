-- ===== src/Auth/Accounts.antt =====
-- backend/app/auth.py and backend/app/routers/auth.py: passwords, sessions, the login endpoint and
-- the accounts. passlib and jose are parameters.
use sentri_mesh_astra.Prelude.{
  ℕ, ◌+◌, ◌*◌, String, Bool, true, not, ◌||◌, Option, none, some, [], ◌∷◌, ◌++◌, str_eq, ◌==◌,
  if◌then◌else◌, is_some, any, keep, first, Action, gets, raise, pure, modify, raise_if,
  one_or_none, ◌>>=◌, ◌>>◌, ok, http, exception,
}
use sentri_mesh_astra.Json.{Fields, Value, no_fields, entry}
use sentri_mesh_astra.Models.{User, UserRole, is_admin}
use sentri_mesh_astra.Bus.{Payload, audit}
use sentri_mesh_astra.Auth.{Portal}
use sentri_mesh_astra.Auth.Lockout.{Limits, check_lockout, record_failed_attempt}

pub record Claims : Type 0 where
  pub sub : Option ℕ
  pub role : UserRole
  pub tenant_id : Option ℕ
  pub exp : ℕ

-- `pwd_context.hash` with its salt, `pwd_context.verify`, and jose's `encode` and `decode` under the
-- secret of the settings, where `decode` has the time and answers `none` for a `JWTError`.
pub record Crypto : Type 0 where
  pub hash : ℕ → String → String
  pub verify : String → String → Bool
  pub encode : Claims → String
  pub decode : String → ℕ → Option Claims

pub record Token : Type 0 where
  pub access_token : String
  pub role : UserRole
  pub tenant_id : Option ℕ

pub record LoginRequest : Type 0 where
  pub email : String
  pub password : String
  pub ip : String

pub record SecurityHolderCreate : Type 0 where
  pub email : String
  pub password : String
  pub full_name : String
  pub tenant_id : ℕ

abbrev pub email_is : String → User → Bool
email_is email u = str_eq u.email email

abbrev pub user_is : ℕ → User → Bool
user_is k u = u.id == k

unfoldable pub audit_login : String → String → Fields → ℕ → Action Portal Unit
audit_login email action details now p =
    (ok tt, record p { bus = audit email action "" (Payload.details details) none now p.bus })

-- An insertion into the users table, whose ids and emails are unique: an `IntegrityError` otherwise.
unfoldable pub insert_user : User → Action Portal Unit
insert_user u = do
  taken ← gets (λ p. any (λ v. email_is u.email v || user_is u.id v) p.users)
  raise_if taken exception
  modify (λ p. record p { users = p.users ++ u ∷ [] })

-- The two ways in which `login` ends without a session.
unfoldable pub turn_away : LoginRequest → String → ℕ → Action Portal Token
turn_away request reason now = do
  audit_login request.email "login_locked_out"
      (entry "ip" (Value.text request.ip) (entry "reason" (Value.text reason) no_fields)) now
  raise (http 429)

unfoldable pub refuse : Limits → LoginRequest → ℕ → Action Portal Token
refuse limits request now = do
  record_failed_attempt limits request.email request.ip now
  audit_login request.email "login_failed" (entry "ip" (Value.text request.ip) no_fields) now
  raise (http 401)

-- The payload of `create_access_token`.
abbrev pub claims_of : ℕ → User → ℕ → Claims
claims_of expire_minutes user now = record {
  sub = some user.id;
  role = user.role;
  tenant_id = user.tenant_id;
  exp = now + expire_minutes * 60;
}

module _ (crypto : Crypto) (expire_minutes : ℕ) where
  -- `create_access_token`
  unfoldable pub create_access_token : User → ℕ → String
  create_access_token user now = crypto.encode (claims_of expire_minutes user now)

  -- `user is None or not verify_password(…) or not user.is_active`
  unfoldable pub rejects : String → Option User → Bool
  rejects password none = true
  rejects password (some u) = not (crypto.verify password u.hashed_password) || not u.is_active

  abbrev pub session : ℕ → Option User → Action Portal Token
  session now none = raise exception
  session now (some u) =
      pure (record {
        access_token = create_access_token u now;
        role = u.role;
        tenant_id = u.tenant_id;
      })

  -- `login` behind the lockout.
  unfoldable pub login_unlocked : Limits → LoginRequest → ℕ → Action Portal Token
  login_unlocked limits request now = do
    rows ← gets (λ p. keep (email_is request.email) p.users)
    user ← one_or_none rows
    if rejects request.password user then refuse limits request now else session now user

  -- `login`
  unfoldable pub login : Limits → LoginRequest → ℕ → Action Portal Token
  login limits request now = do
    lockout ← check_lockout limits request.email request.ip now
    if lockout.locked
        then turn_away request lockout.reason now
        else login_unlocked limits request now

  -- `user_from_jwt` behind the decoding: `sub` is missing, or names no active account.
  unfoldable pub user_of_claims : Option Claims → Action Portal User
  user_of_claims none = raise (http 401)
  user_of_claims (some c) = elim c.sub [
    | none ↦ raise (http 401)
    | some k ↦ do
      found ← gets (λ p. first (user_is k) p.users)
      elim found [
        | none ↦ raise (http 401)
        | some u ↦ raise_if (not u.is_active) (http 401) >> pure u
      ]
  ]

  -- `user_from_jwt` and `get_current_user`
  unfoldable pub user_from_jwt : String → ℕ → Action Portal User
  user_from_jwt token now = user_of_claims (crypto.decode token now)

  -- `require_admin`
  unfoldable pub require_admin : User → Action Portal User
  require_admin user = raise_if (not (is_admin user.role)) (http 403) >> pure user

  abbrev pub holder_of : ℕ → ℕ → SecurityHolderCreate → ℕ → User
  holder_of id salt body now = record {
    id = id;
    email = body.email;
    hashed_password = crypto.hash salt body.password;
    role = UserRole.security_holder;
    tenant_id = some body.tenant_id;
    full_name = body.full_name;
    is_active = true;
    created_at = now;
  }

  -- `create_security_holder`
  unfoldable pub create_security_holder :
      User → SecurityHolderCreate → ℕ → ℕ → ℕ → Action Portal User
  create_security_holder admin body id salt now = do
    require_admin admin
    rows ← gets (λ p. keep (email_is body.email) p.users)
    existing ← one_or_none rows
    raise_if (is_some existing) (http 400)
    insert_user (holder_of id salt body now)
    pure (holder_of id salt body now)

  abbrev pub admin_of : String → String → ℕ → ℕ → ℕ → User
  admin_of email password id salt now = record {
    id = id;
    email = email;
    hashed_password = crypto.hash salt password;
    role = UserRole.admin;
    tenant_id = none;
    full_name = "Platform Admin";
    is_active = true;
    created_at = now;
  }

  -- `bootstrap_admin`
  unfoldable pub bootstrap_admin : String → String → ℕ → ℕ → ℕ → Action Portal Unit
  bootstrap_admin email password id salt now = do
    rows ← gets (λ p. keep (λ u. is_admin u.role) p.users)
    existing ← one_or_none rows
    if is_some existing then pure tt else insert_user (admin_of email password id salt now)
