-- ===== src/Auth/Sessions.antt =====
-- Sessions: the tokens of backend/app/auth.py from their issue to their use.
use sentri_mesh_astra.Prelude.{
  ℕ, ◌+◌, ◌*◌, ◌≡◌, none, some, arith, ltb, if◌then◌else◌, first, ok, err, http,
}
use sentri_mesh_astra.Models.{User}
use sentri_mesh_astra.Auth.{Portal}
use sentri_mesh_astra.Auth.Accounts.{
  Claims, Crypto, user_is, create_access_token, user_of_claims, user_from_jwt, claims_of,
}

-- jose: the token of these claims is decoded to them up to the second that they name, and is a
-- `JWTError` afterwards.
pub record Documented (crypto : Crypto) (c : Claims) : Type 0 where
  pub decode-encode :
      (now : ℕ) → crypto.decode (crypto.encode c) now ≡ (if ltb c.exp now then none else some c)

-- A token works for the account that it was issued to, as the account is at the time of the request,
-- while it has not expired and the account is still there and active; at any other time it is a 401.
-- The state is only read.
pub user_from_jwt-create_access_token :
    (crypto : Crypto) (expire_minutes : ℕ) (u : User) (issued now : ℕ) (p : Portal)
    → Documented crypto (claims_of expire_minutes u issued)
    → user_from_jwt crypto expire_minutes (create_access_token crypto expire_minutes u issued) now p
      ≡ (if ltb (issued + expire_minutes * 60) now
          then (err (http 401), p)
          else elim (first (user_is u.id) p.users) [
            | none ↦ (err (http 401), p)
            | some v ↦ if v.is_active then (ok v, p) else (err (http 401), p)
          ])
unfolding user_from_jwt create_access_token user_of_claims
user_from_jwt-create_access_token crypto expire_minutes u issued now p documented =
    rw (documented.decode-encode now) (ground arith)
