-- ===== src/Auth/Lockout.antt =====
-- backend/app/ratelimit.py: the two counters of failed logins, one for an email and one for a source.
use sentri_mesh_astra.Prelude.{
  ℕ, ◌*◌, String, Bool, true, false, leb, if◌then◌else◌, Action, pure, ◌>>=◌, ◌>>◌, lower, strip,
  ok,
}
use sentri_mesh_astra.Models.{Key}
use sentri_mesh_astra.Window.{record_and_count, count_without_recording}
use sentri_mesh_astra.Auth.{Portal}

-- The three settings of backend/app/config.py that the lockout reads, and their defaults.
pub record Limits : Type 0 where
  pub max_per_email : ℕ
  pub max_per_ip : ℕ
  pub window : ℕ

abbrev pub default_limits : Limits
default_limits = record { max_per_email = 8; max_per_ip = 30; window = 5 * 60 }

pub record LockoutStatus : Type 0 where
  pub locked : Bool
  pub retry_after_seconds : ℕ
  pub reason : String

abbrev pub email_key : String → Key
email_key email = Key.login_fail_email (lower (strip email))

abbrev pub ip_key : String → Key
ip_key ip = Key.login_fail_ip ip

-- A count of backend/app/state_store.py, in the state.
unfoldable pub counted : Key → ℕ → ℕ → Action Portal ℕ
counted key window now p =
    let (redis, n) = count_without_recording p.redis key window now in
    (ok n, record p { redis = redis })

unfoldable pub recorded : Key → ℕ → ℕ → Action Portal ℕ
recorded key window now p =
    let (redis, n) = record_and_count p.redis key window now in (ok n, record p { redis = redis })

abbrev pub open_status : LockoutStatus
open_status = record { locked = false; retry_after_seconds = 0; reason = "" }

abbrev pub locked_status : ℕ → String → LockoutStatus
locked_status window reason = record {
  locked = true;
  retry_after_seconds = window;
  reason = reason;
}

-- `check_lockout`
unfoldable pub check_lockout : Limits → String → String → ℕ → Action Portal LockoutStatus
check_lockout limits email ip now = do
  email_count ← counted (email_key email) limits.window now
  if leb limits.max_per_email email_count
      then pure (locked_status limits.window "too many failed attempts for this account")
      else do
        ip_count ← counted (ip_key ip) limits.window now
        if leb limits.max_per_ip ip_count
            then pure (locked_status limits.window "too many failed attempts from this source")
            else pure open_status

-- `record_failed_attempt`
unfoldable pub record_failed_attempt : Limits → String → String → ℕ → Action Portal Unit
record_failed_attempt limits email ip now = do
  recorded (email_key email) limits.window now
  recorded (ip_key ip) limits.window now
  pure tt
