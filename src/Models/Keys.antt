-- ===== src/Models/Keys.antt =====
-- The Redis keys that backend/app/ratelimit.py and backend/app/agents/detection.py build. Each
-- constructor is one of their format strings, whose prefixes keep the keys apart.
use sentri_mesh_astra.Prelude.{
  ℕ, String, ◌≡◌, refl, Bool, true, false, ◌&&◌, str_eq, eq_iff, ◌==◌, ==_self,
}

pub data Key : Type 0 where
  login_fail_email login_fail_ip : String → Key
  failed_logins : ℕ → String → Key
  last_login_location : ℕ → String → Key

abbrev pub key_eq : Key → Key → Bool
key_eq (Key.login_fail_email a) (Key.login_fail_email b) = str_eq a b
key_eq (Key.login_fail_ip a) (Key.login_fail_ip b) = str_eq a b
key_eq (Key.failed_logins t a) (Key.failed_logins u b) = t == u && str_eq a b
key_eq (Key.last_login_location t a) (Key.last_login_location u b) = t == u && str_eq a b
key_eq _ _ = false

pub key_eq_self : (k : Key) → key_eq k k ≡ true
key_eq_self (Key.login_fail_email a) = (eq_iff a a).1 refl
key_eq_self (Key.login_fail_ip a) = (eq_iff a a).1 refl
key_eq_self (Key.failed_logins t a) = rw (==_self t, (eq_iff a a).1 refl) refl
key_eq_self (Key.last_login_location t a) = rw (==_self t, (eq_iff a a).1 refl) refl
