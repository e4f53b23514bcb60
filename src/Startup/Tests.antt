-- ===== src/Startup/Tests.antt =====
-- The settings and headers of backend/app/config.py and backend/app/security_headers.py at work.
use sentri_mesh_astra.Prelude.{String, ◌≡◌, refl, false, [], ◌∷◌, str_eq, any, lower}
use sentri_mesh_astra.Startup.{
  set_default, set_defaults, default_settings, insecure_defaults, normalize_database_url, dispatch,
}

provider_url : normalize_database_url "postgres://u:p@host/db" ≡ "postgresql+asyncpg://u:p@host/db"
unfolding normalize_database_url
provider_url = refl

plain_url : normalize_database_url default_settings.database_url ≡ default_settings.database_url
unfolding normalize_database_url
plain_url = refl

both_warned : insecure_defaults default_settings ≡ "JWT_SECRET" ∷ "BOOTSTRAP_ADMIN_PASSWORD" ∷ []
unfolding insecure_defaults
both_warned = refl

frame_options_kept :
    any
      (λ (h : String × String). str_eq h.1 "DENY")
      (dispatch (("x-frame-options", "SAMEORIGIN") ∷ []))
    ≡ false
unfolding dispatch set_defaults set_default lower
frame_options_kept = refl
