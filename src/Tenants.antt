-- ===== src/Tenants.antt =====
-- backend/app/routers/tenants.py: onboarding companies and showing them; Control has its kill switch.
pub mod Domains
pub mod Visibility
pub mod Created
mod Tests
use sentri_mesh_astra.Prelude.{
  ℕ, String, Bool, false, not, none, List, [], ◌∷◌, ◌++◌, str_eq, if◌then◌else◌, is_some, any, keep,
  first, Action, gets, pure, modify, raise_if, one_or_none, ◌>>=◌, ◌>>◌, http, exception,
}
use sentri_mesh_astra.Models.{User, Tenant, is_admin}
use sentri_mesh_astra.System.{tenant_is}
use sentri_mesh_astra.Control.{same_tenant, check_tenant_access, or_404}

pub record TenantCreate : Type 0 where
  pub name : String
  pub domain : String
  pub sector : String

abbrev pub domain_is : String → Tenant → Bool
domain_is d t = str_eq t.domain d

-- The row that is added.
abbrev pub tenant_from : TenantCreate → ℕ → ℕ → Tenant
tenant_from payload id now = record {
  id = id;
  name = payload.name;
  domain = payload.domain;
  sector = payload.sector;
  created_at = now;
  kill_switch_engaged = false;
  kill_switch_reason = none;
}

-- `create_tenant`, behind `require_admin`.
unfoldable pub create_tenant : User → TenantCreate → ℕ → ℕ → Action (List Tenant) Tenant
create_tenant user payload id now = do
  raise_if (not (is_admin user.role)) (http 403)
  rows ← gets (keep (domain_is payload.domain))
  existing ← one_or_none rows
  raise_if (is_some existing) (http 400)
  taken ← gets (any (tenant_is id))
  raise_if taken exception
  modify (λ ts. ts ++ tenant_from payload id now ∷ [])
  pure (tenant_from payload id now)

-- The select of `list_tenants` for a user.
abbrev pub listed : User → List Tenant → List Tenant
listed user ts = if is_admin user.role then ts else keep (λ t. same_tenant user.tenant_id t.id) ts

-- `list_tenants`
unfoldable pub list_tenants : User → Action (List Tenant) (List Tenant)
list_tenants user = gets (listed user)

-- `get_tenant`
unfoldable pub get_tenant : User → ℕ → Action (List Tenant) Tenant
get_tenant user tenant_id = do
  check_tenant_access user tenant_id
  found ← gets (first (tenant_is tenant_id))
  or_404 found

-- Requests to `create_tenant`, one after another, each with its user, fresh id and time.
unfoldable pub create_all : List (User × TenantCreate × ℕ × ℕ) → List Tenant → List Tenant
create_all [] ts = ts
create_all ((user, payload, id, now) ∷ rest) ts =
    create_all rest (create_tenant user payload id now ts).1
