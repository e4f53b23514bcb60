-- ===== src/Tenants/Created.antt =====
-- What the table of companies can become by a request to onboard one: `create_tenant` of
-- backend/app/routers/tenants.py.
use sentri_mesh_astra.Prelude.{
  ℕ, not, List, [], ◌∷◌, ◌++◌, is_some, any, keep, gets, pure, modify, raise_if, one_or_none, ◌>>=◌,
  ◌>>◌, raise_if_keeps, http, exception,
}
use sentri_mesh_astra.Tenants.{domain_is, create_tenant, tenant_from, TenantCreate}
use sentri_mesh_astra.System.{tenant_is}
use sentri_mesh_astra.Models.{is_admin, User, Tenant}

module _ (P : List Tenant → Type 0) (user : User) (payload : TenantCreate) (id now : ℕ)
    (ts : List Tenant) (before : P ts) (after : P (ts ++ tenant_from payload id now ∷ [])) where
  rows_keeps :
      (rows : List Tenant)
      → P
          ((one_or_none rows >>= λ existing.
              raise_if (is_some existing) (http 400)
              >> (gets (any (tenant_is id)) >>= λ taken.
                  raise_if taken exception
                  >> (modify (λ ts. ts ++ tenant_from payload id now ∷ [])
                      >> pure (tenant_from payload id now))))
            ts).1
  rows_keeps [] = raise_if_keeps P (any (tenant_is id) ts) exception _ ts before (λ free. after)
  rows_keeps (t ∷ []) = before
  rows_keeps (t ∷ u ∷ rest) = before

  -- It stays as it is, or the company is added at its end.
  pub create_tenant_keeps : P (create_tenant user payload id now ts).1
  unfolding create_tenant
  create_tenant_keeps =
      raise_if_keeps P (not (is_admin user.role)) (http 403) _ ts before
        (λ admin. rows_keeps (keep (domain_is payload.domain) ts))
