-- ===== src/Tenants/Domains.antt =====
-- That a domain is onboarded once: `create_tenant` of backend/app/routers/tenants.py.
use sentri_mesh_astra.Prelude.{
  ℕ, ◌≤◌, String, ◌≡◌, refl, subst, inl, inr, true, false, List, [], ◌∷◌, ◌++◌, eq_iff, Bool-cases,
  length, any, keep, length-keep-last, none_kept,
}
use sentri_mesh_astra.Models.{is_admin, User, Tenant}
use sentri_mesh_astra.Tenants.{
  tenant_is, TenantCreate, domain_is, tenant_from, create_tenant, create_all,
}

-- No two rows have one domain.
unfoldable pub HasDistinctDomains : List Tenant → Type 0
HasDistinctDomains ts = (d : String) → length (keep (domain_is d) ts) ≤ 1

added :
    (ts : List Tenant) (payload : TenantCreate) (id now : ℕ)
    → HasDistinctDomains ts
    → keep (domain_is payload.domain) ts ≡ []
    → HasDistinctDomains (ts ++ tenant_from payload id now ∷ [])
unfolding HasDistinctDomains
added ts payload id now distinct new d =
    length-keep-last (domain_is d) ts (tenant_from payload id now) (distinct d) (λ same.
      subst (λ x. any (domain_is x) ts ≡ false) ((eq_iff payload.domain d).0 same)
        (none_kept (domain_is payload.domain) ts new))

create_keeps :
    (user : User) (payload : TenantCreate) (id now : ℕ) (ts rows : List Tenant)
    → is_admin user.role ≡ true
    → keep (domain_is payload.domain) ts ≡ rows
    → HasDistinctDomains ts
    → HasDistinctDomains (create_tenant user payload id now ts).1
unfolding create_tenant
create_keeps user payload id now ts [] admin e distinct =
    elim (Bool-cases (any (tenant_is id) ts)) [
      | inl taken ↦ rw (admin, e, taken) distinct
      | inr free ↦ rw (admin, e, free) (added ts payload id now distinct e)
    ]
create_keeps user payload id now ts (t ∷ []) admin e distinct = rw (admin, e) distinct
create_keeps user payload id now ts (t ∷ u ∷ rest) admin e distinct = rw (admin, e) distinct

create_tenant-HasDistinctDomains :
    (user : User) (payload : TenantCreate) (id now : ℕ) (ts : List Tenant)
    → HasDistinctDomains ts
    → HasDistinctDomains (create_tenant user payload id now ts).1
unfolding create_tenant
create_tenant-HasDistinctDomains user payload id now ts distinct =
    elim (Bool-cases (is_admin user.role)) [
      | inl admin ↦
          create_keeps user payload id now ts (keep (domain_is payload.domain) ts) admin refl
            distinct
      | inr other ↦ rw other distinct
    ]

-- If no two companies have one domain, then this is so after any requests to onboard companies, whoever
-- makes them, and with whatever domains and ids.
pub create_all-HasDistinctDomains :
    (requests : List (User × TenantCreate × ℕ × ℕ)) (ts : List Tenant)
    → HasDistinctDomains ts
    → HasDistinctDomains (create_all requests ts)
unfolding create_all
create_all-HasDistinctDomains [] ts distinct = distinct
create_all-HasDistinctDomains ((user, payload, id, now) ∷ rest) ts distinct =
    create_all-HasDistinctDomains rest (create_tenant user payload id now ts).1
      (create_tenant-HasDistinctDomains user payload id now ts distinct)
