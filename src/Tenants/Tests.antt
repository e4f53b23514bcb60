-- ===== src/Tenants/Tests.antt =====
-- Two attempts to onboard one domain, and who sees the company.
use sentri_mesh_astra.Prelude.{◌≡◌, refl, [], ◌∷◌, arith, if◌then◌else◌, length, any, ok, err, http}
use sentri_mesh_astra.Control.{check_tenant_access, has_access}
use sentri_mesh_astra.Control.Sample.{acme, root, holder, stranger}
use sentri_mesh_astra.Tenants.{
  tenant_is, TenantCreate, create_all, list_tenants, get_tenant, listed, create_tenant,
}
use sentri_mesh_astra.Tenants.Domains.{HasDistinctDomains, create_all-HasDistinctDomains}
use sentri_mesh_astra.Tenants.Visibility.{get_tenant-list_tenants}

abbrev bolt : TenantCreate
bolt = record { name = "Bolt"; domain = "bolt.test"; sector = "general" }

nobody : HasDistinctDomains []
unfolding HasDistinctDomains
nobody d = omega arith

create_all-HasDistinctDomains_example :
    HasDistinctDomains (create_all ((root, bolt, 7, 10) ∷ (root, bolt, 8, 11) ∷ []) [])
create_all-HasDistinctDomains_example =
    create_all-HasDistinctDomains ((root, bolt, 7, 10) ∷ (root, bolt, 8, 11) ∷ []) [] nobody

get_tenant-list_tenants_example :
    (list_tenants stranger (acme ∷ []) ≡ (ok (listed stranger (acme ∷ [])), acme ∷ []))
    × (get_tenant stranger 1 (acme ∷ []) ≡ (
      (if any (tenant_is 1) (listed stranger (acme ∷ [])) then ok acme else err (http 403)),
      acme ∷ [],
    ))
get_tenant-list_tenants_example = get_tenant-list_tenants stranger 1 (acme ∷ []) acme refl

once_run : length (create_all ((root, bolt, 7, 10) ∷ (root, bolt, 8, 11) ∷ []) []) ≡ 1
unfolding create_all create_tenant
once_run = refl

holder_run : get_tenant holder 1 (acme ∷ []) ≡ (ok acme, acme ∷ [])
unfolding get_tenant check_tenant_access has_access
holder_run = refl
