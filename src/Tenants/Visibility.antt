-- ===== src/Tenants/Visibility.antt =====
-- That the two ways to see a company of backend/app/routers/tenants.py agree.
use sentri_mesh_astra.Prelude.{
  ℕ, ◌≡◌, refl, inl, inr, Bool, true, ◌&&◌, Option, none, some, List, [], ◌∷◌, arith, if◌then◌else◌,
  Bool-cases, any, keep, first, ok, err, http,
}
use sentri_mesh_astra.Models.{User, Tenant, is_admin}
use sentri_mesh_astra.System.{tenant_is}
use sentri_mesh_astra.Control.{same_tenant, has_access, check_tenant_access}
use sentri_mesh_astra.Tenants.{listed, list_tenants, get_tenant}

any-keep-same :
    (o : Option ℕ) (k : ℕ) (ts : List Tenant)
    → any (tenant_is k) (keep (λ t. same_tenant o t.id) ts)
      ≡ (same_tenant o k && any (tenant_is k) ts)
any-keep-same none k [] = refl
any-keep-same (some i) k [] = ground arith
any-keep-same none k (t ∷ ts) = any-keep-same none k ts
any-keep-same (some i) k (t ∷ ts) = ground (arith, any-keep-same (some i) k ts)

any-found :
    {A : Type 0} (p : A → Bool) (xs : List A) (x : A) → first p xs ≡ some x → any p xs ≡ true
any-found p [] x h = ground arith
any-found p (y ∷ ys) x h = ground (arith, any-found p ys x)

any-listed :
    (user : User) (k : ℕ) (ts : List Tenant) (t : Tenant)
    → first (tenant_is k) ts ≡ some t
    → any (tenant_is k) (listed user ts) ≡ has_access user k
unfolding has_access
any-listed user k ts t found = elim (Bool-cases (is_admin user.role)) [
  | inl admin ↦ rw (admin, any-found (tenant_is k) ts t found) refl
  | inr other ↦
      rw (other, any-keep-same user.tenant_id k ts, any-found (tenant_is k) ts t found)
        (ground arith)
]

-- A company that exists can be fetched by exactly those users whose list of companies shows it, and the
-- answer to any other user is a 403; neither request changes anything.
pub get_tenant-list_tenants :
    (user : User) (k : ℕ) (ts : List Tenant) (t : Tenant)
    → first (tenant_is k) ts ≡ some t
    → let shown = listed user ts in
      (list_tenants user ts ≡ (ok shown, ts))
      × (get_tenant user k ts ≡ ((if any (tenant_is k) shown then ok t else err (http 403)), ts))
unfolding list_tenants get_tenant check_tenant_access
get_tenant-list_tenants user k ts t found = (
  refl,
  elim (Bool-cases (has_access user k)) [
    | inl may ↦ rw (any-listed user k ts t found, may, found) refl
    | inr may_not ↦ rw (any-listed user k ts t found, may_not) refl
  ],
)
