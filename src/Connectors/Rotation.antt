-- ===== src/Connectors/Rotation.antt =====
-- What rotating a connector's token does to the tokens: backend/app/routers/connectors.py and
-- backend/app/connector_auth.py.
use sentri_mesh_astra.Prelude.{
  ℕ, ◌≤◌, String, ◌≡◌, refl, inl, inr, Bool, true, false, none, some, List, [], ◌∷◌, arith, str_eq,
  eq_refl, Bool-cases, length, any, keep, first, first-passes, nothing_left, update_first, Result,
  ok, err,
}
use sentri_mesh_astra.Models.{User, ConnectorConfig}
use sentri_mesh_astra.Control.{has_access, check_tenant_access}
use sentri_mesh_astra.Connectors.{
  Hub, hash_is, connector_of_tenant, holds_token, authenticate_connector, rotate_token, with_token,
  token_of,
}

keep-nothing :
    {A : Type 0} (p q : A → Bool) (xs : List A)
    → ((x : A) → q x ≡ true → p x ≡ true)
    → any p xs ≡ false
    → keep q xs ≡ []
keep-nothing p q [] sub h = refl
keep-nothing p q (x ∷ xs) sub h = ground (arith, sub x, keep-nothing p q xs sub)

abbrev pub map_result : {A B : Type 0} → (A → B) → Result A → Result B
map_result f (ok a) = ok (f a)
map_result f (err e) = err e

-- The changed row is the only one that passes a test which no row passed before.
keep-update_first_new :
    {A : Type 0} (p q : A → Bool) (f : A → A) (xs : List A) (a : A)
    → first p xs ≡ some a
    → keep q xs ≡ []
    → q (f a) ≡ true
    → keep q (update_first p f xs) ≡ f a ∷ []
keep-update_first_new p q f [] a e h new = cc
keep-update_first_new p q f (x ∷ xs) a e h new = elim (Bool-cases (p x)) [
  | inl here ↦ ground arith
  | inr further ↦ ground (arith, keep-update_first_new p q f xs a)
]

found_kept :
    {A : Type 0} (p q : A → Bool) (xs : List A) (a : A)
    → first p xs ≡ some a
    → q a ≡ true
    → 1 ≤ length (keep q xs)
found_kept p q [] a e h = cc
found_kept p q (x ∷ xs) a e h = ground (arith, found_kept p q xs a)

-- No row passes a test that only the changed row passed, once it does not pass it any more.
keep-update_first_old :
    {A : Type 0} (p q : A → Bool) (f : A → A) (xs : List A) (a : A)
    → first p xs ≡ some a
    → length (keep q xs) ≤ 1
    → q a ≡ true
    → q (f a) ≡ false
    → keep q (update_first p f xs) ≡ []
keep-update_first_old p q f [] a e h old new = cc
keep-update_first_old p q f (x ∷ xs) a e h old new = elim (Bool-cases (p x)) [
  | inl here ↦ ground (arith, nothing_left (keep q xs))
  | inr further ↦ ground (arith, found_kept p q xs a, keep-update_first_old p q f xs a)
]

new_token_held :
    (digest : String → String) (tenant_id k : ℕ) (token : String) (c : ConnectorConfig)
    → connector_of_tenant k tenant_id c ≡ true
    → c.is_active ≡ true
    → holds_token digest tenant_id token (with_token digest token c) ≡ true
unfolding hash_is
new_token_held digest tenant_id k token c here active = ground (arith, eq_refl (digest token))

old_token_lost :
    (digest : String → String) (tenant_id : ℕ) (token old : String) (c : ConnectorConfig)
    → str_eq (digest token) (digest old) ≡ false
    → holds_token digest tenant_id old (with_token digest token c) ≡ false
unfolding hash_is
old_token_lost digest tenant_id token old c other = ground arith

-- After whoever may act for the tenant has rotated the token of one of its active connectors, the new
-- token, which is the one that is returned, authenticates that connector, and the token that the
-- connector had before authenticates nothing. The two have different hashes, nobody had the hash of
-- the new one, and no second connector had that of the old one.
pub rotate_token-authenticate_connector :
    (digest : String → String) (user : User) (tenant_id k : ℕ) (secret old : String)
    (c : ConnectorConfig) (h : Hub)
    → has_access user tenant_id ≡ true
    → first (connector_of_tenant k tenant_id) h.connectors ≡ some c
    → c.is_active ≡ true
    → any (hash_is (digest (token_of secret))) h.connectors ≡ false
    → length (keep (holds_token digest tenant_id old) h.connectors) ≤ 1
    → holds_token digest tenant_id old c ≡ true
    → str_eq (digest (token_of secret)) (digest old) ≡ false
    → let (result, h') = rotate_token digest user tenant_id k secret h in
      (map_result (λ r. r.1) result ≡ ok (token_of secret))
      × (authenticate_connector digest (token_of secret) tenant_id h'
          ≡ (ok (some (with_token digest (token_of secret) c)), h'))
      × (authenticate_connector digest old tenant_id h' ≡ (ok none, h'))
unfolding rotate_token check_tenant_access authenticate_connector
rotate_token-authenticate_connector digest user tenant_id k secret old c h access found active fresh
      once held other =
    let here = first-passes (connector_of_tenant k tenant_id) h.connectors c found in
    let new_rows =
      keep-update_first_new (connector_of_tenant k tenant_id)
        (holds_token digest tenant_id (token_of secret)) (with_token digest (token_of secret))
        h.connectors c found
        (keep-nothing (hash_is (digest (token_of secret)))
          (holds_token digest tenant_id (token_of secret)) h.connectors (λ x e. ground arith) fresh)
        (new_token_held digest tenant_id k (token_of secret) c here active) in
    let old_rows =
      keep-update_first_old (connector_of_tenant k tenant_id) (holds_token digest tenant_id old)
        (with_token digest (token_of secret)) h.connectors c found once held
        (old_token_lost digest tenant_id (token_of secret) old c other) in
    rw (access, found, fresh, new_rows, old_rows) (refl, refl, refl)
