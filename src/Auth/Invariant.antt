-- ===== src/Auth/Invariant.antt =====
-- What the operations of backend/app/auth.py and backend/app/routers/auth.py keep of the accounts.
use sentri_mesh_astra.Auth.Attempts.{HasUniqueEmails}
use sentri_mesh_astra.Prelude.{
  ℕ, ◌≤◌, String, ◌≡◌, refl, subst, inl, inr, Bool, true, false, ◌||◌, List, [], ◌∷◌, ◌++◌, arith,
  eq_iff, if◌then◌else◌, Bool-cases, is_some, length, length-append, any, keep, keep-append,
  keep-none, pure, modify, raise_if, one_or_none, and_then, ◌>>◌, >>=_keeps, raise_if_keeps, http,
  exception,
}
use sentri_mesh_astra.Models.{User, is_admin}
use sentri_mesh_astra.Auth.{Portal}
use sentri_mesh_astra.Auth.Accounts.{
  Crypto, SecurityHolderCreate, email_is, user_is, insert_user, create_security_holder,
  bootstrap_admin, require_admin, holder_of, admin_of,
}

abbrev pub admins : List User → List User
admins users = keep (λ u. is_admin u.role) users

-- No email twice, and one administrator at most, so that the selects with `scalar_one_or_none` of the
-- login and of `bootstrap_admin` find at most one row.
abbrev pub IsSound : List User → Type 0
IsSound users = HasUniqueEmails users × (length (admins users) ≤ 1)

any_mono :
    {A : Type 0} (p q : A → Bool) (xs : List A)
    → any (λ x. p x || q x) xs ≡ false
    → any p xs ≡ false
any_mono p q [] h = refl
any_mono p q (x ∷ xs) h = ground (arith, any_mono p q xs)

email_free :
    (e f : String) (k : ℕ) (users : List User)
    → any (λ v. email_is f v || user_is k v) users ≡ false
    → f ≡ e
    → keep (email_is e) users ≡ []
email_free e f k users h same =
    keep-none (email_is e) users
      (subst (λ x. any (email_is x) users ≡ false) same (any_mono (email_is f) (user_is k) users h))

-- One row more under a test that passes it only if it has passed no row before.
length-keep-added :
    (p : User → Bool) (users : List User) (u : User)
    → length (keep p users) ≤ 1
    → (p u ≡ true → keep p users ≡ [])
    → length (keep p (users ++ u ∷ [])) ≤ 1
length-keep-added p users u h free = elim (Bool-cases (p u)) [
  | inl here ↦
      rw
        (
          keep-append p users (u ∷ []),
          length-append (keep p users) (keep p (u ∷ [])),
          free here,
          here,
        )
        (omega arith)
  | inr other ↦
      rw (keep-append p users (u ∷ []), length-append (keep p users) (keep p (u ∷ [])), other)
        (omega (arith, h))
]

insert_user-IsSound :
    (u : User) (p : Portal)
    → IsSound p.users
    → (is_admin u.role ≡ true → admins p.users ≡ [])
    → IsSound (insert_user u p).1.users
unfolding insert_user
insert_user-IsSound u p h one =
    raise_if_keeps (λ q. IsSound q.users) (any (λ v. email_is u.email v || user_is u.id v) p.users)
      exception (modify (λ q. record q { users = q.users ++ u ∷ [] })) p h
      (λ free. (
        λ e.
            length-keep-added (email_is e) p.users u (h.0 e)
              (λ same. email_free e u.email u.id p.users free (ground (arith, eq_iff u.email e))),
        length-keep-added (λ v. is_admin v.role) p.users u h.1 one,
      ))

module _ (crypto : Crypto) (expire_minutes : ℕ) where
  create_rows :
      (rows : List User) (u : User) (p : Portal)
      → IsSound p.users
      → is_admin u.role ≡ false
      → IsSound
          (and_then
            (λ existing. raise_if (is_some existing) (http 400) >> (insert_user u >> pure u))
            (one_or_none rows p)).1.users
  create_rows [] u p h holder =
      >>=_keeps (λ q. IsSound q.users) (insert_user u) (λ x. pure u) p
        (insert_user-IsSound u p h (λ a. cc)) (λ x e good. good)
  create_rows (v ∷ []) u p h holder = h
  create_rows (v ∷ w ∷ rows) u p h holder = h

  create_security_holder-IsSound :
      (admin : User) (body : SecurityHolderCreate) (id salt now : ℕ) (p : Portal)
      → IsSound p.users
      → IsSound (create_security_holder crypto expire_minutes admin body id salt now p).1.users
  unfolding create_security_holder require_admin
  create_security_holder-IsSound admin body id salt now p h =
      elim (Bool-cases (is_admin admin.role)) [
        | inl may ↦ rw may (
            create_rows (keep (email_is body.email) p.users)
              (holder_of crypto expire_minutes id salt body now) p h refl)
        | inr may_not ↦ rw may_not h
      ]

  bootstrap_rows :
      (rows : List User) (u : User) (p : Portal)
      → IsSound p.users
      → admins p.users ≡ rows
      → IsSound
          (and_then
            (λ existing. if is_some existing then pure tt else insert_user u)
            (one_or_none rows p)).1.users
  bootstrap_rows [] u p h e = insert_user-IsSound u p h (λ a. e)
  bootstrap_rows (v ∷ []) u p h e = h
  bootstrap_rows (v ∷ w ∷ rows) u p h e = h

  bootstrap_admin-IsSound :
      (email password : String) (id salt now : ℕ) (p : Portal)
      → IsSound p.users
      → IsSound (bootstrap_admin crypto expire_minutes email password id salt now p).1.users
  unfolding bootstrap_admin
  bootstrap_admin-IsSound email password id salt now p h =
      bootstrap_rows (admins p.users) (admin_of crypto expire_minutes email password id salt now) p
        h refl

  -- Whoever creates an account for a security holder, and whenever the first administrator is set up:
  -- if no two accounts share an email and there is one administrator at most, so it is afterwards,
  -- also when the operation raises.
  pub accounts-IsSound :
      (user : User) (body : SecurityHolderCreate) (email password : String) (id salt now : ℕ)
      (p : Portal)
      → IsSound p.users
      → IsSound (create_security_holder crypto expire_minutes user body id salt now p).1.users
        × IsSound (bootstrap_admin crypto expire_minutes email password id salt now p).1.users
  accounts-IsSound user body email password id salt now p h = (
    create_security_holder-IsSound user body id salt now p h,
    bootstrap_admin-IsSound email password id salt now p h,
  )
