-- ===== src/Auth/Attempts.antt =====
-- One login: backend/app/routers/auth.py with its counters in Redis, against a specification that keeps every
-- failed attempt for ever.
use sentri_mesh_astra.Prelude.{
  ℕ, ◌≤◌, String, ◌≡◌, refl, sym, ap, subst, inl, inr, Bool, ◌&&◌, ◌||◌, Option, none, some, List,
  [], ◌∷◌, arith, leb, if◌then◌else◌, Bool-cases, length, keep, first, nothing_left, one_or_none,
  and_then, Result, ok, err, http,
}
use sentri_mesh_astra.Models.{User}
use sentri_mesh_astra.Window.{count_without_recording, record_and_count}
use sentri_mesh_astra.Auth.{Portal}
use sentri_mesh_astra.Auth.Lockout.{
  Limits, LockoutStatus, email_key, ip_key, counted, recorded, check_lockout, record_failed_attempt,
  locked_status, open_status,
}
use sentri_mesh_astra.Auth.Accounts.{
  session, Crypto, Token, LoginRequest, email_is, create_access_token, login, login_unlocked,
  refuse, turn_away, audit_login, rejects,
}
use sentri_mesh_astra.Auth.Keys.{
  Note, recent, Follows, count_without_recording_refines, record_and_count_refines,
}

-- No two accounts have the same email.
abbrev pub HasUniqueEmails : List User → Type 0
HasUniqueEmails users = (email : String) → length (keep (email_is email) users) ≤ 1

one_or_none-keep :
    {S : Type 0} (p : User → Bool) (users : List User) (s : S)
    → length (keep p users) ≤ 1
    → one_or_none (keep p users) s ≡ (ok (first p users), s)
one_or_none-keep p [] s h = refl
one_or_none-keep p (u ∷ users) s h = elim (Bool-cases (p u)) [
  | inl here ↦ rw (here, nothing_left (keep p users) (ground (arith, here))) refl
  | inr further ↦ rw further (one_or_none-keep p users s (ground (arith, further)))
]

module _ (crypto : Crypto) (expire_minutes : ℕ) (limits : Limits) where
  -- As many failures less than `window` old as are allowed, for the email or for the source.
  abbrev pub is_locked : LoginRequest → ℕ → List Note → Bool
  is_locked request now notes =
      leb limits.max_per_email (recent limits.window now (email_key request.email) notes)
      || leb limits.max_per_ip (recent limits.window now (ip_key request.ip) notes)

  abbrev pub noted : LoginRequest → ℕ → List Note → List Note
  noted request now notes = (now, ip_key request.ip) ∷ (now, email_key request.email) ∷ notes

  -- A session for an active account with the right password, and a note of any other attempt.
  abbrev pub answered : List User → LoginRequest → ℕ → List Note → Result Token × List Note
  answered users request now notes = elim (first (email_is request.email) users) [
    | none ↦ (err (http 401), noted request now notes)
    | some u ↦
        if crypto.verify request.password u.hashed_password && u.is_active
        then (
          ok (record {
            access_token = create_access_token crypto expire_minutes u now;
            role = u.role;
            tenant_id = u.tenant_id;
          }),
          notes,
        )
        else (err (http 401), noted request now notes)
  ]

  -- A login as it is meant: refused with 429 while locked, and not noted then.
  abbrev pub promised : List User → LoginRequest → ℕ → List Note → Result Token × List Note
  promised users request now notes =
      if is_locked request now notes
      then (err (http 429), notes)
      else answered users request now notes

  -- The state stands for these notes and these accounts.
  abbrev pub Stands : List User → ℕ → List Note → Portal → Type 0
  Stands users now notes p = Follows limits.window now notes p.redis × (p.users ≡ users)

  check_lockout_refines :
      (users : List User) (request : LoginRequest) (now s : ℕ) (notes : List Note) (p : Portal)
      → Stands users now notes p
      → now ≤ s
      → (status : LockoutStatus) × ((check_lockout limits request.email request.ip s p).0
          ≡ ok status)
        × (status.locked ≡ is_locked request s notes)
        × Stands users s notes (check_lockout limits request.email request.ip s p).1
  unfolding check_lockout counted
  check_lockout_refines users request now s notes p h later =
      let by_email =
        count_without_recording_refines limits.window now s notes p.redis h.0 later
          (email_key request.email) in
      elim (Bool-cases
        (leb limits.max_per_email (recent limits.window s (email_key request.email) notes))) [
          | inl many ↦
              rw (by_email.1, many)
                (
                  locked_status limits.window "too many failed attempts for this account",
                  refl,
                  refl,
                  (by_email.0, h.1),
                )
          | inr few ↦
              let by_ip =
                count_without_recording_refines limits.window s s notes
                  (count_without_recording p.redis (email_key request.email) limits.window s).0
                  by_email.0 (omega arith) (ip_key request.ip) in
              rw (by_email.1, few)
                (elim (Bool-cases
                  (leb limits.max_per_ip (recent limits.window s (ip_key request.ip) notes))) [
                    | inl many ↦
                        rw (by_ip.1, many)
                          (
                            locked_status limits.window "too many failed attempts from this source",
                            refl,
                            refl,
                            (by_ip.0, h.1),
                          )
                    | inr none_many ↦
                        rw (by_ip.1, none_many) (open_status, refl, refl, (by_ip.0, h.1))
                  ])
        ]

  refuse_refines :
      (users : List User) (request : LoginRequest) (now s : ℕ) (notes : List Note) (p : Portal)
      → Stands users now notes p
      → now ≤ s
      → ((refuse limits request s p).0 ≡ err (http 401))
        × Stands users s (noted request s notes) (refuse limits request s p).1
  unfolding refuse record_failed_attempt recorded audit_login
  refuse_refines users request now s notes p h later =
      let by_email =
        record_and_count_refines limits.window now s notes p.redis h.0 later
          (email_key request.email) in
      (
        refl,
        (
          record_and_count_refines limits.window s s ((s, email_key request.email) ∷ notes)
              (record_and_count p.redis (email_key request.email) limits.window s).0 by_email
              (omega arith) (ip_key request.ip),
          h.1,
        ),
      )

  -- The outcome and the state agree with the specification.
  abbrev Agrees : List User → ℕ → Result Token × Portal → Result Token × List Note → Type 0
  Agrees users s out spec = (out.0 ≡ spec.0) × Stands users s spec.1 out.1

  found_refines :
      (users : List User) (request : LoginRequest) (s : ℕ) (notes : List Note) (p : Portal)
      (o : Option User)
      → first (email_is request.email) users ≡ o
      → Stands users s notes p
      → Agrees users s
          ((if rejects crypto expire_minutes request.password o
              then refuse limits request s
              else session crypto expire_minutes s o)
            p)
          (answered users request s notes)
  unfolding rejects
  found_refines users request s notes p none e h =
      rw (e, answered) (refuse_refines users request s s notes p h (omega arith))
  found_refines users request s notes p (some u) e h =
      elim (Bool-cases (crypto.verify request.password u.hashed_password)) [
        | inl right ↦ elim (Bool-cases u.is_active) [
          | inl active ↦ rw (e, answered, right, active) (refl, (h.0, h.1))
          | inr inactive ↦
              rw (e, answered, right, inactive)
                (refuse_refines users request s s notes p h (omega arith))
        ]
        | inr wrong ↦
            rw (e, answered, wrong) (refuse_refines users request s s notes p h (omega arith))
      ]

  login_unlocked_refines :
      (users : List User) (request : LoginRequest) (s : ℕ) (notes : List Note) (p : Portal)
      → HasUniqueEmails users
      → Stands users s notes p
      → Agrees users s
          (login_unlocked crypto expire_minutes limits request s p)
          (answered users request s notes)
  unfolding login_unlocked
  login_unlocked_refines users request s notes p unique h =
      rw
        (one_or_none-keep (email_is request.email) p.users p (
          subst (λ us. length (keep (email_is request.email) us) ≤ 1) (sym h.1)
            (unique request.email)))
        (found_refines users request s notes p (first (email_is request.email) p.users)
          (ap (first (email_is request.email)) (sym h.1)) h)

  after_lockout :
      (users : List User) (request : LoginRequest) (s : ℕ) (notes : List Note)
      (out : Result LockoutStatus × Portal) (status : LockoutStatus)
      → HasUniqueEmails users
      → out.0 ≡ ok status
      → status.locked ≡ is_locked request s notes
      → Stands users s notes out.1
      → Agrees users s
          (and_then
            (λ lockout.
              if lockout.locked
              then turn_away request lockout.reason s
              else login_unlocked crypto expire_minutes limits request s)
            out)
          (promised users request s notes)
  unfolding turn_away audit_login
  after_lockout users request s notes (err x, p) status unique e locked h = cc
  after_lockout users request s notes (ok st, p) status unique e locked h =
      let same : st.locked ≡ is_locked request s notes = cc in
      elim (Bool-cases (is_locked request s notes)) [
        | inl locked_out ↦ rw (same, locked_out) (refl, h)
        | inr free ↦ rw (same, free) (login_unlocked_refines users request s notes p unique h)
      ]

  pub login_refines :
      (users : List User) (request : LoginRequest) (now s : ℕ) (notes : List Note) (p : Portal)
      → HasUniqueEmails users
      → Stands users now notes p
      → now ≤ s
      → Agrees users s
          (login crypto expire_minutes limits request s p)
          (promised users request s notes)
  unfolding login
  login_refines users request now s notes p unique h later =
      let (status, e, locked, after) = check_lockout_refines users request now s notes p h later in
      after_lockout users request s notes (check_lockout limits request.email request.ip s p) status
        unique e locked after
