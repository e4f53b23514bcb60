-- ===== src/Listings/Recent.antt =====
-- What a list of backend/app/routers shows, and to whom.
use sentri_mesh_astra.Prelude.{
  ℕ, ◌≤◌, min, ◌≡◌, refl, sym, ap, ◌∙◌, inl, inr, Bool, true, not, List, [], ◌∷◌, ◌++◌, arith, ◌==◌,
  if◌then◌else◌, Bool-cases, is_some, length, keep, All, ok, err, http,
}
use sentri_mesh_astra.Models.{User, Incident, Report, is_admin}
use sentri_mesh_astra.Bus.{AuditLogEntry}
use sentri_mesh_astra.Control.{has_access, check_tenant_access}
use sentri_mesh_astra.Listings.{
  Tables, recent, list_incidents, list_reports, list_activity, platform_audit, entry_of,
}
use sentri_mesh_astra.Listings.Newest.{
  drop, take-append-drop, length-take, All-take, newest, IsDescending, All-newest,
  newest-IsDescending, keep-newest, IsDescending-take, take_newer,
}

-- `shown` and `cut` have together every row that passes the test, as often as the table has it, and no
-- other; the ones shown go from the newest to the oldest, none of those cut is newer than one of them, and
-- they are as many as the limit allows.
pub record IsRecent {A : Type 0} (created_at : A → ℕ) (limit : ℕ) (test : A → Bool) (rows : List A)
    (shown : List A) : Type 0 where
  pub cut : List A
  pub complete : (q : A → Bool) → length (keep q (shown ++ cut)) ≡ length (keep q (keep test rows))
  pub passing : All (λ a. test a ≡ true) shown
  pub descending : IsDescending created_at shown
  pub newer : All (λ a. All (λ b. created_at b ≤ created_at a) cut) shown
  pub count : length shown ≡ min limit (length (keep test rows))

keep-passes :
    {A : Type 0} (test : A → Bool) (rows : List A) → All (λ a. test a ≡ true) (keep test rows)
keep-passes test [] = tt
keep-passes test (a ∷ rows) = elim (Bool-cases (test a)) [
  | inl pass ↦ rw pass (pass, keep-passes test rows)
  | inr fail ↦ rw fail (keep-passes test rows)
]

keep-all : {A : Type 0} (rows : List A) → keep (λ a. true) rows ≡ rows
keep-all [] = refl
keep-all (a ∷ rows) = ap (λ l. a ∷ l) (keep-all rows)

recent-IsRecent :
    {A : Type 0} (created_at : A → ℕ) (limit : ℕ) (test : A → Bool) (rows : List A)
    → IsRecent created_at limit test rows (recent created_at limit test rows)
unfolding recent
recent-IsRecent created_at limit test rows =
    let passing = keep test rows in
    let all_of = newest created_at passing in
    let down = newest-IsDescending created_at passing in
    let size : length all_of ≡ length passing =
      sym (ap length (keep-all all_of))
      ∙ keep-newest created_at (λ a. true) passing
      ∙ ap length (keep-all passing) in
    record {
      cut = drop limit all_of;
      complete = λ q.
          ap (λ l. length (keep q l)) (take-append-drop limit all_of)
          ∙ keep-newest created_at q passing;
      passing =
          All-take (λ a. test a ≡ true) limit all_of
            (All-newest created_at (λ a. test a ≡ true) passing (keep-passes test rows));
      descending = IsDescending-take created_at limit all_of down;
      newer = take_newer created_at limit all_of down;
      count = length-take limit all_of ∙ ap (min limit) size;
    }

-- The lists of a tenant, for whoever may see it, and the platform's own, for an admin.
abbrev pub AreRecent : User → ℕ → Tables → Type 0
AreRecent user t d =
    ((is : List Incident) × (rs : List Report) × (es : List AuditLogEntry) × (list_incidents user t
          d
        ≡ ((if has_access user t then ok is else err (http 403)), d))
      × (list_reports user t d ≡ ((if has_access user t then ok rs else err (http 403)), d))
      × (list_activity user t d ≡ ((if has_access user t then ok es else err (http 403)), d))
      × IsRecent (λ i. i.created_at) 200 (λ i. i.tenant_id == t) d.incidents is
      × IsRecent (λ r. r.created_at) 90 (λ r. r.tenant_id == t) d.reports rs
      × IsRecent (λ e. e.created_at) 500 (entry_of t) d.audit_log es)
    × ((es : List AuditLogEntry) × (platform_audit user d
          ≡ ((if is_admin user.role then ok es else err (http 403)), d))
        × IsRecent (λ e. e.created_at) 200 (λ e. not (is_some e.tenant_id)) d.audit_log es)

-- Whoever may see a tenant gets its newest two hundred incidents, ninety reports and five hundred entries of
-- the audit log, and an admin the newest two hundred entries of no tenant: from the newest to the oldest, all
-- of that tenant, with none left out that is newer than one shown, and none at all while the limit is not
-- reached. Everybody else gets a 403, and nothing is changed.
pub lists-AreRecent : (user : User) (t : ℕ) (d : Tables) → AreRecent user t d
unfolding list_incidents list_reports list_activity platform_audit check_tenant_access
lists-AreRecent user t d =
    let is =
      recent-IsRecent (λ (i : Incident). i.created_at) 200 (λ i. i.tenant_id == t) d.incidents in
    let rs = recent-IsRecent (λ (r : Report). r.created_at) 90 (λ r. r.tenant_id == t) d.reports in
    let es = recent-IsRecent (λ (e : AuditLogEntry). e.created_at) 500 (entry_of t) d.audit_log in
    let ps =
      recent-IsRecent (λ (e : AuditLogEntry). e.created_at) 200 (λ e. not (is_some e.tenant_id))
        d.audit_log in
    ((_, _, _, ground arith, ground arith, ground arith, is, rs, es), (_, ground arith, ps))
