-- ===== src/Reporting/Counts.antt =====
-- What the daily report of backend/app/agents/reporting.py counts, and where it is put.
use sentri_mesh_astra.Prelude.{
  Selects, ℕ, ◌+◌, ◌≤◌, String, ◌≡◌, refl, sym, ap, ◌∙◌, ◌↔◌, Bool, true, false, not, ◌&&◌, Option,
  some, List, [], ◌∷◌, ◌++◌, map, arith, str_eq, eq_iff, ◌==◌, if◌then◌else◌, length, any, keep,
  first, first-last, keep-Selects, first-update_first, ok,
}
use sentri_mesh_astra.Models.{Severity, Incident, ActionProposal, Report, User}
use sentri_mesh_astra.Json.{Fields, entry, num, obj, arr, no_fields, list_elements}
use sentri_mesh_astra.Bus.{Message, publish, audit}
use sentri_mesh_astra.Control.{has_access, check_tenant_access}
use sentri_mesh_astra.Reporting.{
  Archive, in_period, daily_report, report_from, mark_emailed, report_is, value_of,
  generate_daily_report, by_severity, generate_now, executed_actions, pending_actions, incidents_of,
  actions_of, body_of,
}

length-keep-not :
    {A : Type 0} (p : A → Bool) (xs : List A)
    → length (keep p xs) + length (keep (λ x. not (p x)) xs) ≡ length xs
length-keep-not p [] = refl
length-keep-not p (x ∷ xs) = ground (arith, length-keep-not p xs)

one_class :
    (s : Severity)
    → (if str_eq (value_of s) "low" then 1 else 0)
        + (if str_eq (value_of s) "medium" then 1 else 0)
        + (if str_eq (value_of s) "high" then 1 else 0)
        + (if str_eq (value_of s) "critical" then 1 else 0)
      ≡ 1
one_class Severity.low = refl
one_class Severity.medium = refl
one_class Severity.high = refl
one_class Severity.critical = refl

-- Every incident has one of the four severities.
four_classes :
    (is : List Incident)
    → by_severity is Severity.low
        + by_severity is Severity.medium
        + by_severity is Severity.high
        + by_severity is Severity.critical
      ≡ length is
four_classes [] = refl
four_classes (i ∷ is) = ground (arith, one_class i.severity, four_classes is)

-- Of the day up to `now`, and of the tenant.
abbrev pub IsOfDay : ℕ → ℕ → ℕ → ℕ → Type 0
IsOfDay tenant_id now owner created_at =
    (owner ≡ tenant_id) × (now ≤ created_at + 86400) × (created_at ≤ now)

-- What a report says is right: the incidents and the proposals of the day, each counted under what it is.
pub record IsRight (tenant_id now : ℕ) (incidents : List Incident) (actions : List ActionProposal)
    (body : Fields) : Type 0 where
  pub day : List Incident
  pub proposed : List ActionProposal
  pub executed : List ActionProposal
  pub waiting : List ActionProposal
  pub of : Severity → List Incident
  pub day_is : Selects (λ i. IsOfDay tenant_id now i.tenant_id i.created_at) incidents day
  pub proposed_is : Selects (λ p. IsOfDay tenant_id now p.tenant_id p.created_at) actions proposed
  pub executed_is : Selects (λ p. p.executed ≡ true) proposed executed
  pub waiting_is : Selects (λ p. p.executed ≡ false) proposed waiting
  pub of_is : (sev : Severity) → Selects (λ i. i.severity ≡ sev) day (of sev)
  pub says :
      body
      ≡ entry "incident_count" (num (length day)) (
          entry "by_severity"
            (obj (
              entry "low" (num (length (of Severity.low))) (
                entry "medium" (num (length (of Severity.medium))) (
                  entry "high"
                    (num (length (of Severity.high)))
                    (entry "critical" (num (length (of Severity.critical))) no_fields)))))
            (entry "executed_actions" (num (length executed)) (
              entry "pending_actions"
                (num (length waiting))
                (entry "incident_ids" (arr (list_elements (map (λ i. num i.id) day))) no_fields))))

of_day :
    (tenant_id now owner created_at : ℕ)
    → ((owner == tenant_id && in_period now created_at) ≡ true)
      ↔ IsOfDay tenant_id now owner created_at
of_day tenant_id now owner created_at =
    (λ e. (ground (arith, e), ground (arith, e), ground (arith, e)), λ h. ground (arith, h))

abbrev named : String → Severity
named v =
    if str_eq v "low"
    then Severity.low
    else if str_eq v "medium"
    then Severity.medium
    else if str_eq v "high"
    then Severity.high
    else Severity.critical

named-value_of : (s : Severity) → named (value_of s) ≡ s
named-value_of Severity.low = refl
named-value_of Severity.medium = refl
named-value_of Severity.high = refl
named-value_of Severity.critical = refl

of_severity : (s t : Severity) → (str_eq (value_of s) (value_of t) ≡ true) ↔ (s ≡ t)
of_severity s t = (
  λ e.
      sym (named-value_of s) ∙ ap named ((eq_iff (value_of s) (value_of t)).0 e) ∙ named-value_of t,
  λ e. (eq_iff (value_of s) (value_of t)).1 (ap value_of e),
)

not_iff : (b : Bool) → (not b ≡ true) ↔ (b ≡ false)
not_iff b = (λ e. ground (arith, e), λ e. ground (arith, e))

body_of-IsRight :
    (tenant_id now : ℕ) (incidents : List Incident) (actions : List ActionProposal)
    → IsRight tenant_id now incidents actions
        (body_of (incidents_of tenant_id now incidents) (actions_of tenant_id now actions))
unfolding body_of
body_of-IsRight tenant_id now incidents actions =
    let is = incidents_of tenant_id now incidents in
    let ps = actions_of tenant_id now actions in
    record {
      day = is;
      proposed = ps;
      executed = keep (λ p. p.executed) ps;
      waiting = keep (λ p. not p.executed) ps;
      of = λ sev. keep (λ i. str_eq (value_of i.severity) (value_of sev)) is;
      day_is = keep-Selects _ _ incidents (λ i. of_day tenant_id now i.tenant_id i.created_at);
      proposed_is = keep-Selects _ _ actions (λ p. of_day tenant_id now p.tenant_id p.created_at);
      executed_is = keep-Selects _ _ ps (λ p. (λ e. e, λ e. e));
      waiting_is = keep-Selects _ _ ps (λ p. not_iff p.executed);
      of_is = λ sev. keep-Selects _ _ is (λ i. of_severity i.severity sev);
      says = refl;
    }

mark_emailed_lem :
    (sent : Bool) (id : ℕ) (rs : List Report) (r : Report)
    → any (report_is id) rs ≡ false
    → (r.id == id) ≡ true
    → first (report_is id) (mark_emailed sent id (rs ++ r ∷ []))
      ≡ some (if sent then record r { emailed = true } else r)
mark_emailed_lem false id rs r free own = first-last (report_is id) rs r free own
mark_emailed_lem true id rs r free own =
    first-update_first (report_is id) (λ x. record x { emailed = true }) (rs ++ r ∷ []) r
      (first-last (report_is id) rs r free own) own

-- For whoever may see the tenant, and under an id not yet taken, a report on demand is about the incidents
-- and proposals of the tenant, created within one day before it. Its body has their numbers: all incidents
-- with their ids, those of each severity, the executed proposals, and as pending all others, whatever has
-- been decided about them; and the four severities add up, as executed and pending do. It is stored under
-- its id, marked as emailed if and only if the mail was sent, and one message announces it.
pub generate_now_counts :
    (decimal : ℕ → String) (complete : String → Option String) (send : String → String → Bool)
    (user : User) (tenant_id id now : ℕ) (s : Archive)
    → has_access user tenant_id ≡ true
    → any (report_is id) s.reports ≡ false
    → let is = incidents_of tenant_id now s.incidents in
      let ps = actions_of tenant_id now s.actions in
      let r = report_from decimal complete tenant_id id now s in
      let sent = send "Daily Security Report" r.summary in
      let out = generate_now decimal complete send user tenant_id id now s in
      (out.0 ≡ ok r)
      × IsRight tenant_id now s.incidents s.actions r.body
      × (by_severity is Severity.low
            + by_severity is Severity.medium
            + by_severity is Severity.high
            + by_severity is Severity.critical
          ≡ length is)
      × (executed_actions ps + pending_actions ps ≡ length ps)
      × (first (report_is id) out.1.reports
          ≡ some (if sent then record r { emailed = true } else r))
      × (out.1.bus.delivered ≡ s.bus.delivered ++ Message.report_ready tenant_id id ∷ [])
unfolding generate_now generate_daily_report check_tenant_access report_from daily_report publish
    audit
generate_now_counts decimal complete send user tenant_id id now s access free =
    let is = incidents_of tenant_id now s.incidents in
    let ps = actions_of tenant_id now s.actions in
    let r = report_from decimal complete tenant_id id now s in
    rw (access, free)
      (
        refl,
        body_of-IsRight tenant_id now s.incidents s.actions,
        four_classes is,
        length-keep-not (λ p. p.executed) ps,
        mark_emailed_lem (send "Daily Security Report" r.summary) id s.reports r free
            (ground arith),
        refl,
      )
