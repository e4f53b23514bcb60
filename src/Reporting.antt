-- ===== src/Reporting.antt =====
-- backend/app/agents/reporting.py: the daily report, with backend/app/notifications/email.py, and the
-- routes of backend/app/routers/reports.py.
pub mod Counts
mod Tests
use sentri_mesh_astra.Prelude.{
  ℕ, ◌-◌, String, ◌<>◌, Bool, true, false, not, ◌&&◌, ◌||◌, Option, none, some, List, [], ◌∷◌, ◌++◌,
  map, str_eq, leb, ◌==◌, if◌then◌else◌, length, any, keep, first, update_first, Action, gets, pure,
  modify, raise_if, ◌>>=◌, ◌>>◌, strip, exception,
}
use sentri_mesh_astra.ThreatFeed.Sources.{join}
use sentri_mesh_astra.Control.{check_tenant_access}
use sentri_mesh_astra.Bus.{Message, Bus, publish}
use sentri_mesh_astra.Json.{list_elements, arr, obj, no_fields, num, entry, Fields}
use sentri_mesh_astra.System.{tenant_is}
use sentri_mesh_astra.Models.{Report, ActionProposal, Tenant, User, Severity, Incident}

-- The tables that the agent reads and writes.
pub record Archive : Type 0 where
  pub tenants : List Tenant
  pub incidents : List Incident
  pub actions : List ActionProposal
  pub reports : List Report
  pub bus : Bus

-- The settings of a mail.
pub record MailSettings : Type 0 where
  pub smtp_host : Option String
  pub notify_to_email : Option String

abbrev set_text : Option String → Bool
set_text none = false
set_text (some s) = not (str_eq s "")

-- `send_email` to the address of the settings; `deliver` says whether `aiosmtplib.send` returns.
unfoldable pub send_email :
    (MailSettings → String → String → Bool) → MailSettings → String → String → Bool
send_email deliver settings subject body =
    if not (set_text settings.smtp_host) || not (set_text settings.notify_to_email)
    then false
    else deliver settings ("[SentriMeshAstra] " <> subject) body

-- `timedelta(days=1)`
abbrev pub one_day : ℕ
one_day = 86400

-- The test of both selects, whose period ends now. No time is before the epoch, where `-` stops.
abbrev pub in_period : ℕ → ℕ → Bool
in_period period_end created_at = leb (period_end - one_day) created_at && leb created_at period_end

abbrev pub incidents_of : ℕ → ℕ → List Incident → List Incident
incidents_of tenant_id now is =
    keep (λ i. i.tenant_id == tenant_id && in_period now i.created_at) is

abbrev pub actions_of : ℕ → ℕ → List ActionProposal → List ActionProposal
actions_of tenant_id now ps = keep (λ p. p.tenant_id == tenant_id && in_period now p.created_at) ps

-- `severity.value`
abbrev pub value_of : Severity → String
value_of Severity.low = "low"
value_of Severity.medium = "medium"
value_of Severity.high = "high"
value_of Severity.critical = "critical"

-- `by_severity[s.value]` after the loop.
abbrev pub by_severity : List Incident → Severity → ℕ
by_severity is s = length (keep (λ i. str_eq (value_of i.severity) (value_of s)) is)

abbrev pub executed_actions : List ActionProposal → ℕ
executed_actions ps = length (keep (λ p. p.executed) ps)

abbrev pub pending_actions : List ActionProposal → ℕ
pending_actions ps = length (keep (λ p. not p.executed) ps)

abbrev severity_fields : List Incident → Fields
severity_fields is = entry "low" (num (by_severity is Severity.low)) (
    entry "medium" (num (by_severity is Severity.medium)) (
      entry "high" (num (by_severity is Severity.high))
        (entry "critical" (num (by_severity is Severity.critical)) no_fields)))

-- `body`, where an id is a number.
unfoldable pub body_of : List Incident → List ActionProposal → Fields
body_of is ps = entry "incident_count" (num (length is)) (
    entry "by_severity" (obj (severity_fields is)) (
      entry "executed_actions" (num (executed_actions ps)) (
        entry "pending_actions" (num (pending_actions ps))
          (entry "incident_ids" (arr (list_elements (map (λ i. num i.id) is))) no_fields))))

abbrev pub report_is : ℕ → Report → Bool
report_is k r = r.id == k

-- The assignment to the row that is read again, if the mail was sent.
abbrev pub mark_emailed : Bool → ℕ → List Report → List Report
mark_emailed sent id rs =
    if sent then update_first (report_is id) (λ r. record r { emailed = true }) rs else rs

abbrev engaged : Option Tenant → Bool
engaged none = false
engaged (some t) = t.kill_switch_engaged

-- `summarize`: `complete` has the joined text of the answer, `none` without a key or for an exception.
unfoldable pub summarize : (String → Option String) → String → String → String
summarize complete prompt fallback = elim (complete prompt) [
  | none ↦ fallback
  | some t ↦ if str_eq (strip t) "" then fallback else strip t
]

-- `decimal` prints a number, and `complete` is the language model.
module _ (decimal : ℕ → String) (complete : String → Option String) where
  -- `fallback_summary`
  abbrev fallback_summary : List Incident → List ActionProposal → Option Tenant → String
  fallback_summary is ps tenant = join "" (
      decimal (length is)
      ∷ " incident(s) detected in the last 24 hours ("
      ∷ decimal (by_severity is Severity.critical)
      ∷ " critical, "
      ∷ decimal (by_severity is Severity.high)
      ∷ " high, "
      ∷ decimal (by_severity is Severity.medium)
      ∷ " medium, "
      ∷ decimal (by_severity is Severity.low)
      ∷ " low). "
      ∷ decimal (executed_actions ps)
      ∷ " action(s) executed, "
      ∷ decimal (pending_actions ps)
      ∷ " pending approval. Kill switch: "
      ∷ (if engaged tenant then "ENGAGED" else "off")
      ∷ "."
      ∷ [])

  -- `prompt`
  abbrev prompt : List Incident → List ActionProposal → String
  prompt is ps = join "" (
      "Write a concise 3-4 sentence daily security report for a non-technical business "
      ∷ "owner, based on this data: "
      ∷ decimal (length is)
      ∷ " incidents (critical="
      ∷ decimal (by_severity is Severity.critical)
      ∷ ", high="
      ∷ decimal (by_severity is Severity.high)
      ∷ ", medium="
      ∷ decimal (by_severity is Severity.medium)
      ∷ ", low="
      ∷ decimal (by_severity is Severity.low)
      ∷ "), "
      ∷ decimal (executed_actions ps)
      ∷ " automated actions executed, "
      ∷ decimal (pending_actions ps)
      ∷ " awaiting their approval. "
      ∷ "Plain language, no jargon, end with a clear 'what you need to do' line if anything is pending."
      ∷ [])

  -- The row that is added: its tenant may be missing.
  unfoldable pub daily_report :
      ℕ → List Incident → List ActionProposal → Option Tenant → ℕ → ℕ → Report
  daily_report tenant_id is ps tenant id now = record {
    id = id;
    tenant_id = tenant_id;
    report_type = "daily";
    period_start = now - one_day;
    period_end = now;
    summary = summarize complete (prompt is ps) (fallback_summary is ps tenant);
    body = body_of is ps;
    emailed = false;
    created_at = now;
  }

  -- The report that the tables give.
  unfoldable pub report_from : ℕ → ℕ → ℕ → Archive → Report
  report_from tenant_id id now s =
      daily_report tenant_id (incidents_of tenant_id now s.incidents)
        (actions_of tenant_id now s.actions) (first (tenant_is tenant_id) s.tenants) id now

  -- `generate_daily_report`: `send` is `send_email`, with the settings it reads.
  unfoldable pub generate_daily_report :
      (String → String → Bool) → ℕ → ℕ → ℕ → Action Archive Report
  generate_daily_report send tenant_id id now = do
    report ← gets (λ s. report_from tenant_id id now s)
    taken ← gets (λ s. any (report_is id) s.reports)
    raise_if taken exception
    modify (λ s. record s { reports = s.reports ++ report ∷ [] })
    modify (λ s. record s {
      reports = mark_emailed (send "Daily Security Report" report.summary) id s.reports;
      bus = publish "reporting" (some tenant_id) (Message.report_ready tenant_id id) now s.bus;
    })
    pure report

  -- `generate_now`
  unfoldable pub generate_now : (String → String → Bool) → User → ℕ → ℕ → ℕ → Action Archive Report
  generate_now send user tenant_id id now = do
    check_tenant_access user tenant_id
    generate_daily_report send tenant_id id now
