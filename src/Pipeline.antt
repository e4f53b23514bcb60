-- ===== src/Pipeline.antt =====
-- backend/app/agents/threat_intel.py and backend/app/agents/orchestrator.py: an incident on its way from
-- incidents.new over incidents.enriched to incidents.classified.
use sentri_mesh_astra.Prelude.{
  ℕ, String, Bool, true, false, ◌&&◌, Option, none, some, List, [], ◌∷◌, ◌++◌, str_eq,
  if◌then◌else◌, is_some, any, keep, first, update_first, gets, raise, pure, modify, one_or_none,
  ◌>>=◌, ◌>>◌, exception,
}
pub mod Recommendation
pub mod Enrichment
pub mod Kept
mod Tests
use package.text.Mathlib.Text.{find?}
use sentri_mesh_astra.Json.{
  Value, Fields, no_fields, entry, get, get_or, has_key, put, arr, negative, elements_list, merge,
  truthy, obj, num, text, bool,
}
use sentri_mesh_astra.Models.{Incident, Severity, ThreatIndicator}
use sentri_mesh_astra.Bus.{Message, publish}
use sentri_mesh_astra.System.{incident_is}
use sentri_mesh_astra.Policy.{Signals, severity_from_signals}
use sentri_mesh_astra.Detection.{Act, dict}
use sentri_mesh_astra.Detection.Events.{text_is}

-- `t in technique`: a part of a text, an element of an array or a key of an object; `none` is the
-- `TypeError` of any other value.
abbrev pub mentions : String → Value → Option Bool
mentions t (text technique) = some (is_some (find? technique t))
mentions t (arr es) = some (any (text_is t) (elements_list es))
mentions t (obj d) = some (has_key t d)
mentions t _ = none

-- `any(t in technique for technique in techniques)`, which stops at the first that does.
abbrev pub some_mention : String → List Value → Option Bool
some_mention t [] = some false
some_mention t (v ∷ vs) = elim (mentions t v) as (λ _. Option Bool) [
  | none ↦ none
  | some found ↦ if found then some true else some_mention t vs
]

-- The if-chain of `recommend_action` over its five tests.
unfoldable pub recommendation : Bool → Bool → Option Bool → Bool → Option Bool → Option String
recommendation true malware brute_force malicious escalation = some "force_password_reset"
recommendation false true brute_force malicious escalation = some "quarantine_endpoint"
recommendation false false none malicious escalation = none
recommendation false false (some true) malicious escalation =
    some (if malicious then "block_ip" else "notify")
recommendation false false (some false) malicious none = none
recommendation false false (some false) malicious (some escalation) =
    some (if escalation then "disable_account" else "notify")

-- `recommend_action`, or `none` for a `TypeError`.
unfoldable pub recommend_action : Incident → Fields → Option String
recommend_action i context =
    recommendation (truthy (get "impossible_travel" context))
      (truthy (get "malware_detected" context)) (some_mention "T1110" i.mitre_techniques)
      (truthy (get "malicious_indicator" context)) (some_mention "T1068" i.mitre_techniques)

-- A count, as it is compared with thresholds above zero, or `none` for what cannot be compared.
abbrev pub count_of : Value → Option ℕ
count_of (num n) = some n
count_of (negative n) = some 0
count_of (bool b) = some (if b then 1 else 0)
count_of _ = none

-- The arguments of `severity_from_signals`, next to the count.
abbrev pub signals_with : ℕ → Fields → Signals
signals_with count context = record {
  failed_login_count = count;
  malicious_indicator = truthy (get "malicious_indicator" context);
  new_admin_activity = truthy (get "new_admin_activity" context);
  impossible_travel = truthy (get "impossible_travel" context);
  malware_detected = truthy (get "malware_detected" context);
}

-- `severity_from_signals` of a context, or `none` for a `TypeError`.
abbrev pub scored : Fields → Option Severity
scored context =
    elim (count_of (get_or "failed_login_count" (num 0) context)) as (λ _. Option Severity) [
      | none ↦ none
      | some count ↦ some (severity_from_signals (signals_with count context))
    ]

unfoldable pub classified : Severity → ℕ → Incident → Incident
classified severity now i = record i { severity = severity; updated_at = now }

-- A `none` that stands for an exception.
abbrev pub or_raise : {A : Type 0} → Option A → Act A
or_raise none = raise exception
or_raise (some a) = pure a

-- The message with the recommendation, once the severity is stored.
unfoldable pub announce : ℕ → ℕ → Severity → Fields → ℕ → String → Act Unit
announce tenant_id incident_id severity context now action = modify (λ s. record s {
  bus =
      publish "orchestrator" (some tenant_id)
        (Message.incident_classified tenant_id incident_id severity (some action) context) now
        s.bus;
})

-- `on_enriched_incident` with its severity and the row that it finds.
unfoldable pub classify_found : ℕ → ℕ → Fields → ℕ → Severity → Option Incident → Act Unit
classify_found tenant_id incident_id context now severity none = pure tt
classify_found tenant_id incident_id context now severity (some i) = do
  modify (λ s. record s {
    incidents = update_first (incident_is incident_id) (classified severity now) s.incidents;
  })
  action ← or_raise (recommend_action i context)
  announce tenant_id incident_id severity context now action

-- `on_enriched_incident`
unfoldable pub on_enriched_incident : ℕ → ℕ → Fields → ℕ → Act Unit
on_enriched_incident tenant_id incident_id context now = do
  severity ← or_raise (scored context)
  found ← gets (λ s. first (incident_is incident_id) s.incidents)
  classify_found tenant_id incident_id context now severity found

-- What `lookup_ip` returns, with the whole dict as its details.
pub record Verdict : Type 0 where
  pub verdict : String
  pub score : ℕ
  pub details : Fields

abbrev pub indicator_is : String → ThreatIndicator → Bool
indicator_is ip t = str_eq t.indicator_type "ip" && str_eq t.value ip

-- The four assignments of `_cache_indicator`.
abbrev pub judged : Verdict → ℕ → ThreatIndicator → ThreatIndicator
judged v now t = record t {
  verdict = v.verdict;
  score = v.score;
  details = v.details;
  updated_at = now;
}

abbrev pub indicator_of : String → ℕ → ℕ → ThreatIndicator
indicator_of ip id now = record {
  id = id;
  indicator_type = "ip";
  value = ip;
  verdict = "unknown";
  score = 0;
  source = "local";
  details = no_fields;
  updated_at = now;
}

-- `_cache_indicator` with the row that it finds.
unfoldable pub cache_found : String → Verdict → ℕ → ℕ → Option ThreatIndicator → Act Unit
cache_found ip v id now none =
    modify
      (λ s. record s { indicators = s.indicators ++ judged v now (indicator_of ip id now) ∷ [] })
cache_found ip v id now (some _) =
    modify
      (λ s. record s { indicators = update_first (indicator_is ip) (judged v now) s.indicators })

-- `_cache_indicator`
unfoldable pub cache_indicator : String → Verdict → ℕ → ℕ → Act Unit
cache_indicator ip v id now = do
  rows ← gets (λ s. keep (indicator_is ip) s.indicators)
  known ← one_or_none rows
  cache_found ip v id now known

-- The new context, and the enrichment with it.
unfoldable pub flagged : Bool → Incident → Fields
flagged malicious i =
    put "malicious_indicator" (bool malicious)
      (dict (get_or "context" (obj no_fields) i.enrichment))

unfoldable pub enriched : Fields → Bool → ℕ → Incident → Incident
enriched update malicious now i = record i {
  enrichment = put "context" (obj (flagged malicious i)) (merge i.enrichment update);
  updated_at = now;
}

-- `on_new_incident` with the row that it finds.
unfoldable pub enrich_found : ℕ → ℕ → Fields → Bool → ℕ → Option Incident → Act Unit
enrich_found tenant_id incident_id update malicious now none = pure tt
enrich_found tenant_id incident_id update malicious now (some i) = modify (λ s. record s {
  incidents = update_first (incident_is incident_id) (enriched update malicious now) s.incidents;
  bus =
      publish "threat_intel" (some tenant_id)
        (Message.incident_enriched tenant_id incident_id (flagged malicious i)) now s.bus;
})

unfoldable pub store_verdict : ℕ → ℕ → Fields → Bool → ℕ → Act Unit
store_verdict tenant_id incident_id update malicious now = do
  found ← gets (λ s. first (incident_is incident_id) s.incidents)
  enrich_found tenant_id incident_id update malicious now found

-- `on_new_incident` with what `lookup_ip` answers, `none` where it raises.
unfoldable pub enrich_verdict : Option Verdict → ℕ → ℕ → ℕ → ℕ → String → Act Unit
enrich_verdict none tenant_id incident_id id now ip = raise exception
enrich_verdict (some v) tenant_id incident_id id now ip =
    cache_indicator ip v id now
    >> store_verdict tenant_id incident_id
        (entry "ip_reputation" (obj (entry ip (obj v.details) no_fields)) no_fields)
        (str_eq v.verdict "malicious") now

-- `on_new_incident` with the address of the context. One that is truthy and no text, which no column
-- for texts takes, raises.
unfoldable pub enrich_with : (String → Option Verdict) → ℕ → ℕ → ℕ → ℕ → Value → Act Unit
enrich_with lookup_ip tenant_id incident_id id now (text ip) =
    if str_eq ip ""
    then store_verdict tenant_id incident_id no_fields false now
    else enrich_verdict (lookup_ip ip) tenant_id incident_id id now ip
enrich_with lookup_ip tenant_id incident_id id now v =
    if truthy v then raise exception else store_verdict tenant_id incident_id no_fields false now

-- `on_new_incident`
unfoldable pub on_new_incident : (String → Option Verdict) → ℕ → ℕ → Fields → ℕ → ℕ → Act Unit
on_new_incident lookup_ip tenant_id incident_id context id now =
    enrich_with lookup_ip tenant_id incident_id id now (get "src_ip" context)
