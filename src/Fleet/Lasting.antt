-- ===== src/Fleet/Lasting.antt =====
-- What no handler of backend/app/agents takes away: the row of an incident, the uniqueness of indicators, and
-- what holds of the messages so far and goes on to hold as more are published.
use sentri_mesh_astra.Prelude.{
  ℕ, ◌≤◌, String, ◌≡◌, refl, sym, subst, inl, inr, Bool, true, false, not, Option, none, some, List,
  [], ◌∷◌, ◌++◌, arith, eq_iff, Bool-cases, length, any, keep, first, any-append, length-keep-last,
  none_kept, update_first, any-update_first, Action, gets, ◌>>=◌, if_keeps, raise_if_keeps, ok,
  exception,
}
use sentri_mesh_astra.Json.{Fields, no_fields}
use sentri_mesh_astra.Models.{Severity, is_active_status, Incident, ThreatIndicator}
use sentri_mesh_astra.Bus.{Bus, Message, publish, audit}
use sentri_mesh_astra.System.{incident_is}
use sentri_mesh_astra.Detection.{
  is_hashable, Flow, Act, Sighting, start, settle, open_incident, ongoing, campaign_of, folded,
  incident_of, dict, context_of,
}
use sentri_mesh_astra.Pipeline.{
  indicator_of, cache_found, judged, Verdict, cache_indicator, indicator_is, enrich_found,
  store_verdict, enriched, flagged, classified, classify_found, on_enriched_incident, scored,
  or_raise, announce, recommend_action,
}
use sentri_mesh_astra.Exposure.{report_scan}

-- An event on its way to the detection agent.
abbrev pub is_event : Message → Bool
is_event (Message.raw_event _) = true
is_event (Message.normalized_event _ _ _) = true
is_event _ = false

abbrev pub IsUnique : List ThreatIndicator → Type 0
IsUnique ts = (ip : String) → length (keep (indicator_is ip) ts) ≤ 1

length-keep-judged :
    (q : ThreatIndicator → Bool) (ip : String) (v : Verdict) (now : ℕ) (ts : List ThreatIndicator)
    → ((t : ThreatIndicator) → q (judged v now t) ≡ q t)
    → length (keep q (update_first (indicator_is ip) (judged v now) ts)) ≡ length (keep q ts)
length-keep-judged q ip v now [] same = refl
length-keep-judged q ip v now (t ∷ ts) same =
    ground (arith, same t, length-keep-judged q ip v now ts same)

-- A new row for an address that has none.
IsUnique-added :
    (ip : String) (v : Verdict) (id now : ℕ) (ts : List ThreatIndicator)
    → keep (indicator_is ip) ts ≡ []
    → IsUnique ts
    → IsUnique (ts ++ judged v now (indicator_of ip id now) ∷ [])
IsUnique-added ip v id now ts none_there unique other =
    length-keep-last (indicator_is other) ts (judged v now (indicator_of ip id now)) (unique other)
      (λ same.
        subst (λ x. any (indicator_is x) ts ≡ false) ((eq_iff ip other).0 (ground (arith, same)))
          (none_kept (indicator_is ip) ts none_there))

-- The cache takes a verdict, and an address goes on to have one row at most.
pub cached-IsUnique :
    (ip : String) (v : Verdict) (id now : ℕ) (s : Flow) (rows : List ThreatIndicator)
    → keep (indicator_is ip) s.indicators ≡ rows
    → length rows ≤ 1
    → IsUnique s.indicators
    → ((cache_indicator ip v id now s).0 ≡ ok tt)
      × IsUnique (cache_indicator ip v id now s).1.indicators
      × ((cache_indicator ip v id now s).1
          ≡ record s { indicators = (cache_indicator ip v id now s).1.indicators })
unfolding cache_indicator cache_found
cached-IsUnique ip v id now s [] e le unique =
    rw e (refl, IsUnique-added ip v id now s.indicators e unique, refl)
cached-IsUnique ip v id now s (t ∷ []) e le unique = rw e (
  refl,
  λ other.
      rw (length-keep-judged (indicator_is other) ip v now s.indicators (λ x. refl)) (unique other),
  refl,
)
cached-IsUnique ip v id now s (t ∷ u ∷ rest) e le unique = absurd (omega (arith, le))

module _ (k : ℕ) (Q : List Message → Type 0) where
  -- The row of incident `k` is there, addresses have one row each, and `Q` holds of the messages.
  abbrev pub Lasts : Flow → Type 0
  Lasts s = (any (incident_is k) s.incidents ≡ true) × IsUnique s.indicators × Q s.bus.delivered

  abbrev pub Keeps : {A : Type 0} → Action Flow A → Type 0
  Keeps m = (s : Flow) → Lasts s → Lasts (m s).1

module _ (k : ℕ) (Q : List Message → Type 0)
    (grows : (ms : List Message) (m : Message) → is_event m ≡ false → Q ms → Q (ms ++ m ∷ [])) where
  publish-Q :
      (actor : String) (t : Option ℕ) (m : Message) (now : ℕ) (b : Bus)
      → is_event m ≡ false
      → Q b.delivered
      → Q (publish actor t m now b).delivered
  unfolding publish audit
  publish-Q actor t m now b quiet h = grows b.delivered m quiet h

  row-added :
      (is : List Incident) (i : Incident)
      → any (incident_is k) is ≡ true
      → any (incident_is k) (is ++ i ∷ []) ≡ true
  row-added is i h = rw (any-append (incident_is k) is (i ∷ []), h)

  row-updated :
      (j : ℕ) (f : Incident → Incident) (is : List Incident)
      → ((i : Incident) → (f i).id ≡ i.id)
      → any (incident_is k) is ≡ true
      → any (incident_is k) (update_first (incident_is j) f is) ≡ true
  row-updated j f is same h =
      any-update_first (incident_is k) (incident_is j) f is (λ i found own. rw (same i) own) h

  start-Keeps : (w : Sighting) (id now : ℕ) → Keeps k Q (start w id now)
  unfolding start
  start-Keeps w id now s h = elim (Bool-cases (any (incident_is id) s.incidents)) [
    | inl taken ↦ rw taken h
    | inr free ↦ rw free (
      row-added s.incidents (incident_of w id now) h.0,
      h.1,
      publish-Q "detection" (some w.tenant_id)
          (Message.incident_new w.tenant_id id (dict (context_of w))) now s.bus refl h.2,
    )
  ]

  settle-Keeps :
      (w : Sighting) (id now : ℕ) (found : Option Incident) → Keeps k Q (settle w id now found)
  unfolding settle folded
  settle-Keeps w id now none s h = start-Keeps w id now s h
  settle-Keeps w id now (some i) s h =
      if_keeps (λ (m : Act Unit). Lasts k Q (m s).1) (is_active_status i.status) _ _
        (λ open_. (row-updated i.id (folded w now) s.incidents (λ j. refl) h.0, h.1, h.2))
        (λ closed. start-Keeps w id now s h)

  pub open_incident-Keeps : (w : Sighting) (id now : ℕ) → Keeps k Q (open_incident w id now)
  unfolding open_incident
  open_incident-Keeps w id now s h =
      raise_if_keeps (Lasts k Q) (not (is_hashable (campaign_of w).src_ip)) exception
        (gets (ongoing (campaign_of w)) >>= λ found. settle w id now found) s h
        (λ hashable. settle-Keeps w id now (ongoing (campaign_of w) s) s h)

  pub report_scan-Keeps : (i : Incident) (now : ℕ) → Keeps k Q (report_scan i now)
  unfolding report_scan
  report_scan-Keeps i now s h = elim (Bool-cases (any (incident_is i.id) s.incidents)) [
    | inl taken ↦ rw taken h
    | inr free ↦ rw free (
      row-added s.incidents i h.0,
      h.1,
      publish-Q "exposure" (some i.tenant_id) (Message.incident_new i.tenant_id i.id no_fields) now
          s.bus refl h.2,
    )
  ]

  enrich_found-Keeps :
      (t j : ℕ) (update : Fields) (malicious : Bool) (now : ℕ) (found : Option Incident)
      → Keeps k Q (enrich_found t j update malicious now found)
  unfolding enrich_found enriched
  enrich_found-Keeps t j update malicious now none s h = h
  enrich_found-Keeps t j update malicious now (some i) s h = (
    row-updated j (enriched update malicious now) s.incidents (λ x. refl) h.0,
    h.1,
    publish-Q "threat_intel" (some t) (Message.incident_enriched t j (flagged malicious i)) now
        s.bus refl h.2,
  )

  pub store_verdict-Keeps :
      (t j : ℕ) (update : Fields) (malicious : Bool) (now : ℕ)
      → Keeps k Q (store_verdict t j update malicious now)
  unfolding store_verdict
  store_verdict-Keeps t j update malicious now s h =
      enrich_found-Keeps t j update malicious now (first (incident_is j) s.incidents) s h

  announced-Keeps :
      (t j : ℕ) (severity : Severity) (context : Fields) (now : ℕ) (found : Option String)
      → Keeps k Q (or_raise found >>= announce t j severity context now)
  unfolding announce
  announced-Keeps t j severity context now none s h = h
  announced-Keeps t j severity context now (some a) s h = (
    h.0,
    h.1,
    publish-Q "orchestrator" (some t) (Message.incident_classified t j severity (some a) context)
        now s.bus refl h.2,
  )

  classify_found-Keeps :
      (t j : ℕ) (context : Fields) (now : ℕ) (severity : Severity) (found : Option Incident)
      → Keeps k Q (classify_found t j context now severity found)
  unfolding classify_found classified
  classify_found-Keeps t j context now severity none s h = h
  classify_found-Keeps t j context now severity (some i) s h =
      announced-Keeps t j severity context now (recommend_action i context) _
        (row-updated j (classified severity now) s.incidents (λ x. refl) h.0, h.1, h.2)

  scored-Keeps :
      (t j : ℕ) (context : Fields) (now : ℕ) (found : Option Severity)
      → Keeps k Q (
          or_raise found >>= λ severity. gets (λ s. first (incident_is j) s.incidents) >>= λ row.
          classify_found t j context now severity row)
  scored-Keeps t j context now none s h = h
  scored-Keeps t j context now (some severity) s h =
      classify_found-Keeps t j context now severity (first (incident_is j) s.incidents) s h

  pub on_enriched_incident-Keeps :
      (t j : ℕ) (context : Fields) (now : ℕ) → Keeps k Q (on_enriched_incident t j context now)
  unfolding on_enriched_incident
  on_enriched_incident-Keeps t j context now = scored-Keeps t j context now (scored context)

  pub cache_indicator-Keeps :
      (ip : String) (v : Verdict) (id now : ℕ) → Keeps k Q (cache_indicator ip v id now)
  cache_indicator-Keeps ip v id now s h =
      let (returns, unique, rest) =
        cached-IsUnique ip v id now s (keep (indicator_is ip) s.indicators) refl (h.1 ip) h.1 in
      subst (Lasts k Q) (sym rest) (h.0, unique, h.2)
