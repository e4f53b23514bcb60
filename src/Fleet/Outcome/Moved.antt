-- ===== src/Fleet/Outcome/Moved.antt =====
-- A message about an incident brings about the next one, or the proposal.
use sentri_mesh_astra.Prelude.{
  ℕ, String, ◌≡◌, refl, sym, ◌∙◌, subst, inl, inr, Bool, true, false, not, ◌&&◌, Option, none, some,
  List, [], ◌∷◌, arith, str_eq, ◌==◌, if◌then◌else◌, ==_self, Bool-cases, is_some, any, keep, first,
  All, All-first, any-append, Action, gets, raise, and_then, ◌>>=◌, if_keeps, Result, ok, err,
  exception,
}
use sentri_mesh_astra.Json.{
  Value, Fields, obj, arr, bool, num, negative, null, text, entry, no_fields, truthy, get, get_or,
}
use sentri_mesh_astra.Models.{Incident, Severity}
use sentri_mesh_astra.Bus.{Bus, Message, publish, audit}
use sentri_mesh_astra.System.{incident_is}
use sentri_mesh_astra.Policy.{severity_from_signals}
use sentri_mesh_astra.Detection.{Act, Flow}
use sentri_mesh_astra.Pipeline.{
  Verdict, recommendation, recommend_action, enrich_found, store_verdict, enrich_with,
  on_new_incident, flagged, cache_indicator, indicator_is, classify_found, on_enriched_incident,
  signals_with, count_of, scored, or_raise, announce, enrich_verdict,
}
use sentri_mesh_astra.Fleet.Lasting.{IsUnique, cached-IsUnique}
use sentri_mesh_astra.Fleet.Outcome.{is_about, is_readable, names_action, is_countable}
use sentri_mesh_astra.Fleet.Outcome.Clear.{IsClear, countable-put}
use sentri_mesh_astra.Pipeline.Recommendation.{recommend_action-Treated}
use sentri_mesh_astra.Pipeline.Enrichment.{context_of_row}

abbrev IsSaid : ℕ → Bus → Type 0
IsSaid k b = any (is_about k) b.delivered ≡ true

publish-IsSaid :
    (k : ℕ) (actor : String) (t : Option ℕ) (m : Message) (now : ℕ) (b : Bus)
    → is_about k m ≡ true
    → IsSaid k (publish actor t m now b)
unfolding publish audit
publish-IsSaid k actor t m now b about =
    rw (any-append (is_about k) b.delivered (m ∷ []), about) (ground arith)

both : (a b : Bool) → a ≡ true → b ≡ true → (a && b) ≡ true
both a b h k = ground (arith, h, k)

found_row :
    {A : Type 0} (p : A → Bool) (xs : List A) → any p xs ≡ true → (x : A) × (first p xs ≡ some x)
found_row p [] h = absurd (ground (arith, h))
found_row p (x ∷ xs) h = elim (Bool-cases (p x)) [
  | inl here ↦ (x, rw here refl)
  | inr past ↦ let (y, e) = found_row p xs (ground (arith, h, past)) in (y, rw past e)
]

flagged-countable :
    (malicious : Bool) (i : Incident) → IsClear i → is_countable (flagged malicious i) ≡ true
unfolding flagged
flagged-countable malicious i clear =
    countable-put "malicious_indicator" (bool malicious) (context_of_row i) refl ∙ clear.1

store_verdict-IsSaid :
    (t k : ℕ) (update : Fields) (malicious : Bool) (now : ℕ) (s : Flow)
    → any (incident_is k) s.incidents ≡ true
    → All IsClear s.incidents
    → IsSaid k (store_verdict t k update malicious now s).1.bus
unfolding store_verdict enrich_found
store_verdict-IsSaid t k update malicious now s row clear =
    let (i, found) = found_row (incident_is k) s.incidents row in
    rw found (
      publish-IsSaid k "threat_intel" (some t) (Message.incident_enriched t k (flagged malicious i))
        now s.bus
        (both (k == k) (is_countable (flagged malicious i)) (==_self k) (
          flagged-countable malicious i
            (All-first IsClear (incident_is k) s.incidents i clear found))))

after_ok :
    {S : Type 0} (P : S → Type 0) (next : Action S Unit) (out : Result (Unit {0}) × S)
    → out.0 ≡ ok tt
    → P (next out.1).1
    → P (and_then (λ _. next) out).1
after_ok P next (ok a, s) e h = h
after_ok P next (err x, s) e h = absurd (ground (arith, e))

enrich_verdict-IsSaid :
    (found : Option Verdict) (t k id now : ℕ) (ip : String) (s : Flow)
    → any (incident_is k) s.incidents ≡ true
    → All IsClear s.incidents
    → IsUnique s.indicators
    → is_some found ≡ true
    → IsSaid k (enrich_verdict found t k id now ip s).1.bus
unfolding enrich_verdict
enrich_verdict-IsSaid none t k id now ip s row clear unique answered =
    absurd (ground (arith, answered))
enrich_verdict-IsSaid (some v) t k id now ip s row clear unique answered =
    let (returns, after, rest) =
      cached-IsUnique ip v id now s (keep (indicator_is ip) s.indicators) refl (unique ip) unique in
    let update = entry "ip_reputation" (obj (entry ip (obj v.details) no_fields)) no_fields in
    let malicious = str_eq v.verdict "malicious" in
    after_ok (λ (u : Flow). IsSaid k u.bus) (store_verdict t k update malicious now)
      (cache_indicator ip v id now s) returns
      (store_verdict-IsSaid t k update malicious now (cache_indicator ip v id now s).1
        (subst (λ (u : Flow). any (incident_is k) u.incidents ≡ true) (sym rest) row)
        (subst (λ (u : Flow). All IsClear u.incidents) (sym rest) clear))

unread-IsSaid :
    (v : Value) (t k now : ℕ) (s : Flow)
    → any (incident_is k) s.incidents ≡ true
    → All IsClear s.incidents
    → truthy v ≡ false
    → IsSaid k
        ((if truthy v then raise exception else store_verdict t k no_fields false now) s).1.bus
unread-IsSaid v t k now s row clear falsy =
    rw falsy (store_verdict-IsSaid t k no_fields false now s row clear)

pub false_of_not : (b : Bool) → not b ≡ true → b ≡ false
false_of_not b e = ground (arith, e)

enrich_with-IsSaid :
    (lookup_ip : String → Option Verdict) (t k id now : ℕ) (v : Value) (s : Flow)
    → any (incident_is k) s.incidents ≡ true
    → All IsClear s.incidents
    → IsUnique s.indicators
    → ((ip : String) → is_some (lookup_ip ip) ≡ true)
    → is_readable v ≡ true
    → IsSaid k (enrich_with lookup_ip t k id now v s).1.bus
unfolding enrich_with
enrich_with-IsSaid lookup_ip t k id now (text ip) s row clear unique answered readable =
    if_keeps (λ (m : Act Unit). IsSaid k (m s).1.bus) (str_eq ip "") _ _
      (λ empty. store_verdict-IsSaid t k no_fields false now s row clear)
      (λ address.
        enrich_verdict-IsSaid (lookup_ip ip) t k id now ip s row clear unique (answered ip))
enrich_with-IsSaid lookup_ip t k id now (obj d) s row clear unique answered readable =
    unread-IsSaid (obj d) t k now s row clear (false_of_not (truthy (obj d)) readable)
enrich_with-IsSaid lookup_ip t k id now (arr d) s row clear unique answered readable =
    unread-IsSaid (arr d) t k now s row clear (false_of_not (truthy (arr d)) readable)
enrich_with-IsSaid lookup_ip t k id now (bool d) s row clear unique answered readable =
    unread-IsSaid (bool d) t k now s row clear (false_of_not (truthy (bool d)) readable)
enrich_with-IsSaid lookup_ip t k id now (num d) s row clear unique answered readable =
    unread-IsSaid (num d) t k now s row clear (false_of_not (truthy (num d)) readable)
enrich_with-IsSaid lookup_ip t k id now (negative d) s row clear unique answered readable =
    unread-IsSaid (negative d) t k now s row clear (false_of_not (truthy (negative d)) readable)
enrich_with-IsSaid lookup_ip t k id now null s row clear unique answered readable =
    unread-IsSaid null t k now s row clear (false_of_not (truthy null) readable)

pub on_new_incident-IsSaid :
    (lookup_ip : String → Option Verdict) (t k : ℕ) (context : Fields) (id now : ℕ) (s : Flow)
    → any (incident_is k) s.incidents ≡ true
    → All IsClear s.incidents
    → IsUnique s.indicators
    → ((ip : String) → is_some (lookup_ip ip) ≡ true)
    → is_readable (get "src_ip" context) ≡ true
    → IsSaid k (on_new_incident lookup_ip t k context id now s).1.bus
unfolding on_new_incident
on_new_incident-IsSaid lookup_ip t k context id now =
    enrich_with-IsSaid lookup_ip t k id now (get "src_ip" context)

-- A text that is there and not empty.
abbrev Named : Option String → Type 0
Named none = Unit {0}
Named (some a) = names_action (some a) ≡ true

recommendation-Named :
    (a b : Bool) (c : Option Bool) (d : Bool) (e : Option Bool) → Named (recommendation a b c d e)
unfolding recommendation
recommendation-Named true b c d e = refl
recommendation-Named false true c d e = refl
recommendation-Named false false none d e = tt
recommendation-Named false false (some true) true e = refl
recommendation-Named false false (some true) false e = refl
recommendation-Named false false (some false) d none = tt
recommendation-Named false false (some false) d (some true) = refl
recommendation-Named false false (some false) d (some false) = refl

announced-IsSaid :
    (t k : ℕ) (severity : Severity) (context : Fields) (now : ℕ) (found : Option String) (s : Flow)
    → is_some found ≡ true
    → Named found
    → IsSaid k ((or_raise found >>= announce t k severity context now) s).1.bus
unfolding announce
announced-IsSaid t k severity context now none s there named = absurd (ground (arith, there))
announced-IsSaid t k severity context now (some a) s there named =
    publish-IsSaid k "orchestrator" (some t)
      (Message.incident_classified t k severity (some a) context) now s.bus
      (both (k == k) (names_action (some a)) (==_self k) named)

scored-IsSaid :
    (t k : ℕ) (context : Fields) (now : ℕ) (found : Option Severity) (s : Flow)
    → any (incident_is k) s.incidents ≡ true
    → All IsClear s.incidents
    → is_some found ≡ true
    → IsSaid k
        ((or_raise found >>= λ severity. gets (λ s. first (incident_is k) s.incidents) >>= λ row.
            classify_found t k context now severity row)
          s).1.bus
unfolding classify_found recommend_action
scored-IsSaid t k context now none s row clear there = absurd (ground (arith, there))
scored-IsSaid t k context now (some severity) s row clear there =
    let (i, found) = found_row (incident_is k) s.incidents row in
    let searched = All-first IsClear (incident_is k) s.incidents i clear found in
    rw found (
      announced-IsSaid t k severity context now (recommend_action i context) _
        ((recommend_action-Treated i context severity).1 searched.0)
        (recommendation-Named _ _ _ _ _))

scored-some : (context : Fields) → is_countable context ≡ true → is_some (scored context) ≡ true
scored-some context h = of (count_of (get_or "failed_login_count" (num 0) context)) h
  where
    of :
        (count : Option ℕ)
        → is_some count ≡ true
        → is_some (elim count as (λ _. Option Severity) [
          | none ↦ none
          | some n ↦ some (severity_from_signals (signals_with n context))
        ])
          ≡ true
    of none e = absurd (ground (arith, e))
    of (some n) e = refl

pub on_enriched_incident-IsSaid :
    (t k : ℕ) (context : Fields) (now : ℕ) (s : Flow)
    → any (incident_is k) s.incidents ≡ true
    → All IsClear s.incidents
    → is_countable context ≡ true
    → IsSaid k (on_enriched_incident t k context now s).1.bus
unfolding on_enriched_incident
on_enriched_incident-IsSaid t k context now s row clear counted =
    scored-IsSaid t k context now (scored context) s row clear (scored-some context counted)
