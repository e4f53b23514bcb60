-- ===== src/Pipeline/Recommendation.antt =====
-- What the recommendations of backend/app/agents/orchestrator.py lead to under the policy of
-- backend/app/policy/engine.py.
use sentri_mesh_astra.Prelude.{
  String, ◌≡◌, refl, Bool, true, false, not, ◌&&◌, ◌||◌, Option, none, some, List, [], ◌∷◌, arith,
  str_eq, if◌then◌else◌, is_some, All, contains, lookup,
}
use sentri_mesh_astra.Json.{Fields, Value, get, truthy, text, arr, obj, num, negative, bool, null}
use sentri_mesh_astra.Models.{Incident, Severity, AutonomyTier, is_critical, is_tier1}
use sentri_mesh_astra.Policy.{reversibility, tier_and_reasoning, classify_action}
use sentri_mesh_astra.Pipeline.{recommend_action, recommendation, mentions, some_mention}

abbrev pub is_tier3 : AutonomyTier → Bool
is_tier3 AutonomyTier.tier3_human_only = true
is_tier3 _ = false

-- What the policy says of a recommendation.
abbrev pub Treated : String → Severity → Type 0
Treated a sev =
    ((classify_action a sev).reversible ≡ true)
    × (is_tier1 (classify_action a sev).tier ≡ str_eq a "notify")
    × (is_tier3 (classify_action a sev).tier
        ≡ (str_eq a "disable_account" || (is_critical sev && not (str_eq a "notify"))))

by_severity :
    (P : Severity → Type 0)
    → P Severity.low
    → P Severity.medium
    → P Severity.high
    → P Severity.critical
    → (sev : Severity) → P sev
by_severity P l m h c Severity.low = l
by_severity P l m h c Severity.medium = m
by_severity P l m h c Severity.high = h
by_severity P l m h c Severity.critical = c

-- What holds of a text that is there.
abbrev pub Holding : (String → Type 0) → Option String → Type 0
Holding P none = Unit {0}
Holding P (some a) = P a

recommendation-Treated :
    (a b : Bool) (c : Option Bool) (d : Bool) (e : Option Bool) (sev : Severity)
    → Holding (λ action. Treated action sev) (recommendation a b c d e)
unfolding recommendation classify_action tier_and_reasoning reversibility contains lookup
recommendation-Treated true b c d e =
    by_severity (Treated "force_password_reset") (refl, refl, refl) (refl, refl, refl)
      (refl, refl, refl) (refl, refl, refl)
recommendation-Treated false true c d e =
    by_severity (Treated "quarantine_endpoint") (refl, refl, refl) (refl, refl, refl)
      (refl, refl, refl) (refl, refl, refl)
recommendation-Treated false false none d e = λ sev. tt
recommendation-Treated false false (some true) true e =
    by_severity (Treated "block_ip") (refl, refl, refl) (refl, refl, refl) (refl, refl, refl)
      (refl, refl, refl)
recommendation-Treated false false (some true) false e =
    by_severity (Treated "notify") (refl, refl, refl) (refl, refl, refl) (refl, refl, refl)
      (refl, refl, refl)
recommendation-Treated false false (some false) d none = λ sev. tt
recommendation-Treated false false (some false) d (some true) =
    by_severity (Treated "disable_account") (refl, refl, refl) (refl, refl, refl) (refl, refl, refl)
      (refl, refl, refl)
recommendation-Treated false false (some false) d (some false) =
    by_severity (Treated "notify") (refl, refl, refl) (refl, refl, refl) (refl, refl, refl)
      (refl, refl, refl)

-- A technique in which Python can look for a text.
abbrev pub can_search : Value → Bool
can_search (text _) = true
can_search (arr _) = true
can_search (obj _) = true
can_search _ = false

mentions-some : (t : String) (v : Value) → can_search v ≡ true → is_some (mentions t v) ≡ true
mentions-some t (text s) h = refl
mentions-some t (arr es) h = refl
mentions-some t (obj d) h = refl
mentions-some t (num n) h = absurd (ground (arith, h))
mentions-some t (negative n) h = absurd (ground (arith, h))
mentions-some t (bool b) h = absurd (ground (arith, h))
mentions-some t null h = absurd (ground (arith, h))

some_mention-some :
    (t : String) (vs : List Value)
    → All (λ v. can_search v ≡ true) vs
    → is_some (some_mention t vs) ≡ true
some_mention-some t [] h = refl
some_mention-some t (v ∷ vs) h =
    found (mentions t v) (mentions-some t v h.0) (some_mention-some t vs h.1)
  where
    found :
        (m : Option Bool)
        → is_some m ≡ true
        → is_some (some_mention t vs) ≡ true
        → is_some (elim m as (λ _. Option Bool) [
          | none ↦ none
          | some b ↦ if b then some true else some_mention t vs
        ])
          ≡ true
    found none e rest = absurd (ground (arith, e))
    found (some true) e rest = refl
    found (some false) e rest = rest

recommendation-some :
    (a b : Bool) (c : Option Bool) (d : Bool) (e : Option Bool)
    → is_some c ≡ true
    → is_some e ≡ true
    → is_some (recommendation a b c d e) ≡ true
unfolding recommendation
recommendation-some true b c d e h k = refl
recommendation-some false true c d e h k = refl
recommendation-some false false none d e h k = absurd (ground (arith, h))
recommendation-some false false (some true) d e h k = refl
recommendation-some false false (some false) d none h k = absurd (ground (arith, k))
recommendation-some false false (some false) d (some e) h k = refl

-- Whatever an incident and its context say, and at any severity, an action that the orchestrator
-- recommends is reversible, is executed without a person exactly if it is the notification, and is left
-- to people alone only if it disables an account or the incident is critical. And if Python can look for a
-- text in every technique of the incident, there is a recommendation.
pub recommend_action-Treated :
    (i : Incident) (context : Fields) (sev : Severity)
    → Holding (λ action. Treated action sev) (recommend_action i context)
      × (All (λ v. can_search v ≡ true) i.mitre_techniques
          → is_some (recommend_action i context) ≡ true)
unfolding recommend_action
recommend_action-Treated i context sev = (
  recommendation-Treated (truthy (get "impossible_travel" context))
      (truthy (get "malware_detected" context)) (some_mention "T1110" i.mitre_techniques)
      (truthy (get "malicious_indicator" context)) (some_mention "T1068" i.mitre_techniques) sev,
  λ all.
      recommendation-some _ _ (some_mention "T1110" i.mitre_techniques) _
        (some_mention "T1068" i.mitre_techniques) (some_mention-some "T1110" i.mitre_techniques all)
        (some_mention-some "T1068" i.mitre_techniques all),
)
