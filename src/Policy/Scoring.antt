-- ===== src/Policy/Scoring.antt =====
-- The severity that `severity_from_signals` of backend/app/policy/engine.py gives to signals.
use sentri_mesh_astra.Prelude.{
  ℕ, ◌+◌, ◌≤◌, ◌≡◌, refl, ◌↔◌, Bool, true, arith, leb, ◌==◌, if◌then◌else◌,
}
use sentri_mesh_astra.Models.{Severity, severity_rank}
use sentri_mesh_astra.Policy.{Signals, score, severity_from_signals}

abbrev pub Implies : Bool → Bool → Type 0
Implies a b = a ≡ true → b ≡ true

-- One set of signals is at most as alarming as another.
pub record IsMilder (s t : Signals) : Type 0 where
  pub failures : s.failed_login_count ≤ t.failed_login_count
  pub indicator : Implies s.malicious_indicator t.malicious_indicator
  pub admin : Implies s.new_admin_activity t.new_admin_activity
  pub travel : Implies s.impossible_travel t.impossible_travel
  pub malware : Implies s.malware_detected t.malware_detected

weight_mono : (a b : Bool) (w : ℕ) → Implies a b → (if a then w else 0) ≤ (if b then w else 0)
weight_mono a b w h = ground arith

failures_mono :
    (m n : ℕ)
    → m ≤ n
    → (if leb 20 m then 2 else if leb 5 m then 1 else 0)
      ≤ (if leb 20 n then 2 else if leb 5 n then 1 else 0)
failures_mono m n h = ground arith

score_mono : (s t : Signals) → IsMilder s t → score s ≤ score t
unfolding score
score_mono s t h = omega (
  arith,
  failures_mono s.failed_login_count t.failed_login_count h.failures,
  weight_mono s.malicious_indicator t.malicious_indicator 2 h.indicator,
  weight_mono s.malware_detected t.malware_detected 2 h.malware,
  weight_mono s.new_admin_activity t.new_admin_activity 1 h.admin,
  weight_mono s.impossible_travel t.impossible_travel 3 h.travel,
)

abbrev pub severity_of : ℕ → Severity
severity_of n =
    if leb 4 n
    then Severity.critical
    else if n == 3
    then Severity.high
    else if leb 1 n
    then Severity.medium
    else Severity.low

severity_of_mono : (m n : ℕ) → m ≤ n → severity_rank (severity_of m) ≤ severity_rank (severity_of n)
severity_of_mono m n h = ground arith

severity-score : (s : Signals) → severity_from_signals s ≡ severity_of (score s)
unfolding severity_from_signals
severity-score s = refl

-- More failed logins or more signals never lower the severity.
pub severity_from_signals_monotone :
    (s t : Signals)
    → IsMilder s t
    → severity_rank (severity_from_signals s) ≤ severity_rank (severity_from_signals t)
severity_from_signals_monotone s t h =
    simp severity-score (severity_of_mono (score s) (score t) (score_mono s t h))

-- The number of kinds of evidence that signals hold; five failed logins count as one.
abbrev pub evidence : Signals → ℕ
evidence s =
    (if leb 5 s.failed_login_count then 1 else 0)
    + (if s.malicious_indicator then 1 else 0)
    + (if s.malware_detected then 1 else 0)
    + (if s.new_admin_activity then 1 else 0)
    + (if s.impossible_travel then 1 else 0)

-- The severity is low exactly if there is no evidence at all; one kind of evidence is never enough
-- for critical; and impossible travel is at least high by itself.
pub severity_from_signals-evidence :
    (s : Signals)
    → ((severity_from_signals s ≡ Severity.low) ↔ (evidence s ≡ 0))
      × (severity_from_signals s ≡ Severity.critical → 2 ≤ evidence s)
      × (s.impossible_travel ≡ true → 2 ≤ severity_rank (severity_from_signals s))
unfolding severity_from_signals
severity_from_signals-evidence s =
    ((λ h. ground arith, λ h. ground arith), λ h. ground arith, λ h. ground arith)
