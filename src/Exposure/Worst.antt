-- ===== src/Exposure/Worst.antt =====
-- `_worst_severity` of backend/app/agents/exposure.py against the severities that the advisories name.
use sentri_mesh_astra.Prelude.{
  ℕ, ◌≤◌, max, String, ◌≡◌, refl, sym, subst, inl, inr, Bool, false, ◌||◌, List, [], ◌∷◌, arith,
  str_eq, leb, if◌then◌else◌, Bool-cases, any, keep,
}
use sentri_mesh_astra.Models.{Severity}
use sentri_mesh_astra.Exposure.Advisories.{Advisory, PackageReport}
use sentri_mesh_astra.Exposure.{some_of, vulnerable, rank, worst_of, worst_rank, worst_severity}

-- Whether some advisory on some package is of the severity.
abbrev pub found_some : String → List PackageReport → Bool
found_some name results = any (λ r. any (λ a. str_eq a.severity name) r.vulnerabilities) results

-- The worst of the severities that the advisories name.
abbrev pub worst_found : List PackageReport → Severity
worst_found results =
    if found_some "critical" results
    then Severity.critical
    else if found_some "high" results
    then Severity.high
    else if found_some "medium" results
    then Severity.medium
    else Severity.low

-- What a rank says of the severities that it stands for.
abbrev Ranked : ℕ → Bool → Bool → Bool → Type 0
Ranked n critical high medium =
    (n ≤ 4)
    × (leb 4 n ≡ critical)
    × (leb 3 n ≡ (critical || high))
    × (leb 2 n ≡ (critical || high || medium))

leb-max : (k m n : ℕ) → leb k (max m n) ≡ (leb k m || leb k n)
leb-max k m n = ground arith

or_mixed :
    (a b c d e f : Bool)
    → (((a || b) || (d || e)) ≡ ((a || d) || (b || e)))
      × (((a || b || c) || (d || e || f)) ≡ ((a || d) || (b || e) || (c || f)))
or_mixed a b c d e f = (ground arith, ground arith)

max-Ranked :
    (m n : ℕ) (a b c d e f : Bool)
    → Ranked m a b c
    → Ranked n d e f
    → Ranked (max m n) (a || d) (b || e) (c || f)
max-Ranked m n a b c d e f g h = (
  omega (arith, g.0, h.0),
  rw (leb-max 4 m n, g.1, h.1) refl,
  rw (leb-max 3 m n, g.2, h.2) (or_mixed a b c d e f).0,
  rw (leb-max 2 m n, g.3, h.3) (or_mixed a b c d e f).1,
)

rank-Ranked :
    (s : String) → Ranked (rank s) (str_eq s "critical") (str_eq s "high") (str_eq s "medium")
rank-Ranked s = elim (Bool-cases (str_eq s "critical")) [
  | inl c ↦ rw c (omega arith, refl, refl, refl)
  | inr c ↦ elim (Bool-cases (str_eq s "high")) [
    | inl h ↦ rw (c, h) (omega arith, refl, refl, refl)
    | inr h ↦ elim (Bool-cases (str_eq s "medium")) [
      | inl m ↦ rw (c, h, m) (omega arith, refl, refl, refl)
      | inr m ↦ rw (c, h, m) (omega arith, refl, refl, refl)
    ]
  ]
]

worst_of-Ranked :
    (found : List Advisory)
    → Ranked
        (worst_of found)
        (any (λ a. str_eq a.severity "critical") found)
        (any (λ a. str_eq a.severity "high") found)
        (any (λ a. str_eq a.severity "medium") found)
worst_of-Ranked [] = (omega arith, refl, refl, refl)
worst_of-Ranked (a ∷ found) =
    max-Ranked (rank a.severity) (worst_of found) _ _ _ _ _ _ (rank-Ranked a.severity)
      (worst_of-Ranked found)

nothing_found : (found : List Advisory) → some_of found ≡ false → worst_of found ≡ 0
nothing_found [] h = refl
nothing_found (a ∷ found) h = cc

-- A package without advisories counts for nothing, so that it can be left out.
worst_rank-kept :
    (r : PackageReport) (rs : List PackageReport)
    → worst_rank (keep vulnerable (r ∷ rs))
      ≡ max (worst_of r.vulnerabilities) (worst_rank (keep vulnerable rs))
worst_rank-kept r rs = elim (Bool-cases (vulnerable r)) [
  | inl some_ ↦ rw some_ refl
  | inr none_ ↦ rw (none_, nothing_found r.vulnerabilities none_) (omega arith)
]

worst_rank-Ranked :
    (rs : List PackageReport)
    → Ranked
        (worst_rank (keep vulnerable rs))
        (found_some "critical" rs)
        (found_some "high" rs)
        (found_some "medium" rs)
worst_rank-Ranked [] = (omega arith, refl, refl, refl)
worst_rank-Ranked (r ∷ rs) =
    subst
      (λ n.
        Ranked n (found_some "critical" (r ∷ rs)) (found_some "high" (r ∷ rs))
          (found_some "medium" (r ∷ rs)))
      (sym (worst_rank-kept r rs))
      (max-Ranked (worst_of r.vulnerabilities) (worst_rank (keep vulnerable rs)) _ _ _ _ _ _
        (worst_of-Ranked r.vulnerabilities) (worst_rank-Ranked rs))

pub worst_severity-worst_found :
    (rs : List PackageReport) → worst_severity (keep vulnerable rs) ≡ worst_found rs
unfolding worst_severity
worst_severity-worst_found rs =
    let (most, critical, high, medium) = worst_rank-Ranked rs in
    ground (arith, most, critical, high, medium)
