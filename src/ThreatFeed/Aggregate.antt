-- ===== src/ThreatFeed/Aggregate.antt =====
-- How far the verdict on an address rests on the sources: backend/app/connectors/threat_feed.py.
use sentri_mesh_astra.Prelude.{
  ℕ, max, String, ◌≡◌, refl, sym, ap, ◌∙◌, inl, inr, Bool, true, false, not, ◌&&◌, ◌||◌, Option,
  none, some, List, [], ◌∷◌, ◌++◌, arith, str_eq, eq_iff, ◌==◌, if◌then◌else◌, Bool-cases, any,
  keep, All, any-append,
}
use sentri_mesh_astra.Json.{
  Fields, obj, num, negative, bool, null, Value, get, text, truthy, get_or, arr, list_elements,
}
use sentri_mesh_astra.ThreatFeed.Bodies.{Reading, returns, caught, raises, and_read}
use sentri_mesh_astra.ThreatFeed.Sources.{
  judged_body, ports_result, Response, SourceResult, shodan, on_success, or_no_data,
}
use sentri_mesh_astra.ThreatFeed.{
  has_raised, ask, lookup_with, PerSource, reachable, says, overall, combined, aggregate,
  source_lookups, lookup_ip,
}

-- The verdicts by how much they say against an address.
abbrev pub verdict_rank : String → ℕ
verdict_rank v =
    if str_eq v "malicious"
    then 3
    else if str_eq v "suspicious"
    then 2
    else if str_eq v "clean"
    then 1
    else 0

abbrev ranked : Bool → Bool → Bool → ℕ
ranked m s c = if m then 3 else if s then 2 else if c then 1 else 0

rank-overall :
    (rs : List (String × SourceResult))
    → verdict_rank (overall rs)
      ≡ ranked (says "malicious" rs) (says "suspicious" rs) (says "clean" rs)
unfolding overall
rank-overall rs = elim (Bool-cases (says "malicious" rs)) [
  | inl m ↦ rw m refl
  | inr m ↦ elim (Bool-cases (says "suspicious" rs)) [
    | inl u ↦ rw (m, u) refl
    | inr u ↦ elim (Bool-cases (says "clean" rs)) [
      | inl c ↦ rw (m, u, c) refl
      | inr c ↦ rw (m, u, c) refl
    ]
  ]
]

ranked-or :
    (m n s t c d : Bool) → ranked (m || n) (s || t) (c || d) ≡ max (ranked m s c) (ranked n t d)
ranked-or m n s t c d = ground arith

-- The verdict of several sources is the worst of their verdicts: the verdict of two groups of answers
-- together ranks as high as the higher of the verdicts of each, so that neither their order nor a
-- source more can make an address look better.
pub overall-append :
    (rs ss : List (String × SourceResult))
    → verdict_rank (overall (rs ++ ss))
      ≡ max (verdict_rank (overall rs)) (verdict_rank (overall ss))
overall-append rs ss =
    rw
      (
        rank-overall (rs ++ ss),
        rank-overall rs,
        rank-overall ss,
        any-append (λ r. str_eq r.1.verdict "malicious") rs ss,
        any-append (λ r. str_eq r.1.verdict "suspicious") rs ss,
        any-append (λ r. str_eq r.1.verdict "clean") rs ss,
      )
      (ranked-or (says "malicious" rs) (says "malicious" ss) (says "suspicious" rs)
        (says "suspicious" ss) (says "clean" rs) (says "clean" ss))

-- A source has answered, and that the address is malicious.
abbrev pub accuses : Reading SourceResult → Bool
accuses (returns r) = str_eq r.verdict "malicious"
accuses _ = false

ports_mild :
    (str : Value → String) (ports vulns : Value) (read_ports read_vulns : Reading (List Value))
    → accuses (
        and_read read_ports (λ open_ports.
          and_read read_vulns
            (λ known. returns (ports_result str (λ s. none) ports vulns open_ports known))))
      ≡ false
ports_mild str ports vulns (returns ps) (returns vs) = elim (Bool-cases (truthy vulns)) [
  | inl vulnerable ↦ rw vulnerable refl
  | inr safe ↦ rw safe refl
]
ports_mild str ports vulns (returns ps) caught = refl
ports_mild str ports vulns (returns ps) raises = refl
ports_mild str ports vulns caught read_vulns = refl
ports_mild str ports vulns raises read_vulns = refl

module _ (str : Value → String) (parse_int : String → Option Value) where
  body_mild : (body : Option Value) → accuses (judged_body (shodan str parse_int) body) ≡ false
  unfolding shodan
  body_mild none = refl
  body_mild (some (obj d)) =
      ports_mild str (get_or "ports" (arr (list_elements [])) d)
        (get_or "vulns" (arr (list_elements [])) d) _ _
  body_mild (some (arr es)) = refl
  body_mild (some (text s)) = refl
  body_mild (some (num n)) = refl
  body_mild (some (negative n)) = refl
  body_mild (some (bool b)) = refl
  body_mild (some null) = refl

  shodan_mild :
      (detail : String) (answer : Response)
      → accuses (or_no_data detail (shodan str parse_int) answer) ≡ false
  unfolding or_no_data on_success
  shodan_mild detail none = refl
  shodan_mild detail (some (status, body)) = elim (Bool-cases (status == 404)) [
    | inl gone ↦ rw gone refl
    | inr there ↦ elim (Bool-cases (status == 200)) [
      | inl fine ↦ rw (there, fine) (body_mild body)
      | inr failed ↦ rw (there, failed) refl
    ]
  ]

any-sub :
    {A : Type 0} (p q : A → Bool) (xs : List A)
    → All (λ x. p x ≡ true → q x ≡ true) xs
    → any p xs ≡ true
    → any q xs ≡ true
any-sub p q [] sub h = h
any-sub p q (x ∷ xs) sub h = elim (Bool-cases (p x)) [
  | inl here ↦ ground (arith, sub.0)
  | inr further ↦ ground (arith, any-sub p q xs sub.1)
]

accused :
    (c : String → Bool) (ps : PerSource)
    → says "malicious" (reachable (keep (λ s. c s.0) ps)) ≡ true
    → any (λ s. c s.0 && accuses s.1) ps ≡ true
accused c [] h = h
accused c ((name, returns r) ∷ ps) h = ground (arith, accused c ps)
accused c ((name, caught) ∷ ps) h = ground (arith, accused c ps)
accused c ((name, raises) ∷ ps) h = ground (arith, accused c ps)

abbrev accuser : (String → Bool) → String × Reading SourceResult → Bool
accuser configured s = configured s.0 && (not (str_eq s.0 "shodan") && accuses s.1)

text_malicious : (s : String) → text s ≡ text "malicious" → str_eq s "malicious" ≡ true
text_malicious s h = ground (arith, eq_iff s "malicious")

picked :
    (m s c : Bool)
    → str_eq
        (if m then "malicious" else if s then "suspicious" else if c then "clean" else "unknown")
        "malicious"
      ≡ true
    → m ≡ true
picked true s c h = refl
picked false true c h = h
picked false false true h = h
picked false false false h = h

overall_malicious :
    (rs : List (String × SourceResult))
    → str_eq (overall rs) "malicious" ≡ true
    → says "malicious" rs ≡ true
unfolding overall
overall_malicious rs h = picked (says "malicious" rs) (says "suspicious" rs) (says "clean" rs) h

combined_malicious :
    (rs : List (String × SourceResult))
    → get "verdict" (combined rs) ≡ text "malicious"
    → says "malicious" rs ≡ true
unfolding combined get
combined_malicious [] h = let impossible : false ≡ true = text_malicious "unknown" h in cc
combined_malicious (r ∷ rs) h = overall_malicious (r ∷ rs) (text_malicious (overall (r ∷ rs)) h)

some_inner : {A : Type 0} (a b : A) → some a ≡ some b → a ≡ b
some_inner a b e = ap (λ o. elim o [ none ↦ a | some x ↦ x ]) e

module _ (str : Value → String) (parse_int : String → Option Value) where
  asked_malicious :
      (asked : PerSource) (d : Fields)
      → ask str parse_int asked ≡ some d
      → get "verdict" d ≡ text "malicious"
      → says "malicious" (reachable asked) ≡ true
  unfolding ask aggregate get
  asked_malicious [] d e h =
      let impossible : false ≡ true =
        text_malicious "unknown" (ap (get "verdict") (some_inner _ d e) ∙ h) in
      cc
  asked_malicious (s ∷ asked) d e h = elim (Bool-cases (any (λ r. has_raised r.1) (s ∷ asked))) [
    | inl raised ↦ absurd (ground (arith, e, raised))
    | inr fine ↦ combined_malicious (reachable (s ∷ asked)) (
        ap (get "verdict")
          (some_inner (combined (reachable (s ∷ asked))) d (sym (rw fine refl) ∙ e))
        ∙ h)
  ]

  kinds :
      (configured : String → Bool) (answer : String → Response) (o : Option Bool) (d : Fields)
      → lookup_with str parse_int configured answer o ≡ some d
      → get "verdict" d ≡ text "malicious"
      → (o ≡ some false)
        × (says "malicious"
              (reachable (keep (λ s. configured s.0) (source_lookups str parse_int answer)))
            ≡ true)
  unfolding lookup_with get
  kinds configured answer none d e h =
      let impossible : false ≡ true =
        text_malicious "unknown" (ap (get "verdict") (some_inner _ d e) ∙ h) in
      cc
  kinds configured answer (some true) d e h =
      let impossible : false ≡ true =
        text_malicious "clean" (ap (get "verdict") (some_inner _ d e) ∙ h) in
      cc
  kinds configured answer (some false) d e h = (
    refl,
    asked_malicious (keep (λ s. configured s.0) (source_lookups str parse_int answer)) d e h,
  )

-- An address is called malicious only if it is a valid one outside the internal networks and a source
-- other than Shodan, for which there is a key, has answered that it is malicious.
pub lookup_ip-malicious :
    (str : Value → String) (parse_int : String → Option Value) (internal : String → Option Bool)
    (configured : String → Bool) (answer : String → Response) (ip : String) (d : Fields)
    → lookup_ip str parse_int internal configured answer ip ≡ some d
    → get "verdict" d ≡ text "malicious"
    → (internal ip ≡ some false)
      × (any
            (λ s. configured s.0 && (not (str_eq s.0 "shodan") && accuses s.1))
            (source_lookups str parse_int answer)
          ≡ true)
unfolding lookup_ip
lookup_ip-malicious str parse_int internal configured answer ip d e h =
    let (valid, said) = kinds str parse_int configured answer (internal ip) d e h in
    let mild : accuses
          (or_no_data "Shodan has no data for this IP" (shodan str parse_int) (answer "shodan"))
        ≡ false =
      shodan_mild str parse_int "Shodan has no data for this IP" (answer "shodan") in
    (
      valid,
      any-sub (λ s. configured s.0 && accuses s.1) (accuser configured)
          (source_lookups str parse_int answer)
          (λ e. e, (λ e. e, (λ e. e, (λ e. e, (λ e. ground arith, (λ e. e, tt))))))
          (accused configured (source_lookups str parse_int answer) said),
    )
