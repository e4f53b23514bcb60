-- ===== src/Exposure/Deduplication.antt =====
-- That no vulnerability counts twice: backend/app/connectors/vuln_scanner.py.
use sentri_mesh_astra.Prelude.{
  ◌≤◌, String, ◌≡◌, refl, sym, ap, ◌∙◌, subst, inl, inr, Bool, true, false, ◌||◌, Option, none,
  some, List, [], ◌∷◌, ◌++◌, arith, str_eq, eq_iff, Bool-cases, length, any, keep, first,
  length-keep-last, append-nothing, append-last,
}
use sentri_mesh_astra.Bus.{Package}
use sentri_mesh_astra.Exposure.Advisories.{
  Advisory, key_of, has_this_key, with_new, deduped_onto, check_package, or_none,
}

-- What a deduplication of `all` onto `seen` has to be, for a key.
abbrev Deduplicates : String → List Advisory → List Advisory → List Advisory → Type 0
Deduplicates k seen rest result =
    (first (has_this_key k) result ≡ first (has_this_key k) (seen ++ rest))
    × (length (keep (has_this_key k) result) ≤ 1)

first-skip :
    {A : Type 0} (q : A → Bool) (xs ys : List A) (a : A)
    → q a ≡ false
    → first q (xs ++ a ∷ ys) ≡ first q (xs ++ ys)
first-skip q [] ys a h = rw h refl
first-skip q (x ∷ xs) ys a h = ground (arith, first-skip q xs ys a)

first-found :
    {A : Type 0} (q : A → Bool) (xs ys zs : List A)
    → any q xs ≡ true
    → first q (xs ++ ys) ≡ first q (xs ++ zs)
first-found q [] ys zs h = cc
first-found q (x ∷ xs) ys zs h = ground (arith, first-found q xs ys zs)

key_is : (k j : String) (a : Advisory) → key_of a ≡ some j → has_this_key k a ≡ str_eq j k
key_is k j a e = rw (e, has_this_key) refl

seen_key :
    (j : String) (seen : List Advisory)
    → str_eq j "" ≡ false
    → (str_eq j "" || any (has_this_key j) seen) ≡ true
    → any (has_this_key j) seen ≡ true
seen_key j seen real known = ground arith

unseen_key :
    (j : String) (seen : List Advisory)
    → (str_eq j "" || any (has_this_key j) seen) ≡ false
    → any (has_this_key j) seen ≡ false
unseen_key j seen new = ground arith

-- A finding is passed over if its key is empty or has been seen.
passed_over :
    (k j : String) (seen rest : List Advisory) (a : Advisory)
    → key_of a ≡ some j
    → str_eq k "" ≡ false
    → (str_eq j "" || any (has_this_key j) seen) ≡ true
    → first (has_this_key k) (seen ++ rest) ≡ first (has_this_key k) (seen ++ a ∷ rest)
passed_over k j seen rest a e real known = elim (Bool-cases (str_eq j k)) [
  | inl same ↦
      let equal : j ≡ k = (eq_iff j k).0 same in
      let there : any (has_this_key k) seen ≡ true =
        subst (λ x. any (has_this_key x) seen ≡ true) equal
          (seen_key j seen (rw equal real) known) in
      first-found (has_this_key k) seen rest (a ∷ rest) there
  | inr other ↦ sym (first-skip (has_this_key k) seen rest a (key_is k j a e ∙ other))
]

new_key :
    (k j : String) (seen : List Advisory) (a : Advisory)
    → key_of a ≡ some j
    → has_this_key k a ≡ true
    → (str_eq j "" || any (has_this_key j) seen) ≡ false
    → any (has_this_key k) seen ≡ false
new_key k j seen a e h new =
    let equal : j ≡ k = (eq_iff j k).0 (sym (key_is k j a e) ∙ h) in
    subst (λ x. any (has_this_key x) seen ≡ false) equal (unseen_key j seen new)

-- One turn of the loop keeps what is to be found under a key, and finds it once.
with_new_lem :
    (k : String) (seen rest : List Advisory) (a : Advisory) (o : Option String)
    → str_eq k "" ≡ false
    → length (keep (has_this_key k) seen) ≤ 1
    → key_of a ≡ o
    → (first (has_this_key k) (with_new o seen a ++ rest)
        ≡ first (has_this_key k) (seen ++ a ∷ rest))
      × (length (keep (has_this_key k) (with_new o seen a)) ≤ 1)
unfolding with_new
with_new_lem k seen rest a none real once e =
    (sym (first-skip (has_this_key k) seen rest a (rw (e, has_this_key) refl)), once)
with_new_lem k seen rest a (some j) real once e =
    elim (Bool-cases (str_eq j "" || any (has_this_key j) seen)) [
      | inl known ↦ rw known (passed_over k j seen rest a e real known, once)
      | inr new ↦ rw new (
        ap (first (has_this_key k)) (append-last seen rest a),
        length-keep-last (has_this_key k) seen a once (λ h. new_key k j seen a e h new),
      )
    ]

deduped_onto_lem :
    (k : String) (seen rest : List Advisory)
    → str_eq k "" ≡ false
    → length (keep (has_this_key k) seen) ≤ 1
    → Deduplicates k seen rest (deduped_onto seen rest)
unfolding deduped_onto
deduped_onto_lem k seen [] real once =
    (sym (ap (first (has_this_key k)) (append-nothing seen)), once)
deduped_onto_lem k seen (a ∷ rest) real once =
    let turn = with_new_lem k seen rest a (key_of a) real once refl in
    let result = deduped_onto_lem k (with_new (key_of a) seen a) rest real turn.1 in
    (result.0 ∙ turn.0, result.1)

-- For every key that a finding can have, its cve_id or else its id, the first finding of the two sources
-- with it is in the report, with whatever that source says of it, and no second one.
pub check_package-deduplicates :
    (k : String) (p : Package) (osv_result github_result : Option (List Advisory))
    → str_eq k "" ≡ false
    → let found = (check_package p osv_result github_result).vulnerabilities in
      (first (has_this_key k) found
        ≡ first (has_this_key k) (or_none osv_result ++ or_none github_result))
      × (length (keep (has_this_key k) found) ≤ 1)
unfolding check_package
check_package-deduplicates k p osv_result github_result real =
    deduped_onto_lem k [] (or_none osv_result ++ or_none github_result) real (omega arith)
