-- ===== src/Detection/Consistency.antt =====
-- What the cache of backend/app/agents/detection.py and the table of incidents have in common: every entry
-- names an active row of its campaign, and a campaign has one active row at most.
pub mod Opened
use sentri_mesh_astra.Prelude.{
  ℕ, ◌≤◌, ◌≡◌, refl, sym, ap, ◌∙◌, subst, inl, inr, Bool, true, false, ◌&&◌, some, List, [], ◌∷◌,
  ◌++◌, arith, ◌==◌, Bool-cases, length, any, keep, first, length-keep-last, update_first,
}
use sentri_mesh_astra.Models.{Incident}
use sentri_mesh_astra.Json.{truthy}
use sentri_mesh_astra.System.{incident_is}
use sentri_mesh_astra.Detection.{
  Campaign, Sighting, Flow, campaign_eq, campaign_of, cached, continues, ongoing,
}
use sentri_mesh_astra.Detection.Belongs.{
  belongs, belongs_same, belongs_both, truthy_campaign, continues-belongs,
}

abbrev IsKnown : List Incident → Campaign → ℕ → Type 0
IsKnown is c k = (i : Incident) × (first (incident_is k) is ≡ some i) × (belongs c i ≡ true)

pub record IsConsistent (is : List Incident) (entries : List (Campaign × ℕ)) : Type 0 where
  pub distinct : (k : ℕ) → length (keep (incident_is k) is) ≤ 1
  pub known : (c : Campaign) (k : ℕ) → cached c entries ≡ some k → IsKnown is c k
  pub single : (c : Campaign) → length (keep (continues c) is) ≤ 1

first-append :
    {A : Type 0} (q : A → Bool) (xs : List A) (x a : A)
    → first q xs ≡ some a
    → first q (xs ++ x ∷ []) ≡ some a
first-append q [] x a e = cc
first-append q (y ∷ ys) x a e = ground (arith, first-append q ys x a)

-- Rows that change in place.
module _ {A : Type 0} (p : A → Bool) (f : A → A) where
  length-keep-update :
      (q : A → Bool) (xs : List A)
      → ((a : A) → first p xs ≡ some a → q (f a) ≡ q a)
      → length (keep q (update_first p f xs)) ≡ length (keep q xs)
  length-keep-update q [] same = refl
  length-keep-update q (x ∷ xs) same = elim (Bool-cases (p x)) [
    | inl here ↦ rw here (ground (arith, same x))
    | inr past ↦
        rw past (ground (arith, length-keep-update q xs (λ a e. same a (ground (arith, past, e)))))
  ]

  first-update :
      (q r : A → Bool) (xs : List A) (a : A)
      → ((b : A) → q (f b) ≡ q b)
      → ((b : A) → first p xs ≡ some b → r (f b) ≡ r b)
      → first q xs ≡ some a
      → (b : A) × (first q (update_first p f xs) ≡ some b) × (r b ≡ r a)
  first-update q r [] a same own e = cc
  first-update q r (x ∷ xs) a same own e = elim (Bool-cases (q x)) [
    | inl mine ↦ elim (Bool-cases (p x)) [
      | inl here ↦ (f x, ground (arith, here, mine, same x), ground (arith, here, mine, own x, e))
      | inr past ↦ (x, ground (arith, past, mine), ground (arith, mine, e))
    ]
    | inr other ↦ elim (Bool-cases (p x)) [
      | inl here ↦ (a, ground (arith, here, other, same x, e), refl)
      | inr past ↦
          let (b, there, kept) =
            first-update q r xs a same (λ c h. own c (ground (arith, past, h)))
              (ground (arith, other, e)) in
          (b, ground (arith, past, other, there), kept)
    ]
  ]

-- A row that changes in place and stays in its campaigns.
pub updated-IsConsistent :
    (k : ℕ) (f : Incident → Incident) (is : List Incident) (entries : List (Campaign × ℕ))
    → ((i : Incident) → (f i).id ≡ i.id)
    → ((c : Campaign) (i : Incident)
        → first (incident_is k) is ≡ some i
        → belongs c (f i) ≡ belongs c i)
    → IsConsistent is entries
    → IsConsistent (update_first (incident_is k) f is) entries
updated-IsConsistent k f is entries same stays h = record {
  distinct = λ j.
      rw
        (length-keep-update (incident_is k) f (incident_is j) is (λ i e. ap (λ n. n == j) (same i)))
        (h.distinct j);
  known = λ c j e.
      let (i, there, mine) = h.known c j e in
      let (i', there', kept) =
        first-update (incident_is k) f (incident_is j) (belongs c) is i
          (λ b. ap (λ n. n == j) (same b)) (stays c) there in
      (i', there', kept ∙ mine);
  single = λ c.
      rw
        (length-keep-update (incident_is k) f (continues c) is (λ i e.
          continues-belongs c (f i)
          ∙ (ap (λ b. b && truthy c.src_ip) (stays c i e) ∙ sym (continues-belongs c i))))
        (h.single c);
}

-- A row under a fresh id whose campaigns have no row yet.
pub added-IsConsistent :
    (i : Incident) (is : List Incident) (entries : List (Campaign × ℕ))
    → any (incident_is i.id) is ≡ false
    → ((c : Campaign) → continues c i ≡ true → any (continues c) is ≡ false)
    → IsConsistent is entries
    → IsConsistent (is ++ i ∷ []) entries
added-IsConsistent i is entries free unmet h = record {
  distinct = λ j.
      length-keep-last (incident_is j) is i (h.distinct j)
        (λ own. subst (λ n. any (incident_is n) is ≡ false) (ground (arith, own)) free);
  known = λ c j e.
      let (a, there, mine) = h.known c j e in (a, first-append (incident_is j) is i a there, mine);
  single = λ c. length-keep-last (continues c) is i (h.single c) (unmet c);
}

-- An entry for an active row of the campaign.
pub entered-IsConsistent :
    (c : Campaign) (k : ℕ) (i : Incident) (is : List Incident) (entries : List (Campaign × ℕ))
    → first (incident_is k) is ≡ some i
    → belongs c i ≡ true
    → IsConsistent is entries
    → IsConsistent is ((c, k) ∷ entries)
unfolding cached
entered-IsConsistent c k i is entries there mine h = record {
  distinct = h.distinct;
  single = h.single;
  known = λ d j e. elim (Bool-cases (campaign_eq c d)) [
    | inl same ↦ (
      i,
      subst (λ n. first (incident_is n) is ≡ some i) (ground (arith, e, same)) there,
      sym (belongs_same c d i same) ∙ mine,
    )
    | inr other ↦ h.known d j (ground (arith, other, e))
  ];
}
