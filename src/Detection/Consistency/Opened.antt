-- ===== src/Detection/Consistency/Opened.antt =====
-- `_open_incident` of backend/app/agents/detection.py keeps the cache and the table consistent.
use sentri_mesh_astra.Prelude.{
  ℕ, ◌≤◌, ◌≡◌, refl, ◌∙◌, subst, ◌⊎◌, inl, inr, Bool, true, false, not, Option, none, some, List,
  [], ◌∷◌, ◌++◌, arith, ==_self, Bool-cases, length, any, keep, first, first-passes, first-last,
  gets, ◌>>=◌, raise_if_keeps, exception,
}
use sentri_mesh_astra.Detection.{
  continues, cached, Flow, Campaign, Sighting, ongoing, context_of, folded, campaign_eq,
  open_incident, settle, is_hashable, incident_of, campaign_of, start,
}
use sentri_mesh_astra.Json.{get, has_key, obj, no_fields, get_or}
use sentri_mesh_astra.Models.{Incident, is_active_status}
use sentri_mesh_astra.System.{incident_is}
use sentri_mesh_astra.Detection.Continues.{get_or-put, campaign_eq_self}
use sentri_mesh_astra.Detection.Belongs.{
  belongs, belongs_same, belongs_both, belongs_stamped, continues-belongs, truthy_campaign,
}
use sentri_mesh_astra.Detection.Consistency.{
  IsConsistent, updated-IsConsistent, added-IsConsistent, entered-IsConsistent,
}

module _ {A : Type 0} where
  first-none : (p : A → Bool) (xs : List A) → first p xs ≡ none → any p xs ≡ false
  first-none p [] e = refl
  first-none p (x ∷ xs) e = ground (arith, first-none p xs, e)

  keeps_some :
      (p q : A → Bool) (xs : List A) (a : A)
      → first p xs ≡ some a
      → q a ≡ true
      → 1 ≤ length (keep q xs)
  keeps_some p q [] a e h = cc
  keeps_some p q (x ∷ xs) a e h = ground (arith, keeps_some p q xs a)

  -- The only row with a key is the first one with it.
  first_only :
      (p q : A → Bool) (xs : List A) (a : A)
      → first p xs ≡ some a
      → q a ≡ true
      → length (keep q xs) ≤ 1
      → first q xs ≡ some a
  first_only p q [] a e h le = cc
  first_only p q (x ∷ xs) a e h le = elim (Bool-cases (p x)) [
    | inl here ↦ ground (arith, here, e, h)
    | inr past ↦ ground (arith, past, keeps_some p q xs a, first_only p q xs a, e, h, le)
  ]

abbrev pub Consistent : Flow → Type 0
Consistent s = IsConsistent s.incidents s.active_incidents

-- What `ongoing` says of a campaign: it has no row, or the row it has.
abbrev Found : Campaign → Flow → Type 0
Found c s =
    ((ongoing c s ≡ none) × (any (continues c) s.incidents ≡ false))
    ⊎ ((i : Incident) × (ongoing c s ≡ some i)
        × (first (incident_is i.id) s.incidents ≡ some i)
        × (belongs c i ≡ true))

belongs_active :
    (c : Campaign) (i : Incident) → belongs c i ≡ true → is_active_status i.status ≡ true
unfolding belongs
belongs_active c i h = ground arith

belongs_tenant : (c : Campaign) (i : Incident) → belongs c i ≡ true → i.tenant_id ≡ c.tenant_id
unfolding belongs
belongs_tenant c i h = ground arith

by_database :
    (c : Campaign) (s : Flow) (found : Option Incident)
    → Consistent s
    → first (continues c) s.incidents ≡ found
    → cached c s.active_incidents ≡ none
    → Found c s
unfolding ongoing
by_database c s none h e miss = inl (rw (miss, ongoing) e, first-none (continues c) s.incidents e)
by_database c s (some i) h e miss = inr (
  i,
  rw (miss, ongoing) e,
  first_only (continues c) (incident_is i.id) s.incidents i e (ground arith) (h.distinct i.id),
  ground (arith, continues-belongs c i, first-passes (continues c) s.incidents i e),
)

by_cache :
    (c : Campaign) (s : Flow) (entry : Option ℕ)
    → Consistent s
    → cached c s.active_incidents ≡ entry
    → Found c s
unfolding ongoing
by_cache c s none h e = by_database c s (first (continues c) s.incidents) h refl e
by_cache c s (some k) h e =
    let (i, there, mine) = h.known c k e in
    let own : incident_is k i ≡ true = first-passes (incident_is k) s.incidents i there in
    inr (i, rw (e, there, ongoing) refl, ground (arith, there, own), mine)

-- Equal keys lack a row together.
unmet_same :
    (c d : Campaign) (is : List Incident)
    → campaign_eq c d ≡ true
    → any (continues c) is ≡ false
    → any (continues d) is ≡ false
unmet_same c d [] same unmet = refl
unmet_same c d (i ∷ is) same unmet = ground (
  arith,
  unmet_same c d is,
  continues-belongs c i,
  continues-belongs d i,
  belongs_same c d i same,
  truthy_campaign c d same,
)

module _ (w : Sighting) (now : ℕ) where
  belongs-incident_of :
      (id : ℕ) (c : Campaign) → belongs c (incident_of w id now) ≡ campaign_eq (campaign_of w) c
  unfolding incident_of get_or has_key get
  belongs-incident_of id c = belongs_stamped w (incident_of w id now) c refl refl refl

  fresh_campaign :
      (id : ℕ) (c : Campaign)
      → continues c (incident_of w id now) ≡ true
      → campaign_eq (campaign_of w) c ≡ true
  fresh_campaign id c h =
      ground (arith, belongs-incident_of id c, continues-belongs c (incident_of w id now), h)

  start-Consistent :
      (id : ℕ) (s : Flow)
      → Consistent s
      → any (continues (campaign_of w)) s.incidents ≡ false
      → is_hashable (campaign_of w).src_ip ≡ true
      → Consistent (start w id now s).1
  unfolding start incident_of
  start-Consistent id s h unmet hashable = elim (Bool-cases (any (incident_is id) s.incidents)) [
    | inl taken ↦ rw taken h
    | inr free ↦ rw free (
        entered-IsConsistent (campaign_of w) id (incident_of w id now)
          (s.incidents ++ incident_of w id now ∷ []) s.active_incidents
          (first-last (incident_is id) s.incidents (incident_of w id now) free (==_self id))
          (belongs-incident_of id (campaign_of w) ∙ campaign_eq_self w hashable)
          (added-IsConsistent (incident_of w id now) s.incidents s.active_incidents free
            (λ c mine. unmet_same (campaign_of w) c s.incidents (fresh_campaign id c mine) unmet)
            h))
  ]

  belongs-folded :
      (c : Campaign) (i : Incident)
      → belongs (campaign_of w) i ≡ true
      → belongs c (folded w now i) ≡ belongs c i
  unfolding folded
  belongs-folded c i mine =
      let stamped : belongs c (folded w now i) ≡ campaign_eq (campaign_of w) c =
        belongs_stamped w (folded w now i) c (belongs_tenant (campaign_of w) i mine)
          (belongs_active (campaign_of w) i mine)
          (get_or-put "context" (context_of w) (obj no_fields) i.enrichment refl) in
      ground
        (arith, stamped, mine, belongs_same (campaign_of w) c i, belongs_both (campaign_of w) c i)

  settle-Consistent :
      (id : ℕ) (s : Flow)
      → Consistent s
      → is_hashable (campaign_of w).src_ip ≡ true
      → Consistent (settle w id now (ongoing (campaign_of w) s) s).1
  unfolding settle folded
  settle-Consistent id s h hashable =
      elim (by_cache (campaign_of w) s (cached (campaign_of w) s.active_incidents) h refl) [
        | inl (nothing, unmet) ↦ rw nothing (start-Consistent id s h unmet hashable)
        | inr (i, found, there, mine) ↦
            rw (found, belongs_active (campaign_of w) i mine)
              (updated-IsConsistent i.id (folded w now) s.incidents s.active_incidents (λ j. refl)
                (λ c j e.
                  subst (λ x. belongs c (folded w now x) ≡ belongs c x) (same_row i j there e)
                    (belongs-folded c i mine))
                h)
      ]
    where
      same_row :
          (i j : Incident)
          → first (incident_is i.id) s.incidents ≡ some i
          → first (incident_is i.id) s.incidents ≡ some j
          → i ≡ j
      same_row i j e e' = cc

  pub open_incident-Consistent :
      (id : ℕ) (s : Flow) → Consistent s → Consistent (open_incident w id now s).1
  unfolding open_incident
  open_incident-Consistent id s h =
      raise_if_keeps Consistent (not (is_hashable (campaign_of w).src_ip)) exception
        (gets (ongoing (campaign_of w)) >>= λ found. settle w id now found) s h
        (λ passed. settle-Consistent id s h (ground (arith, passed)))
