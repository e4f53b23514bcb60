-- ===== src/Detection/Campaigns.antt =====
-- One incident for one campaign: the deduplication of backend/app/agents/detection.py, within a process
-- and across its restarts.
use sentri_mesh_astra.Prelude.{
  ℕ, ◌≡◌, refl, sym, subst, inl, inr, Bool, true, false, Option, none, some, List, [], ◌∷◌, ◌++◌,
  arith, Bool-cases, length, any, first, first-passes, first-last, update_first, any-update_first,
  length-update_first, ok,
}
use sentri_mesh_astra.Detection.Continues.{
  get_or-put, continues_tenant, campaign_eq_self, stamped-continues, continues_active,
}
use sentri_mesh_astra.Json.{get, get_or, has_key, truthy, obj, no_fields}
use sentri_mesh_astra.Models.{Incident, is_active_status}
use sentri_mesh_astra.Detection.{
  dict, Message, publish, start, incident_of, folded, incident_is, cached, Flow, settle, Campaign,
  ongoing, open_incident, Sighting, campaign_of, context_of, continues, is_hashable,
}

abbrev HasOngoing : Campaign → Flow → Type 0
HasOngoing c s = (i : Incident) × (ongoing c s ≡ some i) × (is_active_status i.status ≡ true)

first-any :
    {A : Type 0} (q : A → Bool) (xs : List A) → any q xs ≡ true → (a : A) × (first q xs ≡ some a)
first-any q [] h = cc
first-any q (x ∷ xs) h = elim (Bool-cases (q x)) [
  | inl here ↦ (x, rw here refl)
  | inr further ↦ rw further (first-any q xs (ground (arith, further)))
]

any-first :
    {A : Type 0} (q : A → Bool) (xs : List A) (a : A) → first q xs ≡ some a → any q xs ≡ true
any-first q [] a h = cc
any-first q (x ∷ xs) a h = ground (arith, any-first q xs a)

-- What the database check finds is ongoing where the cache says nothing.
found-HasOngoing :
    (c : Campaign) (s : Flow)
    → cached c s.active_incidents ≡ none
    → any (continues c) s.incidents ≡ true
    → HasOngoing c s
unfolding ongoing
found-HasOngoing c s miss h =
    let (i, e) = first-any (continues c) s.incidents h in
    (i, rw (miss, ongoing) e, continues_active c i (first-passes (continues c) s.incidents i e))

cached-ongoing :
    (c : Campaign) (s : Flow) (k : ℕ) (i : Incident)
    → cached c s.active_incidents ≡ some k
    → first (incident_is k) s.incidents ≡ some i
    → ongoing c s ≡ some i
unfolding ongoing
cached-ongoing c s k i hit found = rw (hit, found, ongoing) refl

-- A sighting of an ongoing campaign adds no row and publishes nothing.
ongoing_folds :
    (w : Sighting) (id now : ℕ) (s : Flow)
    → is_hashable (campaign_of w).src_ip ≡ true
    → HasOngoing (campaign_of w) s
    → ((open_incident w id now s).0 ≡ ok tt)
      × (length (open_incident w id now s).1.incidents ≡ length s.incidents)
      × ((open_incident w id now s).1.bus ≡ s.bus)
unfolding open_incident settle
ongoing_folds w id now s hashable (i, found, active) =
    rw (hashable, found, active)
      (refl, length-update_first (incident_is i.id) (folded w now) s.incidents, refl)

-- The sighting has a source address in its context.
abbrev pub HasSource : Sighting → Type 0
HasSource w =
    (has_key "src_ip" w.context ≡ true)
    × (is_hashable (campaign_of w).src_ip ≡ true)
    × (truthy (campaign_of w).src_ip ≡ true)

folded-continues :
    (w : Sighting) (now : ℕ) (i : Incident)
    → HasSource w
    → continues (campaign_of w) i ≡ true
    → continues (campaign_of w) (folded w now i) ≡ true
unfolding folded
folded-continues w now i (has, hashable, real) h =
    stamped-continues w (folded w now i) (continues_tenant (campaign_of w) i h)
      (continues_active (campaign_of w) i h)
      (get_or-put "context" (context_of w) (obj no_fields) i.enrichment refl) has hashable real

incident_of-continues :
    (w : Sighting) (id now : ℕ)
    → HasSource w
    → continues (campaign_of w) (incident_of w id now) ≡ true
unfolding incident_of get_or has_key get
incident_of-continues w id now (has, hashable, real) =
    stamped-continues w (incident_of w id now) refl refl refl has hashable real

-- What the process knows after a restart: nothing, or what it knew before.
abbrev pub restarted : Bool → Flow → Flow
restarted true s = record s { active_incidents = [] }
restarted false s = s

any-last :
    {A : Type 0} (q : A → Bool) (xs : List A) (x : A) → q x ≡ true → any q (xs ++ x ∷ []) ≡ true
any-last q [] x h = ground arith
any-last q (y ∷ ys) x h = ground (arith, any-last q ys x)

module _ (w : Sighting) (id now : ℕ) (source : HasSource w) where
  after_fold :
      (again : Bool) (i : Incident) (s : Flow)
      → cached (campaign_of w) s.active_incidents ≡ none
      → first (continues (campaign_of w)) s.incidents ≡ some i
      → any (continues (campaign_of w)) (update_first (incident_is i.id) (folded w now) s.incidents)
        ≡ true
      → HasOngoing (campaign_of w) (
          restarted again
            (record s { incidents = update_first (incident_is i.id) (folded w now) s.incidents }))
  unfolding cached
  after_fold true i s miss found there =
      found-HasOngoing (campaign_of w)
        (record s {
          incidents = update_first (incident_is i.id) (folded w now) s.incidents;
          active_incidents = [];
        })
        refl there
  after_fold false i s miss found there =
      found-HasOngoing (campaign_of w)
        (record s { incidents = update_first (incident_is i.id) (folded w now) s.incidents }) miss
        there

  started : Flow → Flow
  started s = record s {
    incidents = s.incidents ++ incident_of w id now ∷ [];
    active_incidents = (campaign_of w, id) ∷ s.active_incidents;
    bus =
        publish "detection" (some w.tenant_id)
          (Message.incident_new w.tenant_id id (dict (context_of w))) now s.bus;
  }

  after_start :
      (again : Bool) (s : Flow)
      → any (incident_is id) s.incidents ≡ false
      → HasOngoing (campaign_of w) (restarted again (started s))
  unfolding started cached incident_of
  after_start true s free =
      found-HasOngoing (campaign_of w) (record (started s) { active_incidents = [] }) refl
        (any-last (continues (campaign_of w)) s.incidents (incident_of w id now)
          (incident_of-continues w id now source))
  after_start false s free = (
    incident_of w id now,
    cached-ongoing (campaign_of w) (started s) id (incident_of w id now)
        (rw (campaign_eq_self w source.1) refl)
        (first-last (incident_is id) s.incidents (incident_of w id now) free (ground arith)),
    refl,
  )

  reported_with :
      (again : Bool) (s : Flow) (found : Option Incident)
      → cached (campaign_of w) s.active_incidents ≡ none
      → any (incident_is id) s.incidents ≡ false
      → first (continues (campaign_of w)) s.incidents ≡ found
      → HasOngoing (campaign_of w) (restarted again (settle w id now found s).1)
  unfolding settle start started
  reported_with again s none miss free e = rw free (after_start again s free)
  reported_with again s (some i) miss free e =
      let here = first-passes (continues (campaign_of w)) s.incidents i e in
      rw (continues_active (campaign_of w) i here) (
        after_fold again i s miss e (
          any-update_first (continues (campaign_of w)) (incident_is i.id) (folded w now) s.incidents
            (λ a f h. folded-continues w now a source h)
            (any-first (continues (campaign_of w)) s.incidents i e)))

  reported :
      (again : Bool) (s : Flow)
      → cached (campaign_of w) s.active_incidents ≡ none
      → any (incident_is id) s.incidents ≡ false
      → HasOngoing (campaign_of w) (restarted again (open_incident w id now s).1)
  unfolding open_incident ongoing cached
  reported again s miss free =
      rw (source.1, miss)
        (reported_with again s (first (continues (campaign_of w)) s.incidents) miss free refl)

-- When a campaign that this process has not met yet has been reported, whether a row was opened for it
-- or a row in the database continued, then a later report of the same campaign, by any event and with
-- any title, adds no row and publishes nothing, also if the process has been restarted in between.
pub open_incident_once :
    (w v : Sighting) (id id' now later : ℕ) (again : Bool) (s : Flow)
    → HasSource w
    → campaign_of v ≡ campaign_of w
    → cached (campaign_of w) s.active_incidents ≡ none
    → any (incident_is id) s.incidents ≡ false
    → let s' = restarted again (open_incident w id now s).1 in
      ((open_incident v id' later s').0 ≡ ok tt)
      × (length (open_incident v id' later s').1.incidents ≡ length s'.incidents)
      × ((open_incident v id' later s').1.bus ≡ s'.bus)
open_incident_once w v id id' now later again s source same miss free =
    ongoing_folds v id' later (restarted again (open_incident w id now s).1)
      (subst (λ c. is_hashable c.src_ip ≡ true) (sym same) source.1)
      (subst (λ c. HasOngoing c (restarted again (open_incident w id now s).1)) (sym same)
        (reported w id now source again s miss free))
