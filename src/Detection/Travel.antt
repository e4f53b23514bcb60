-- ===== src/Detection/Travel.antt =====
-- Impossible travel: two sign-ins of one user, as backend/app/agents/detection.py compares them by the
-- last-value store of backend/app/state_store.py and by backend/app/geo.py.
use sentri_mesh_astra.Detection.LastValue.{
  cannot_look_up, get_last_value, implausible_distance, set_last_value,
}
use sentri_mesh_astra.Prelude.{
  ℕ, ◌+◌, ◌-◌, ◌*◌, ◌≤◌, ◌<◌, String, ◌≡◌, refl, sym, subst, ◌≢◌, ◌⊎◌, inl, inr, Bool, true, false,
  ◌&&◌, Option, none, some, arith, eq_iff, eq_refl, ltb, if◌then◌else◌, ==_self, Bool-cases, pure,
  and_then, ◌>>◌, >>=_keeps, Result, ok, err,
}
use sentri_mesh_astra.Models.{Key}
use sentri_mesh_astra.Detection.{Act, get, open_incident, Fields, Place, LastSeen, Flow}
use sentri_mesh_astra.Json.{Value}
use sentri_mesh_astra.Detection.Geo.{Degrees, distance_km}
use sentri_mesh_astra.Detection.Events.{
  place_of, compare_locations, travel_sighting, resolve_country, check_impossible_travel, Outside,
}

-- Two different countries of the table, less than a day apart in time, and so far apart that no more than
-- 1000 km/h would not do.
abbrev pub IsTooFast : (Degrees → Degrees → Degrees → Degrees → ℕ) → Place → Place → ℕ → ℕ → Type 0
IsTooFast haversine_km from to elapsed km =
    (from.name ≢ to.name)
    × (0 < elapsed)
    × (elapsed < 86400)
    × (distance_km haversine_km from.name to.name ≡ some km)
    × (1000 * elapsed < 3600 * km)
    × ((from.hashable && to.hashable) ≡ true)

module _ (d : String → String → Option ℕ) (a b : String) (elapsed : ℕ) where
  implausible_found :
      (km : ℕ)
      → implausible_distance d a b elapsed ≡ some km
      → (a ≢ b) × (0 < elapsed) × (d a b ≡ some km) × (1000 * elapsed < 3600 * km)
  unfolding implausible_distance
  implausible_found km h = (
    λ same. ground (arith, eq_iff a b, h, same),
    ground (arith, h),
    ground (arith, h),
    ground (arith, h),
  )

  plausible_found :
      (km : ℕ)
      → implausible_distance d a b elapsed ≡ none
      → a ≢ b
      → 0 < elapsed
      → d a b ≡ some km
      → 3600 * km ≤ 1000 * elapsed
  unfolding implausible_distance
  plausible_found km h differ later there = ground (arith, eq_iff a b, h, differ)

able_hashable :
    (a b : Place) (elapsed : ℕ)
    → a.name ≢ b.name
    → 0 < elapsed
    → cannot_look_up a b elapsed ≡ false
    → (a.hashable && b.hashable) ≡ true
able_hashable a b elapsed differ later able = ground (arith, eq_iff a.name b.name, differ, able)

unable_hashable :
    (a b : Place) (elapsed : ℕ)
    → cannot_look_up a b elapsed ≡ true
    → (a.hashable && b.hashable) ≡ false
unable_hashable a b elapsed raised = ground (arith, raised)

module _ (outside : Outside) (tenant_id : ℕ) (user : Value) where
  abbrev place : Key
  place = Key.last_login_location tenant_id (outside.str user)

  abbrev pub seen_at : Value → ℕ → LastSeen
  seen_at country now = record {
    country = place_of outside country;
    timestamp = now;
    expires_at = now + 86400;
  }

  set-stored :
      (country : Value) (now : ℕ) (out : Result (Unit {0}) × Flow)
      → (and_then (λ _. set_last_value place (place_of outside country) now) out).0 ≡ ok tt
      → (and_then (λ _. set_last_value place (place_of outside country) now) out).1.last_seen place
        ≡ some (seen_at country now)
  unfolding set_last_value
  set-stored country now (ok a, u) e = ground (arith, eq_refl (outside.str user), ==_self tenant_id)
  set-stored country now (err x, u) e = absurd (ground (arith, e))

  -- The comparison and the assignment of a check whose country is known.
  abbrev compared : Fields → ℕ → ℕ → Value → ℕ → Act Unit
  compared normalized event_id id country now s =
      (compare_locations outside tenant_id user (get "src_ip" normalized) event_id
            (place_of outside country) id now (get_last_value place now s)
          >> set_last_value place (place_of outside country) now)
        s

  check-compared :
      (normalized : Fields) (event_id id now : ℕ) (s : Flow) (country : Value)
      → resolve_country outside normalized ≡ some country
      → check_impossible_travel outside tenant_id user normalized event_id id now s
        ≡ compared normalized event_id id country now s
  unfolding check_impossible_travel
  check-compared normalized event_id id now s country at = rw (at, check_impossible_travel) refl

  -- A check that returns has stored where and when the user signed in.
  check-stored :
      (normalized : Fields) (event_id id now : ℕ) (s : Flow) (country : Value)
      → resolve_country outside normalized ≡ some country
      → (check_impossible_travel outside tenant_id user normalized event_id id now s).0 ≡ ok tt
      → (check_impossible_travel outside tenant_id user normalized event_id id now s).1.last_seen
          place
        ≡ some (seen_at country now)
  check-stored normalized event_id id now s country at =
      subst (λ out. out.0 ≡ ok tt → out.1.last_seen place ≡ some (seen_at country now))
        (sym (check-compared normalized event_id id now s country at)) (set-stored country now _)

  abbrev SameTables : Flow → Flow → Type 0
  SameTables after s = (after.incidents ≡ s.incidents) × (after.bus ≡ s.bus)

  -- The tables after a later check: those after an incident has been reported, or those before it.
  abbrev pub IsJudged : Value → ℕ → Value → Fields → ℕ → ℕ → ℕ → Flow → Flow → Type 0
  IsJudged from now to normalized event_id id later s after =
      ((km : ℕ) × IsTooFast outside.haversine_km (place_of outside from) (place_of outside to)
          (later - now) km
        × SameTables after
            (open_incident
              (travel_sighting outside tenant_id user (get "src_ip" normalized) event_id
                (seen_at from now) (place_of outside to) km later)
              id later s).1)
      ⊎ (((km : ℕ)
            → ¬ IsTooFast outside.haversine_km (place_of outside from) (place_of outside to)
                (later - now) km)
          × SameTables after s)

  module _ (from to : Value) (normalized : Fields) (event_id id now later : ℕ) (s : Flow) where
    abbrev Judged : Flow → Type 0
    Judged after = IsJudged from now to normalized event_id id later s after

    -- The comparison of the two countries within a day.
    distance-Judged :
        (far : Option ℕ)
        → implausible_distance
            (distance_km outside.haversine_km)
            (outside.str from)
            (outside.str to)
            (later - now)
          ≡ far
        → ltb later (now + 86400) ≡ true
        → cannot_look_up (place_of outside from) (place_of outside to) (later - now) ≡ false
        → Judged
            ((elim far as (λ x. Act Unit) [
              | none ↦ pure tt
              | some km ↦
                  open_incident
                    (travel_sighting outside tenant_id user
                      (get "src_ip" normalized)
                      event_id
                      (seen_at from now)
                      (place_of outside to)
                      km
                      later)
                    id
                    later
            ])
              s).1
    distance-Judged none e soon able = inr (
      (λ km fast. absurd (
          omega (
            arith,
            plausible_found (distance_km outside.haversine_km) (outside.str from) (outside.str to)
                (later - now) km e fast.0 fast.1 fast.3,
            fast.4,
          ))),
      (refl, refl),
    )
    distance-Judged (some km) e soon able =
        let (differ, positive, there, far) =
          implausible_found (distance_km outside.haversine_km) (outside.str from) (outside.str to)
            (later - now) km e in
        inl (
          km,
          (
            differ,
            positive,
            ground (arith, soon),
            there,
            far,
            able_hashable (place_of outside from) (place_of outside to) (later - now) differ
                positive able,
          ),
          (refl, refl),
        )

    compare-Judged :
        (soon : Bool)
        → ltb later (now + 86400) ≡ soon
        → Judged
            (compare_locations outside tenant_id user
              (get "src_ip" normalized)
              event_id
              (place_of outside to)
              id
              later
              (if soon then some (seen_at from now) else none)
              s).1
    unfolding compare_locations
    compare-Judged false e = inr ((λ km fast. absurd (ground (arith, e, fast.2))), (refl, refl))
    compare-Judged true e =
        elim (Bool-cases
          (cannot_look_up (place_of outside from) (place_of outside to) (later - now))) [
            | inl raised ↦ rw raised (
                inr (
                  (λ km fast. absurd (
                      ground (
                        arith,
                        unable_hashable (place_of outside from) (place_of outside to) (later - now)
                            raised,
                        fast.5,
                      ))),
                  (refl, refl),
                ))
            | inr able ↦ rw able (distance-Judged _ refl e able)
          ]

    then_set :
        (last : Option LastSeen)
        → Judged
            (compare_locations outside tenant_id user
              (get "src_ip" normalized)
              event_id
              (place_of outside to)
              id
              later
              last
              s).1
        → Judged
            ((compare_locations outside tenant_id user
                  (get "src_ip" normalized)
                  event_id
                  (place_of outside to)
                  id
                  later
                  last
                >> set_last_value place (place_of outside to) later)
              s).1
    unfolding set_last_value
    then_set last h =
        >>=_keeps Judged
          (compare_locations outside tenant_id user (get "src_ip" normalized) event_id
            (place_of outside to) id later last)
          (λ _. set_last_value place (place_of outside to) later) s h (λ a e kept. kept)

    second-Judged :
        resolve_country outside normalized ≡ some to
        → s.last_seen place ≡ some (seen_at from now)
        → Judged (check_impossible_travel outside tenant_id user normalized event_id id later s).1
    unfolding get_last_value
    second-Judged at stored =
        subst (λ (out : Result (Unit {0}) × Flow). Judged out.1)
          (sym (check-compared normalized event_id id later s to at))
          (then_set (get_last_value place later s)
            (rw (stored, get_last_value) (compare-Judged (ltb later (now + 86400)) refl)))

  -- Suppose that a user has signed in from a country that could be told, and that this check returned. The
  -- check of the next sign-in of that user reports an incident of impossible travel exactly if its country
  -- is another one, both can be looked up and are in the table of centroids, less than a day has passed,
  -- and the distance would take more than 1000 km/h; otherwise it changes no incident and publishes
  -- nothing.
  pub check_impossible_travel-IsJudged :
      (first_seen next_seen : Fields) (event_id event_id' id id' now later : ℕ) (s : Flow)
      (from to : Value)
      → resolve_country outside first_seen ≡ some from
      → resolve_country outside next_seen ≡ some to
      → (check_impossible_travel outside tenant_id user first_seen event_id id now s).0 ≡ ok tt
      → let s' = (check_impossible_travel outside tenant_id user first_seen event_id id now s).1 in
        IsJudged from now to next_seen event_id' id' later s'
          (check_impossible_travel outside tenant_id user next_seen event_id' id' later s').1
  check_impossible_travel-IsJudged first_seen next_seen event_id event_id' id id' now later s from
        to at at' done =
      second-Judged from to next_seen event_id' id' now later _ at'
        (check-stored first_seen event_id id now s from at done)
