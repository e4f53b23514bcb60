-- ===== src/Detection/LastValue.antt =====
-- The last-value store of backend/app/state_store.py, and the guards of `implied_travel_speed_kmh` of
-- backend/app/geo.py.
use sentri_mesh_astra.Prelude.{
  ℕ, ◌+◌, ◌*◌, String, Bool, true, false, not, ◌&&◌, ◌||◌, Option, none, some, str_eq, ltb, ◌==◌,
  if◌then◌else◌, modify,
}
use sentri_mesh_astra.Detection.Geo.{distance_km}
use sentri_mesh_astra.Models.{Key, key_eq}
use sentri_mesh_astra.Detection.{Place, Flow, LastSeen, Act}

-- `get_last_value`: nothing once the key has expired.
unfoldable pub get_last_value : Key → ℕ → Flow → Option LastSeen
get_last_value key now s = elim (s.last_seen key) [
  | none ↦ none
  | some l ↦ if ltb now l.expires_at then some l else none
]

abbrev travel_ttl : ℕ
travel_ttl = 24 * 60 * 60

-- `set_last_value`
unfoldable pub set_last_value : Key → Place → ℕ → Act Unit
set_last_value key country now = modify (λ s. record s {
  last_seen = λ j.
      if key_eq j key
      then some (record { country = country; timestamp = now; expires_at = now + travel_ttl })
      else s.last_seen j;
})

abbrev same_kind : Bool → Bool → Bool
same_kind true b = b
same_kind false b = not b

-- `COUNTRY_CENTROIDS.get(…)` raises, where it is reached.
abbrev pub cannot_look_up : Place → Place → ℕ → Bool
cannot_look_up a b elapsed =
    not (a.hashable && b.hashable)
    && not (elapsed == 0)
    && not (str_eq a.name b.name && same_kind a.hashable b.hashable)

-- `implied_travel_speed_kmh(…) > MAX_PLAUSIBLE_SPEED_KMH`, with the distance that was travelled:
-- distance / (elapsed / 3600) > 1000.
unfoldable pub implausible_distance : (String → String → Option ℕ) → String → String → ℕ → Option ℕ
implausible_distance distance_km country_a country_b elapsed =
    if str_eq country_a country_b || elapsed == 0
    then none
    else elim (distance_km country_a country_b) [
      | none ↦ none
      | some km ↦ if ltb (1000 * elapsed) (km * 3600) then some km else none
    ]
