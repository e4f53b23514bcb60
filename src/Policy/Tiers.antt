-- ===== src/Policy/Tiers.antt =====
-- What `classify_action` of backend/app/policy/engine.py decides, for every action type.
use sentri_mesh_astra.Prelude.{
  String, ◌≡◌, refl, ◌≢◌, ◌↔◌, Bool, true, false, not, ◌&&◌, none, arith, contains, lookup,
  contains-all,
}
use sentri_mesh_astra.Models.{Severity, AutonomyTier}
use sentri_mesh_astra.Policy.{
  tier1_actions, tier2_actions, tier3_actions, action_reversibility, reversibility, classify_action,
}

-- The tables agree: a tier-1 or tier-2 name is reversible and stands in no other set.
tier1_consistent : String → Bool
tier1_consistent a =
    not (contains tier3_actions a) && not (contains tier2_actions a) && (reversibility a).0

tier2_consistent : String → Bool
tier2_consistent a = not (contains tier3_actions a) && (reversibility a).0

tier1_names : (a : String) → contains tier1_actions a ≡ true → tier1_consistent a ≡ true
unfolding tier1_consistent reversibility contains lookup
tier1_names a h = contains-all tier1_actions tier1_consistent a refl h

tier2_names : (a : String) → contains tier2_actions a ≡ true → tier2_consistent a ≡ true
unfolding tier2_consistent reversibility contains lookup
tier2_names a h = contains-all tier2_actions tier2_consistent a refl h

reversibility_unknown :
    (a : String) → lookup a action_reversibility ≡ none → (reversibility a).0 ≡ false
unfolding reversibility
reversibility_unknown a h = rw (h, reversibility)

-- An action runs with no approval exactly if it is one of the five tier-1 names, at any severity.
classify_action_tier1_iff :
    (a : String) (s : Severity)
    → ((classify_action a s).tier ≡ AutonomyTier.tier1_auto) ↔ (contains tier1_actions a ≡ true)
unfolding classify_action tier1_consistent
classify_action_tier1_iff a s = (λ h. ground arith, λ h. ground (arith, tier1_names a h))

-- An action needs one tap exactly if it is one of the five tier-2 names and the severity is not
-- critical.
classify_action_tier2_iff :
    (a : String) (s : Severity)
    → ((classify_action a s).tier ≡ AutonomyTier.tier2_one_tap)
      ↔ ((contains tier2_actions a ≡ true) × (s ≢ Severity.critical))
unfolding classify_action tier2_consistent
classify_action_tier2_iff a s =
    (λ h. (ground arith, λ e. ground arith), λ h. ground (arith, tier2_names a h.0))

-- An action runs with no approval exactly if it is one of the five tier-1 names, at any severity, and needs
-- one tap exactly if it is one of the five tier-2 names and the severity is not critical.
pub classify_action_exact :
    (a : String) (s : Severity)
    → (((classify_action a s).tier ≡ AutonomyTier.tier1_auto) ↔ (contains tier1_actions a ≡ true))
      × (((classify_action a s).tier ≡ AutonomyTier.tier2_one_tap)
          ↔ ((contains tier2_actions a ≡ true) × (s ≢ Severity.critical)))
classify_action_exact a s = (classify_action_tier1_iff a s, classify_action_tier2_iff a s)

-- What cannot be undone is left to a human at every severity. A name that the table of
-- reversibility does not know counts as such, so it is left to a human too.
pub classify_action-irreversible :
    (a : String) (s : Severity)
    → ((classify_action a s).reversible ≡ false
        → (classify_action a s).tier ≡ AutonomyTier.tier3_human_only)
      × (lookup a action_reversibility ≡ none
          → ((classify_action a s).reversible ≡ false)
            × ((classify_action a s).tier ≡ AutonomyTier.tier3_human_only))
unfolding classify_action
classify_action-irreversible a s =
    (λ h. ground arith, λ h. ground (arith, reversibility_unknown a h))
