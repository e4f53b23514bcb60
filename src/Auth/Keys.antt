-- ===== src/Auth/Keys.antt =====
-- The keys of backend/app/ratelimit.py in Redis, against the notes of what was recorded under each.
use sentri_mesh_astra.Prelude.{
  ℕ, ◌≤◌, ◌≡◌, sym, subst, inl, inr, true, List, [], ◌∷◌, arith, eq_iff, if◌then◌else◌, Bool-cases,
  length, keep,
}
use sentri_mesh_astra.Models.{Key, key_eq}
use sentri_mesh_astra.Window.{
  Redis, write, record_event, record_and_count, count_without_recording, in_window,
}
use sentri_mesh_astra.Window.Refinement.{
  Tracks, Tracks-later, record_event_refines, count_events_refines,
}

pub key_eq_sound : (a b : Key) → key_eq a b ≡ true → a ≡ b
key_eq_sound (Key.login_fail_email a) (Key.login_fail_email b) h = ground (arith, eq_iff a b)
key_eq_sound (Key.login_fail_ip a) (Key.login_fail_ip b) h = ground (arith, eq_iff a b)
key_eq_sound (Key.failed_logins t a) (Key.failed_logins u b) h = ground (arith, eq_iff a b)
key_eq_sound (Key.last_login_location t a) (Key.last_login_location u b) h =
    ground (arith, eq_iff a b)
key_eq_sound a b h = cc

-- One recorded event: its time, and the key that it was recorded under.
abbrev pub Note : Type 0
Note = ℕ × Key

abbrev pub times : Key → List Note → List ℕ
times k [] = []
times k ((t, key) ∷ notes) = if key_eq k key then t ∷ times k notes else times k notes

-- How many of the notes under `k` are less than `window` old.
abbrev pub recent : ℕ → ℕ → Key → List Note → ℕ
recent window now k notes = length (keep (in_window window now) (times k notes))

-- Every key stands for the events that were recorded under it up to `now`.
pub record Follows (window now : ℕ) (notes : List Note) (r : Redis) : Type 0 where
  pub tracks : (k : Key) → Tracks window now (times k notes) (r k)

module _ (window now s : ℕ) (notes : List Note) (r : Redis) (h : Follows window now notes r)
    (later : now ≤ s) (key : Key) where
  unchanged : (k : Key) → Tracks window s (times k notes) (r k)
  unchanged k = Tracks-later window now s (times k notes) (r k) (h.tracks k) later

  pub count_without_recording_refines :
      Follows window s notes (count_without_recording r key window s).0
      × ((count_without_recording r key window s).1 ≡ recent window s key notes)
  unfolding count_without_recording write
  count_without_recording_refines =
      let step = count_events_refines window now s (times key notes) (r key) (h.tracks key) later in
      (
        record {
          tracks = λ k. elim (Bool-cases (key_eq k key)) [
            | inl here ↦ rw (here, key_eq_sound k key here) step.0
            | inr other ↦ rw other (unchanged k)
          ];
        },
        step.1,
      )

  pub record_and_count_refines :
      Follows window s ((s, key) ∷ notes) (record_and_count r key window s).0
  unfolding record_and_count write
  record_and_count_refines =
      let step = record_event_refines window now s (times key notes) (r key) (h.tracks key) later in
      record {
        tracks = λ k. elim (Bool-cases (key_eq k key)) [
          | inl here ↦ rw here (
              subst (λ x. Tracks window s (s ∷ times x notes) (record_event window s (r key)).0)
                (sym (key_eq_sound k key here)) step.0)
          | inr other ↦ rw other (unchanged k)
        ];
      }
