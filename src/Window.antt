-- ===== src/Window.antt =====
-- backend/app/state_store.py: sliding-window counters in Redis sorted sets. Every member is a token
-- of its own, so a set is the list of its scores, which are the times of the recorded events.
pub mod Refinement
mod Tests
use sentri_mesh_astra.Prelude.{
  ℕ, ◌+◌, Bool, Option, none, some, List, [], ◌∷◌, ltb, leb, if◌then◌else◌, length, keep,
}
use sentri_mesh_astra.Models.{Key, key_eq}

-- A sorted set and the time at which Redis drops its key.
pub record Bucket : Type 0 where
  pub members : List ℕ
  pub expires_at : Option ℕ

abbrev pub empty : Bucket
empty = record { members = []; expires_at = none }

abbrev pub Redis : Type 0
Redis = Key → Bucket

-- A write to one key.
unfoldable pub write : Redis → Key → Bucket → Redis
write r k b j = if key_eq j k then b else r j

-- What a command sees of a key: nothing after its expiry.
unfoldable pub live : ℕ → Bucket → List ℕ
live now b = elim b.expires_at [ none ↦ b.members | some t ↦ if leb t now then [] else b.members ]

-- The scores that `zremrangebyscore(key, 0, now - window)` leaves: those above the cutoff.
abbrev pub in_window : ℕ → ℕ → ℕ → Bool
in_window window now score = ltb now (score + window)

-- `zadd`, `zremrangebyscore`, `zcard` and `expire`, in one pipeline.
unfoldable pub record_event : ℕ → ℕ → Bucket → Bucket × ℕ
record_event window now b =
    let members = keep (in_window window now) (now ∷ live now b) in
    (record { members = members; expires_at = some (now + window) }, length members)

-- `zremrangebyscore` and `zcard`.
unfoldable pub count_events : ℕ → ℕ → Bucket → Bucket × ℕ
count_events window now b =
    let members = keep (in_window window now) (live now b) in
    (record b { members = members }, length members)

unfoldable pub record_and_count : Redis → Key → ℕ → ℕ → Redis × ℕ
record_and_count r key window now =
    let (b, count) = record_event window now (r key) in (write r key b, count)

unfoldable pub count_without_recording : Redis → Key → ℕ → ℕ → Redis × ℕ
count_without_recording r key window now =
    let (b, count) = count_events window now (r key) in (write r key b, count)
