-- ===== src/Detection/Threshold.antt =====
-- When failed logins become an incident: backend/app/agents/detection.py with its window of ten
-- minutes in Redis.
use sentri_mesh_astra.Prelude.{
  ℕ, ◌≤◌, String, ◌≡◌, refl, Bool, true, false, List, ◌∷◌, leb, if◌then◌else◌, length, keep, pure,
  ok,
}
use sentri_mesh_astra.Json.{Value, truthy, text}
use sentri_mesh_astra.Models.{Key, key_eq, key_eq_self}
use sentri_mesh_astra.Window.{write, in_window, record_and_count, count_without_recording}
use sentri_mesh_astra.Window.Refinement.{Tracks, record_event_refines, count_events_refines}
use sentri_mesh_astra.Detection.{Flow, open_incident, failed_login_window}
use sentri_mesh_astra.Detection.Events.{
  Outside, correlate_logins, record_failed_login, recent_failed_login_count, failed_sighting,
  success_sighting,
}

-- The events of a history that are less than ten minutes old.
abbrev pub failures_at : ℕ → List ℕ → ℕ
failures_at now history = length (keep (in_window failed_login_window now) history)

if_applied :
    {A B : Type 0} (b : Bool) (f g : A → B) (x : A)
    → (if b then f else g) x ≡ (if b then f x else g x)
if_applied true f g x = refl
if_applied false f g x = refl

-- What a command on the failures of an address leaves behind: their bucket stands for `history`, and nothing
-- else has changed.
abbrev pub Remembers : ℕ → String → ℕ → List ℕ → Flow → Flow → Type 0
Remembers tenant_id ip now history s s' =
    let key = Key.failed_logins tenant_id ip in
    Tracks failed_login_window now history (s'.redis key)
    × (s' ≡ record s { redis = s'.redis })
    × ((k : Key) → key_eq k key ≡ false → s'.redis k ≡ s.redis k)

module _ (tenant_id : ℕ) (ip : String) (before now : ℕ) (history : List ℕ) (s : Flow)
    (tracks : Tracks failed_login_window before history (s.redis (Key.failed_logins tenant_id ip)))
    (later : before ≤ now) where
  record_failed_login-Remembers :
      Remembers tenant_id ip now (now ∷ history) s (record_failed_login tenant_id ip now s).1
  unfolding record_failed_login record_and_count write
  record_failed_login-Remembers =
      let key = Key.failed_logins tenant_id ip in
      (
        rw (key_eq_self key)
            (record_event_refines failed_login_window before now history (s.redis key) tracks
              later).0,
        refl,
        λ k other. rw other refl,
      )

  recent_failed_login_count-Remembers :
      Remembers tenant_id ip now history s (recent_failed_login_count tenant_id ip now s).1
  unfolding recent_failed_login_count count_without_recording write
  recent_failed_login_count-Remembers =
      let key = Key.failed_logins tenant_id ip in
      (
        rw (key_eq_self key)
            (count_events_refines failed_login_window before now history (s.redis key) tracks
              later).0,
        refl,
        λ k other. rw other refl,
      )

-- While the bucket of an address stands for the times at which logins from there failed, a failure is
-- added to them, so that the bucket stands for them and this one, and is reported exactly if it is at
-- least the fifth in ten minutes; a successful login leaves them as they are and is reported exactly if
-- at least five have failed in the ten minutes before. Before the report nothing else changes, and it
-- goes to _open_incident with that number.
pub correlate_logins_refines :
    (outside : Outside) (tenant_id event_id : ℕ) (src_ip : Value) (vendor : List Value)
    (id before now : ℕ) (history : List ℕ) (s : Flow)
    → truthy src_ip ≡ true
    → Tracks failed_login_window before history
        (s.redis (Key.failed_logins tenant_id (outside.str src_ip)))
    → before ≤ now
    → (let n = failures_at now (now ∷ history) in
        let s' = (record_failed_login tenant_id (outside.str src_ip) now s).1 in
        Remembers tenant_id (outside.str src_ip) now (now ∷ history) s s'
        × (correlate_logins outside tenant_id event_id (text "login_failed") src_ip vendor id now s
            ≡ (if leb 5 n
                then open_incident
                    (failed_sighting outside tenant_id event_id src_ip vendor n)
                    id
                    now
                    s'
                else (ok tt, s'))))
      × (let n = failures_at now history in
          let s' = (recent_failed_login_count tenant_id (outside.str src_ip) now s).1 in
          Remembers tenant_id (outside.str src_ip) now history s s'
          × (correlate_logins outside tenant_id event_id
                (text "login_success")
                src_ip
                vendor
                id
                now
                s
              ≡ (if leb 5 n
                  then open_incident
                      (success_sighting outside tenant_id event_id src_ip vendor n)
                      id
                      now
                      s'
                  else (ok tt, s'))))
unfolding correlate_logins record_failed_login recent_failed_login_count record_and_count
    count_without_recording
correlate_logins_refines outside tenant_id event_id src_ip vendor id before now history s real
      tracks later =
    let b = s.redis (Key.failed_logins tenant_id (outside.str src_ip)) in
    let recorded = record_event_refines failed_login_window before now history b tracks later in
    let counted = count_events_refines failed_login_window before now history b tracks later in
    let n = failures_at now (now ∷ history) in
    let m = failures_at now history in
    (
      (
        record_failed_login-Remembers tenant_id (outside.str src_ip) before now history s tracks
            later,
        rw (real, recorded.1)
            (if_applied (leb 5 n)
              (open_incident (failed_sighting outside tenant_id event_id src_ip vendor n) id now)
              (pure tt) (record_failed_login tenant_id (outside.str src_ip) now s).1),
      ),
      (
        recent_failed_login_count-Remembers tenant_id (outside.str src_ip) before now history s
            tracks later,
        rw (real, counted.1)
            (if_applied (leb 5 m)
              (open_incident (success_sighting outside tenant_id event_id src_ip vendor m) id now)
              (pure tt) (recent_failed_login_count tenant_id (outside.str src_ip) now s).1),
      ),
    )
