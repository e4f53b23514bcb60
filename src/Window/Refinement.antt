-- ===== src/Window/Refinement.antt =====
-- The counters of backend/app/state_store.py against the history of what was recorded under a key.
use sentri_mesh_astra.Prelude.{
  ℕ, ◌+◌, ◌≤◌, ◌≡◌, refl, ap, ◌∙◌, inl, inr, Option, none, some, List, [], ◌∷◌, arith, leb,
  Bool-cases, length, keep, All,
}
use sentri_mesh_astra.Window.{Bucket, empty, live, in_window, record_event, count_events}

-- Every member leaves the window no later than the key expires, and the key was touched last at
-- `now` or before.
abbrev Expiry : ℕ → ℕ → Option ℕ → List ℕ → Type 0
Expiry window now none members = members ≡ []
Expiry window now (some t) members = All (λ m. m + window ≤ t) members × (t ≤ now + window)

-- The bucket after operations up to `now`, where `history` lists the recorded times, newest first.
pub record Tracks (window now : ℕ) (history : List ℕ) (b : Bucket) : Type 0 where
  pub expiry : Expiry window now b.expires_at b.members
  pub agrees :
      (t : ℕ) → now ≤ t → keep (in_window window t) b.members ≡ keep (in_window window t) history

keep_outside :
    (window t e : ℕ) (xs : List ℕ)
    → e ≤ t
    → All (λ m. m + window ≤ e) xs
    → keep (in_window window t) xs ≡ []
keep_outside window t e [] h a = refl
keep_outside window t e (x ∷ xs) h a = ground (arith, keep_outside window t e xs h a.1)

-- A key that Redis has dropped held nothing that a later count would have counted.
keep-live :
    (window now s t : ℕ) (e : Option ℕ) (xs : List ℕ)
    → Expiry window now e xs
    → s ≤ t
    → keep (in_window window t) (live s (record { members = xs; expires_at = e }))
      ≡ keep (in_window window t) xs
unfolding live
keep-live window now s t none xs h st = refl
keep-live window now s t (some e) xs h st = ground (arith, keep_outside window t e xs)

keep-keep :
    (window s t : ℕ) (xs : List ℕ)
    → s ≤ t
    → keep (in_window window t) (keep (in_window window s) xs) ≡ keep (in_window window t) xs
keep-keep window s t [] h = refl
keep-keep window s t (x ∷ xs) h = ground (arith, keep-keep window s t xs h)

All-keep :
    (window s e : ℕ) (xs : List ℕ)
    → All (λ m. m + window ≤ e) xs
    → All (λ m. m + window ≤ e) (keep (in_window window s) xs)
All-keep window s e [] h = tt
All-keep window s e (x ∷ xs) h = ground (arith, All-keep window s e xs h.1)

All-le :
    (window d e : ℕ) (xs : List ℕ)
    → d ≤ e
    → All (λ m. m + window ≤ d) xs
    → All (λ m. m + window ≤ e) xs
All-le window d e [] h a = tt
All-le window d e (x ∷ xs) h a = (omega arith, All-le window d e xs h a.1)

live_bound :
    (window now s : ℕ) (e : Option ℕ) (xs : List ℕ)
    → Expiry window now e xs
    → now ≤ s
    → All (λ m. m + window ≤ s + window) (live s (record { members = xs; expires_at = e }))
unfolding live
live_bound window now s none xs h st = rw h tt
live_bound window now s (some e) xs h st = elim (Bool-cases (leb e s)) [
  | inl past ↦ rw past tt
  | inr alive ↦ rw alive (All-le window e (s + window) xs (omega arith) h.0)
]

live-Expiry :
    (window now s : ℕ) (e : Option ℕ) (xs : List ℕ)
    → Expiry window now e xs
    → now ≤ s
    → Expiry window s e
        (keep (in_window window s) (live s (record { members = xs; expires_at = e })))
unfolding live
live-Expiry window now s none xs h st = rw h refl
live-Expiry window now s (some e) xs h st = elim (Bool-cases (leb e s)) [
  | inl past ↦ rw past (tt, omega arith)
  | inr alive ↦ rw alive (All-keep window s e xs h.0, omega arith)
]

module _ (window now s : ℕ) (history : List ℕ) (b : Bucket) (h : Tracks window now history b)
    (later : now ≤ s) where
  live_agrees :
      (t : ℕ) → s ≤ t → keep (in_window window t) (live s b) ≡ keep (in_window window t) history
  live_agrees t st =
      keep-live window now s t b.expires_at b.members h.expiry st ∙ h.agrees t (omega arith)

  kept_agrees :
      (t : ℕ)
      → s ≤ t
      → keep (in_window window t) (keep (in_window window s) (live s b))
        ≡ keep (in_window window t) history
  kept_agrees t st = keep-keep window s t (live s b) st ∙ live_agrees t st

  added_agrees :
      (t : ℕ)
      → s ≤ t
      → keep (in_window window t) (s ∷ live s b) ≡ keep (in_window window t) (s ∷ history)
  added_agrees t st = rw (live_agrees t st)

  -- Recording at `s` returns the number of events since `s - window`, this one included, and the
  -- bucket goes on to stand for the history with this event.
  pub record_event_refines :
      Tracks window s (s ∷ history) (record_event window s b).0
      × ((record_event window s b).1 ≡ length (keep (in_window window s) (s ∷ history)))
  unfolding record_event
  record_event_refines = (
    record {
      expiry = (
        All-keep window s (s + window) (s ∷ live s b)
            (omega arith, live_bound window now s b.expires_at b.members h.expiry later),
        omega arith,
      );
      agrees = λ t st. keep-keep window s t (s ∷ live s b) st ∙ added_agrees t st;
    },
    ap length (added_agrees s (omega arith)),
  )

  -- Counting at `s` returns the number of events since `s - window` and records nothing.
  pub count_events_refines :
      Tracks window s history (count_events window s b).0
      × ((count_events window s b).1 ≡ length (keep (in_window window s) history))
  unfolding count_events
  count_events_refines = (
    record {
      expiry = live-Expiry window now s b.expires_at b.members h.expiry later;
      agrees = kept_agrees;
    },
    ap length (live_agrees s (omega arith)),
  )

Expiry-later :
    (window now s : ℕ) (e : Option ℕ) (xs : List ℕ)
    → Expiry window now e xs
    → now ≤ s
    → Expiry window s e xs
Expiry-later window now s none xs h later = h
Expiry-later window now s (some t) xs h later = (h.0, omega arith)

-- A bucket stands for the same history while time passes.
pub Tracks-later :
    (window now s : ℕ) (history : List ℕ) (b : Bucket)
    → Tracks window now history b
    → now ≤ s
    → Tracks window s history b
Tracks-later window now s history b h later = record {
  expiry = Expiry-later window now s b.expires_at b.members h.expiry later;
  agrees = λ t st. h.agrees t (omega arith);
}

pub Tracks-empty : (window now : ℕ) → Tracks window now [] empty
Tracks-empty window now = record { expiry = refl; agrees = λ t st. refl }

-- The calls that reach one key, each with its time, and what each returns.
pub data Call : Type 0 where
  recording counting : ℕ → Call

abbrev pub call_time : Call → ℕ
call_time (Call.recording t) = t
call_time (Call.counting t) = t

unfoldable pub run_call : ℕ → Call → Bucket → Bucket × ℕ
run_call window (Call.recording t) b = record_event window t b
run_call window (Call.counting t) b = count_events window t b

unfoldable pub run_calls : ℕ → List Call → Bucket → List ℕ
run_calls window [] b = []
run_calls window (c ∷ cs) b = let (b', n) = run_call window c b in n ∷ run_calls window cs b'

-- The specification: a call looks at the whole history of recorded times, and nothing is dropped.
abbrev pub after_call : Call → List ℕ → List ℕ
after_call (Call.recording t) history = t ∷ history
after_call (Call.counting t) history = history

abbrev pub counts : ℕ → List Call → List ℕ → List ℕ
counts window [] history = []
counts window (c ∷ cs) history =
    length (keep (in_window window (call_time c)) (after_call c history))
    ∷ counts window cs (after_call c history)

abbrev pub IsOrdered : ℕ → List Call → Type 0
IsOrdered now [] = Unit
IsOrdered now (c ∷ cs) = (now ≤ call_time c) × IsOrdered (call_time c) cs

run_call_refines :
    (window now : ℕ) (history : List ℕ) (b : Bucket) (c : Call)
    → Tracks window now history b
    → now ≤ call_time c
    → Tracks window (call_time c) (after_call c history) (run_call window c b).0
      × ((run_call window c b).1
          ≡ length (keep (in_window window (call_time c)) (after_call c history)))
unfolding run_call
run_call_refines window now history b (Call.recording t) h st =
    record_event_refines window now t history b h st
run_call_refines window now history b (Call.counting t) h st =
    count_events_refines window now t history b h st

run_calls_from :
    (window now : ℕ) (history : List ℕ) (b : Bucket) (cs : List Call)
    → Tracks window now history b
    → IsOrdered now cs
    → run_calls window cs b ≡ counts window cs history
unfolding run_calls
run_calls_from window now history b [] h o = refl
run_calls_from window now history b (c ∷ cs) h o =
    let step = run_call_refines window now history b c h o.0 in
    cc (
      step.1,
      run_calls_from window (call_time c) (after_call c history) (run_call window c b).0 cs step.0
          o.1,
    )

-- While the clock does not go back, every call on a key returns the number of events recorded under
-- it less than `window` ago: trimming and the key's expiry drop nothing that a later call counts.
pub run_calls_refines :
    (window : ℕ) (cs : List Call) → IsOrdered 0 cs → run_calls window cs empty ≡ counts window cs []
run_calls_refines window cs o = run_calls_from window 0 [] empty cs (Tracks-empty window 0) o
