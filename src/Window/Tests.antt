-- ===== src/Window/Tests.antt =====
-- Runs of the counters of backend/app/state_store.py.
use sentri_mesh_astra.Prelude.{◌≡◌, refl, List, [], ◌∷◌, arith}
use sentri_mesh_astra.Window.{empty, record_event, count_events, live}
use sentri_mesh_astra.Window.Refinement.{Call, run_call, run_calls, counts, run_calls_refines}

-- Two failures at 0 and 5 in a window of 10: the first has left at 10, and all have at 15.
abbrev calls : List Call
calls =
    Call.recording 0
    ∷ Call.recording 5
    ∷ Call.counting 9
    ∷ Call.counting 10
    ∷ Call.counting 15
    ∷ Call.recording 30
    ∷ []

run_calls_run : run_calls 10 calls empty ≡ 1 ∷ 2 ∷ 2 ∷ 1 ∷ 0 ∷ 1 ∷ []
unfolding run_calls run_call record_event count_events live
run_calls_run = refl

run_calls_refines_example : run_calls 10 calls empty ≡ counts 10 calls []
run_calls_refines_example = run_calls_refines 10 calls (omega arith)
