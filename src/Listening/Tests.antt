-- ===== src/Listening/Tests.antt =====
-- A handler that raises, and another one of the same channel.
use sentri_mesh_astra.Prelude.{
  ℕ, ◌+◌, String, ◌≡◌, refl, none, some, List, [], ◌∷◌, ◌++◌, ok, err, exception,
}
use sentri_mesh_astra.Listening.{
  call_all, handlers_of, receive, subscribe, Handler, Incoming, register_all, listen_loop,
}
use sentri_mesh_astra.Listening.Dispatch.{deliver_all, listen_loop-register_all}

abbrev noted : ℕ → Handler ℕ (List ℕ)
noted k payload s = (ok tt, s ++ (k + payload) ∷ [])

abbrev broken : Handler ℕ (List ℕ)
broken payload s = (err exception, s ++ 0 ∷ [])

abbrev subscriptions : List (String × Handler ℕ (List ℕ))
subscriptions = ("events.raw", broken) ∷ ("incidents.new", noted 10) ∷ ("events.raw", noted 20) ∷ []

abbrev arrived : List (Incoming ℕ)
arrived =
    record { kind = "subscribe"; channel = "events.raw"; payload = some 1 }
    ∷ record { kind = "message"; channel = "events.raw"; payload = none }
    ∷ record { kind = "message"; channel = "events.raw"; payload = some 3 }
    ∷ []

listen_loop-register_all_example :
    listen_loop (register_all subscriptions []) arrived [] ≡ deliver_all subscriptions arrived []
listen_loop-register_all_example = listen_loop-register_all subscriptions arrived []

listen_run : listen_loop (register_all subscriptions []) arrived [] ≡ 0 ∷ 23 ∷ []
unfolding listen_loop register_all subscribe receive handlers_of call_all
listen_run = refl
