-- ===== src/Listening.antt =====
-- The other half of backend/app/bus.py: handlers that subscribe to channels, and the loop that calls them.
-- A handler is an action on a state of any type, which may raise.
pub mod Dispatch
mod Tests
use sentri_mesh_astra.Prelude.{
  String, Option, none, some, List, [], ◌∷◌, ◌++◌, str_eq, if◌then◌else◌, Action,
}

-- A message of Redis's `listen`, with what `json.loads` makes of its data, `none` for a malformed text.
pub record Incoming (P : Type 0) : Type 0 where
  pub kind : String
  pub channel : String
  pub payload : Option P

abbrev pub Handler : Type 0 → Type 0 → Type 0
Handler P S = P → Action S (Unit {0})

-- `dict[str, list[Handler]]`
abbrev pub Handlers : Type 0 → Type 0 → Type 0
Handlers P S = List (String × List (Handler P S))

module _ {P S : Type 0} where
  -- `subscribe`
  unfoldable pub subscribe : String → (Handler P S) → Handlers P S → Handlers P S
  subscribe channel handler [] = (channel, handler ∷ []) ∷ []
  subscribe channel handler ((c, hs) ∷ rest) =
      if str_eq channel c
      then (c, hs ++ handler ∷ []) ∷ rest
      else (c, hs) ∷ subscribe channel handler rest

  -- `self._handlers.get(channel, [])`
  unfoldable pub handlers_of : String → Handlers P S → List (Handler P S)
  handlers_of channel [] = []
  handlers_of channel ((c, hs) ∷ rest) = if str_eq channel c then hs else handlers_of channel rest

  -- The handlers of a message, one after another: what one raises is logged.
  unfoldable pub call_all : List (Handler P S) → P → S → S
  call_all [] payload s = s
  call_all (handler ∷ rest) payload s = call_all rest payload (handler payload s).1

  -- One turn of `_listen_loop`.
  unfoldable pub receive : Handlers P S → Incoming P → S → S
  receive handlers message s =
      if str_eq message.kind "message"
      then elim message.payload [
        | none ↦ s
        | some payload ↦ call_all (handlers_of message.channel handlers) payload s
      ]
      else s

  -- `_listen_loop`, on the messages that arrive while it runs.
  unfoldable pub listen_loop : Handlers P S → List (Incoming P) → S → S
  listen_loop handlers [] s = s
  listen_loop handlers (message ∷ rest) s = listen_loop handlers rest (receive handlers message s)

  -- The agents' `register`, in the order in which they subscribe.
  unfoldable pub register_all : List (String × (Handler P S)) → Handlers P S → Handlers P S
  register_all [] handlers = handlers
  register_all ((channel, handler) ∷ rest) handlers =
      register_all rest (subscribe channel handler handlers)
