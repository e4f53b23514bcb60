-- ===== src/Realtime.antt =====
-- backend/app/realtime.py and backend/app/routers/ws.py: what a browser's socket is sent of the messages on
-- the bus, and who may open one.
pub mod Isolation
mod Tests
use sentri_mesh_astra.Prelude.{
  ℕ, String, Bool, false, not, ◌&&◌, Option, none, some, List, [], ◌∷◌, ◌++◌, str_eq, ◌==◌,
  if◌then◌else◌, any, Result, ok, err,
}
use sentri_mesh_astra.Models.{User}
use sentri_mesh_astra.Bus.{Message, tenant_of}
use sentri_mesh_astra.Control.{has_access}
use sentri_mesh_astra.Auth.{Portal}
use sentri_mesh_astra.Auth.Accounts.{Crypto, user_from_jwt}
use sentri_mesh_astra.Listening.{Incoming}

-- `DASHBOARD_CHANNELS`
abbrev pub dashboard_channels : List String
dashboard_channels =
    "incidents.new" ∷ "incidents.enriched" ∷ "incidents.classified" ∷ "actions.proposed"
    ∷ "actions.approved" ∷ "actions.denied" ∷ "actions.executed" ∷ "reports.ready"
    ∷ "guardian.alert" ∷ []

abbrev pub is_subscribed : String → Bool
is_subscribed channel = any (str_eq channel) dashboard_channels

-- The tests of a message on the socket's own subscription, after `json.loads`.
abbrev pub passes : ℕ → Incoming Message → Bool
passes tenant_id m =
    str_eq m.kind "message" && (elim m.payload [ none ↦ false | some p ↦ tenant_of p == tenant_id ])

abbrev payload_of : Incoming Message → List (String × Message)
payload_of m = elim m.payload [ none ↦ [] | some p ↦ (m.channel, p) ∷ [] ]

-- `stream_tenant_events`, on the messages that Redis carries while it runs: those of the channels that the
-- socket has subscribed to.
unfoldable pub stream_tenant_events : ℕ → List (Incoming Message) → List (String × Message)
stream_tenant_events tenant_id [] = []
stream_tenant_events tenant_id (m ∷ rest) =
    if is_subscribed m.channel && passes tenant_id m
    then payload_of m ++ stream_tenant_events tenant_id rest
    else stream_tenant_events tenant_id rest

-- What a client sees of a socket: a code with which it is closed, or what is sent.
pub data Socket : Type 0 where
  closed : ℕ → Socket
  accepted : List (String × Message) → Socket

-- The handshake: its `Origin` header and its `token` parameter.
pub record Handshake : Type 0 where
  pub origin : Option String
  pub token : Option String

-- `origin is not None and settings.cors_origins and origin not in settings.cors_origins`
abbrev pub bad_origin : List String → Option String → Bool
bad_origin cors_origins none = false
bad_origin [] (some origin) = false
bad_origin (c ∷ cs) (some origin) = not (any (str_eq origin) (c ∷ cs))

-- Behind the token: what `user_from_jwt` returns or raises.
unfoldable pub admit : ℕ → List (Incoming Message) → Result User → Socket
admit tenant_id messages (err e) = closed 4401
admit tenant_id messages (ok user) =
    if has_access user tenant_id
    then accepted (stream_tenant_events tenant_id messages)
    else closed 4403

module _ (crypto : Crypto) (expire_minutes : ℕ) (cors_origins : List String) where
  -- `tenant_events_ws` with the token.
  unfoldable pub authenticate : ℕ → Option String → ℕ → Portal → List (Incoming Message) → Socket
  authenticate tenant_id none now p messages = closed 4401
  authenticate tenant_id (some token) now p messages =
      if str_eq token ""
      then closed 4401
      else admit tenant_id messages (user_from_jwt crypto expire_minutes token now p).0

  -- `tenant_events_ws`, with the accounts at the time of the handshake and the messages until it ends.
  unfoldable pub tenant_events_ws : ℕ → Handshake → ℕ → Portal → List (Incoming Message) → Socket
  tenant_events_ws tenant_id h now p messages =
      if bad_origin cors_origins h.origin
      then closed 4403
      else authenticate tenant_id h.token now p messages
