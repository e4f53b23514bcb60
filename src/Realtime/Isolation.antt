-- ===== src/Realtime/Isolation.antt =====
-- That a socket of backend/app/routers/ws.py shows its own tenant's messages and no others.
use sentri_mesh_astra.Prelude.{
  ℕ, String, ◌≡◌, refl, sym, subst, inl, inr, true, false, ◌&&◌, Option, none, some, List, [], ◌∷◌,
  arith, str_eq, ==_iff, Bool-cases, and_true, All, All-append, if_keeps, Result, ok, err,
}
use sentri_mesh_astra.Models.{User}
use sentri_mesh_astra.Bus.{Message, tenant_of}
use sentri_mesh_astra.Control.{has_access}
use sentri_mesh_astra.Auth.{Portal}
use sentri_mesh_astra.Auth.Accounts.{Crypto, user_from_jwt}
use sentri_mesh_astra.Listening.{Incoming}
use sentri_mesh_astra.Realtime.{
  authenticate, tenant_events_ws, payload_of, accepted, Handshake, stream_tenant_events,
  is_subscribed, passes, admit, bad_origin,
}

-- What one account may receive.
abbrev IsOwn : ℕ → String × Message → Type 0
IsOwn t e = (is_subscribed e.0 ≡ true) × (tenant_of e.1 ≡ t)

payload_of-IsOwn :
    (t : ℕ) (kind channel : String) (o : Option Message)
    → is_subscribed channel ≡ true
    → passes t (record { kind = kind; channel = channel; payload = o }) ≡ true
    → All (IsOwn t) (payload_of (record { kind = kind; channel = channel; payload = o }))
payload_of-IsOwn t kind channel none subscribed pass = tt
payload_of-IsOwn t kind channel (some p) subscribed pass =
    ((subscribed, (==_iff (tenant_of p) t).0 (ground (arith, pass))), tt)

stream-IsOwn :
    (t : ℕ) (messages : List (Incoming Message)) → All (IsOwn t) (stream_tenant_events t messages)
unfolding stream_tenant_events
stream-IsOwn t [] = tt
stream-IsOwn t (m ∷ rest) =
    if_keeps (All (IsOwn t)) (is_subscribed m.channel && passes t m) _ _
      (λ both.
        All-append (IsOwn t) (payload_of m) (stream_tenant_events t rest)
          (payload_of-IsOwn t m.kind m.channel m.payload
            (and_true (is_subscribed m.channel) (passes t m) both).0
            (and_true (is_subscribed m.channel) (passes t m) both).1)
          (stream-IsOwn t rest))
      (λ e. stream-IsOwn t rest)

-- What it takes that a socket is accepted and sent `es`.
pub record IsEntitled (crypto : Crypto) (expire_minutes : ℕ) (cors_origins : List String) (t : ℕ)
    (h : Handshake) (now : ℕ) (p : Portal) (messages : List (Incoming Message))
    (es : List (String × Message)) : Type 0 where
  pub token : String
  pub user : User
  pub presented : h.token ≡ some token
  pub known : (user_from_jwt crypto expire_minutes token now p).0 ≡ ok user
  pub access : has_access user t ≡ true
  pub origin : bad_origin cors_origins h.origin ≡ false
  pub whole : es ≡ stream_tenant_events t messages
  pub own : All (IsOwn t) es

admit-accepted :
    (t : ℕ) (messages : List (Incoming Message)) (es : List (String × Message)) (r : Result User)
    → admit t messages r ≡ accepted es
    → (user : User) × (r ≡ ok user)
      × (has_access user t ≡ true)
      × (es ≡ stream_tenant_events t messages)
unfolding admit
admit-accepted t messages es (err e) h = absurd (ground (arith, h))
admit-accepted t messages es (ok user) h = elim (Bool-cases (has_access user t)) [
  | inl may ↦ (user, refl, may, ground (arith, may, h))
  | inr may_not ↦ absurd (ground (arith, may_not, h))
]

module _ (crypto : Crypto) (expire_minutes : ℕ) (cors_origins : List String) where
  authenticate-accepted :
      (t : ℕ) (presented : Option String) (now : ℕ) (p : Portal)
      (messages : List (Incoming Message)) (es : List (String × Message))
      → authenticate crypto expire_minutes cors_origins t presented now p messages ≡ accepted es
      → (token : String) × (user : User) × (presented ≡ some token)
        × ((user_from_jwt crypto expire_minutes token now p).0 ≡ ok user)
        × (has_access user t ≡ true)
        × (es ≡ stream_tenant_events t messages)
  unfolding authenticate
  authenticate-accepted t none now p messages es h = absurd (ground (arith, h))
  authenticate-accepted t (some token) now p messages es h = elim (Bool-cases (str_eq token "")) [
    | inl empty ↦ absurd (ground (arith, empty, h))
    | inr given ↦
        let (user, known, access, whole) =
          admit-accepted t messages es (user_from_jwt crypto expire_minutes token now p).0
            (ground (arith, given, h)) in
        (token, user, refl, known, access, whole)
  ]

  -- Whenever a socket for tenant `t` is accepted, its handshake has a token of an active account that may
  -- see `t` and comes from an allowed origin or from no browser, and everything that it is sent is a message
  -- of `t` on one of the channels for dashboards.
  pub tenant_events_ws-IsEntitled :
      (t : ℕ) (h : Handshake) (now : ℕ) (p : Portal) (messages : List (Incoming Message))
      (es : List (String × Message))
      → tenant_events_ws crypto expire_minutes cors_origins t h now p messages ≡ accepted es
      → IsEntitled crypto expire_minutes cors_origins t h now p messages es
  unfolding tenant_events_ws
  tenant_events_ws-IsEntitled t h now p messages es opened =
      elim (Bool-cases (bad_origin cors_origins h.origin)) [
        | inl bad ↦ absurd (ground (arith, bad, opened))
        | inr good ↦
            let (token, user, presented, known, access, whole) =
              authenticate-accepted t h.token now p messages es (ground (arith, good, opened)) in
            record {
              token = token;
              user = user;
              presented = presented;
              known = known;
              access = access;
              origin = good;
              whole = whole;
              own = subst (All (IsOwn t)) (sym whole) (stream-IsOwn t messages);
            }
      ]
