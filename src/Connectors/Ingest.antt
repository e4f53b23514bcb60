-- ===== src/Connectors/Ingest.antt =====
-- Who can put events into the pipeline: backend/app/routers/ingest.py.
use sentri_mesh_astra.Prelude.{
  Selects, ℕ, String, ◌≡◌, refl, ap, ◌↔◌, Bool, true, false, ◌&&◌, Option, none, some, List, [],
  ◌∷◌, ◌++◌, arith, str_eq, eq_iff, ◌==◌, ==_iff, and_true, keep, keep-Selects, raise, modify,
  one_or_none, and_then, Result, ok, err, http, exception,
}
use sentri_mesh_astra.Models.{ConnectorConfig}
use sentri_mesh_astra.Bus.{Message, publish, audit}
use sentri_mesh_astra.Connectors.{
  Hub, IngestEvent, bearer, holds_token, hash_is, authenticate_connector, ingest_event, ingest_with,
  accept,
}

stored_hash :
    (found : Option String) (h : String)
    → ((elim found as (λ _. Bool) [ none ↦ false | some g ↦ str_eq g h ]) ≡ true) ↔ (found ≡ some h)
stored_hash none h = (λ e. cc, λ e. cc)
stored_hash (some g) h = (λ e. ap some ((eq_iff g h).0 e), λ e. (eq_iff g h).1 (ground (arith, e)))

module _ (digest : String → String) (tenant_id : ℕ) (body : IngestEvent) (now : ℕ) where
  -- A connector of the tenant that is active and whose stored hash is that of the token.
  abbrev pub MayPush : String → ConnectorConfig → Type 0
  MayPush token c =
      (c.tenant_id ≡ tenant_id) × (c.token_hash ≡ some (digest token)) × (c.is_active ≡ true)

  -- The event as the message of a connector.
  abbrev pub pushed_by : ConnectorConfig → Message
  pushed_by c = Message.raw_event (record {
    tenant_id = tenant_id;
    connector_id = some c.id;
    connector_type = c.connector_type;
    source = body.source;
    event_type = body.event_type;
    occurred_at = body.occurred_at;
    content = body.content;
  })

  -- What may come of a request: 401 without a token in its header, or without a connector that may push with
  -- it; an exception where two may; and otherwise one message, in the name of the only one that may.
  pub data Outcome (authorization : Option String) (h : Hub)
      : Result (Unit {0}) × Hub → Type 0 where
    unnamed : bearer authorization ≡ none → Outcome authorization h (err (http 401), h)
    unknown :
        (token : String)
        → bearer authorization ≡ some token
        → Selects (MayPush token) h.connectors []
        → Outcome authorization h (err (http 401), h)
    ambiguous :
        (token : String) (c d : ConnectorConfig) (rest : List ConnectorConfig)
        → bearer authorization ≡ some token
        → Selects (MayPush token) h.connectors (c ∷ d ∷ rest)
        → Outcome authorization h (err exception, h)
    accepted :
        (token : String) (c : ConnectorConfig) (h' : Hub)
        → bearer authorization ≡ some token
        → Selects (MayPush token) h.connectors (c ∷ [])
        → h'.connectors ≡ h.connectors
        → h'.bus.delivered ≡ h.bus.delivered ++ pushed_by c ∷ []
        → Outcome authorization h (ok tt, h')

  holds_token-MayPush :
      (token : String) (c : ConnectorConfig)
      → (holds_token digest tenant_id token c ≡ true) ↔ MayPush token c
  unfolding hash_is
  holds_token-MayPush token c =
      let hash = stored_hash c.token_hash (digest token) in
      (
        λ held.
            let (found, active) =
              and_true (c.tenant_id == tenant_id && hash_is (digest token) c) c.is_active held in
            let (of_tenant, hashed) =
              and_true (c.tenant_id == tenant_id) (hash_is (digest token) c) found in
            ((==_iff c.tenant_id tenant_id).0 of_tenant, hash.0 hashed, active),
        λ (of_tenant, hashed, active).
            rw ((==_iff c.tenant_id tenant_id).1 of_tenant, hash.1 hashed, active) refl,
      )

  rows-Outcome :
      (authorization : Option String) (token : String) (h : Hub) (rows : List ConnectorConfig)
      → bearer authorization ≡ some token
      → Selects (MayPush token) h.connectors rows
      → Outcome authorization h (
          and_then
            (λ connector. elim connector [
              | none ↦ raise (http 401)
              | some c ↦ modify (accept digest tenant_id body now c)
            ])
            (one_or_none rows h))
  unfolding publish audit
  rows-Outcome authorization token h [] b e = Outcome.unknown token b e
  rows-Outcome authorization token h (c ∷ []) b e =
      Outcome.accepted token c (accept digest tenant_id body now c h) b e refl refl
  rows-Outcome authorization token h (c ∷ d ∷ rows) b e = Outcome.ambiguous token c d rows b e

  bearer-Outcome :
      (authorization found : Option String) (h : Hub)
      → bearer authorization ≡ found
      → Outcome authorization h (ingest_with digest tenant_id body now found h)
  unfolding ingest_with authenticate_connector
  bearer-Outcome authorization none h b = Outcome.unnamed b
  bearer-Outcome authorization (some token) h b =
      rows-Outcome authorization token h (keep (holds_token digest tenant_id token) h.connectors) b
        (keep-Selects (MayPush token) (holds_token digest tenant_id token) h.connectors
          (holds_token-MayPush token))

  -- A request whose header has no bearer token, or whose token is that of no active connector of the tenant,
  -- is answered with 401 and changes nothing; neither does it where two connectors have the token, which
  -- raises. Where exactly one has it, the event is published as one message, with the id and the type of
  -- that connector, and no connector changes.
  pub ingest_event-Outcome :
      (authorization : Option String) (h : Hub)
      → Outcome authorization h (ingest_event digest tenant_id body authorization now h)
  unfolding ingest_event
  ingest_event-Outcome authorization h = bearer-Outcome authorization (bearer authorization) h refl
