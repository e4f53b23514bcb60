-- ===== src/Connectors.antt =====
-- backend/app/connector_auth.py, backend/app/routers/connectors.py and backend/app/routers/ingest.py:
-- connectors, their secret tokens, and the events that they push. SHA-256 and the random part of a
-- token are arguments.
pub mod Rotation
pub mod Ingest
mod Tests
use sentri_mesh_astra.Prelude.{
  ℕ, String, ◌<>◌, Bool, true, false, ◌&&◌, ◌||◌, Option, none, some, List, [], ◌∷◌, ◌++◌, map,
  str_eq, ◌==◌, if◌then◌else◌, is_some, any, keep, first, update_first, Action, gets, raise, pure,
  modify, raise_if, one_or_none, ◌>>=◌, ◌>>◌, lower, strip, after_space, http, exception,
}
use text.Mathlib.Text.{starts_with}
use sentri_mesh_astra.Json.{Fields}
use sentri_mesh_astra.Models.{User, ConnectorConfig}
use sentri_mesh_astra.Bus.{Bus, Message, Package, publish}
use sentri_mesh_astra.Control.{check_tenant_access, or_404}

pub record Hub : Type 0 where
  pub connectors : List ConnectorConfig
  pub bus : Bus

-- `TOKEN_PREFIX + secrets.token_urlsafe(32)`
abbrev pub token_of : String → String
token_of secret = "smac_" <> secret

abbrev pub is_connector_token : String → Bool
is_connector_token bearer = starts_with bearer "smac_"

unfoldable pub hash_is : String → ConnectorConfig → Bool
hash_is h c = elim c.token_hash [ none ↦ false | some g ↦ str_eq g h ]

abbrev pub connector_of_tenant : ℕ → ℕ → ConnectorConfig → Bool
connector_of_tenant k tenant_id c = c.id == k && c.tenant_id == tenant_id

pub record ConnectorOut : Type 0 where
  pub id : ℕ
  pub connector_type : String
  pub display_name : String
  pub is_active : Bool
  pub has_token : Bool
  pub last_event_at : Option ℕ

abbrev pub out : ConnectorConfig → ConnectorOut
out c = record {
  id = c.id;
  connector_type = c.connector_type;
  display_name = c.display_name;
  is_active = c.is_active;
  has_token = is_some c.token_hash;
  last_event_at = c.last_event_at;
}

pub record ConnectorCreate : Type 0 where
  pub connector_type : String
  pub display_name : String
  pub config : Fields

pub record IngestEvent : Type 0 where
  pub source : String
  pub event_type : Option String
  pub occurred_at : Option ℕ
  pub content : Fields

abbrev pub Act : Type 0 → Type 0
Act A = Action Hub A

-- `x or y` on texts.
abbrev pub text_or : String → String → String
text_or x y = if str_eq x "" then y else x

-- `not authorization or not authorization.lower().startswith("bearer ")`
unfoldable pub bearer : Option String → Option String
bearer none = none
bearer (some a) = if starts_with (lower a) "bearer " then some (strip (after_space a)) else none

module _ (digest : String → String) where
  -- The rows of `authenticate_connector`.
  abbrev pub holds_token : ℕ → String → ConnectorConfig → Bool
  holds_token tenant_id token c =
      c.tenant_id == tenant_id && hash_is (digest token) c && c.is_active

  -- `authenticate_connector`
  unfoldable pub authenticate_connector : String → ℕ → Act (Option ConnectorConfig)
  authenticate_connector token tenant_id = do
    rows ← gets (λ h. keep (holds_token tenant_id token) h.connectors)
    one_or_none rows

  abbrev pub raw_event_of : ConnectorConfig → ℕ → IngestEvent → Message
  raw_event_of c tenant_id body = Message.raw_event (record {
    tenant_id = tenant_id;
    connector_id = some c.id;
    connector_type = c.connector_type;
    source = body.source;
    event_type = body.event_type;
    occurred_at = body.occurred_at;
    content = body.content;
  })

  abbrev pub accept : ℕ → IngestEvent → ℕ → ConnectorConfig → Hub → Hub
  accept tenant_id body now c h = record h {
    bus =
        publish ("connector:" <> text_or c.display_name c.connector_type) (some tenant_id)
          (raw_event_of c tenant_id body) now h.bus;
  }

  -- `ingest_event` behind the check of its header.
  unfoldable pub ingest_with : ℕ → IngestEvent → ℕ → Option String → Act Unit
  ingest_with tenant_id body now none = raise (http 401)
  ingest_with tenant_id body now (some token) = do
    connector ← authenticate_connector token tenant_id
    elim connector [ none ↦ raise (http 401) | some c ↦ modify (accept tenant_id body now c) ]

  -- `ingest_event`
  unfoldable pub ingest_event : ℕ → IngestEvent → Option String → ℕ → Act Unit
  ingest_event tenant_id body authorization now =
      ingest_with tenant_id body now (bearer authorization)

  abbrev pub connector_of : ℕ → ℕ → ConnectorCreate → String → ℕ → ConnectorConfig
  connector_of id tenant_id body secret now = record {
    id = id;
    tenant_id = tenant_id;
    connector_type = body.connector_type;
    display_name = text_or body.display_name body.connector_type;
    config = body.config;
    is_active = true;
    last_event_at = none;
    created_at = now;
    token_hash = some (digest (token_of secret));
  }

  -- `add_connector`; ids and token hashes are unique in the table.
  unfoldable pub add_connector :
      User → ℕ → ConnectorCreate → ℕ → String → ℕ → Act (ConnectorOut × String)
  add_connector user tenant_id body id secret now = do
    check_tenant_access user tenant_id
    taken ← gets (λ h. any (λ c. c.id == id || hash_is (digest (token_of secret)) c) h.connectors)
    raise_if taken exception
    modify (λ h. record h {
      connectors = h.connectors ++ connector_of id tenant_id body secret now ∷ [];
    })
    pure (out (connector_of id tenant_id body secret now), token_of secret)

  abbrev pub with_token : String → ConnectorConfig → ConnectorConfig
  with_token token c = record c { token_hash = some (digest token) }

  -- `rotate_token`
  unfoldable pub rotate_token : User → ℕ → ℕ → String → Act (ConnectorOut × String)
  rotate_token user tenant_id connector_id secret = do
    check_tenant_access user tenant_id
    found ← gets (λ h. first (connector_of_tenant connector_id tenant_id) h.connectors)
    c ← or_404 found
    taken ← gets (λ h. any (hash_is (digest (token_of secret))) h.connectors)
    raise_if taken exception
    modify (λ h. record h {
      connectors =
          update_first (connector_of_tenant connector_id tenant_id) (with_token (token_of secret))
            h.connectors;
    })
    pure (out (with_token (token_of secret) c), token_of secret)

-- `list_connectors`
unfoldable pub list_connectors : User → ℕ → Act (List ConnectorOut)
list_connectors user tenant_id = do
  check_tenant_access user tenant_id
  gets (λ h. map out (keep (λ c. c.tenant_id == tenant_id) h.connectors))

abbrev publish_api : ℕ → Message → ℕ → Act Unit
publish_api tenant_id message now =
    modify (λ h. record h { bus = publish "api" (some tenant_id) message now h.bus })

-- `request_exposure_scan` and `request_dependency_scan`
unfoldable pub request_exposure_scan : User → ℕ → String → ℕ → Act Unit
request_exposure_scan user tenant_id domain now = do
  check_tenant_access user tenant_id
  publish_api tenant_id (Message.scan_requested tenant_id domain) now

unfoldable pub request_dependency_scan : User → ℕ → List Package → ℕ → Act Unit
request_dependency_scan user tenant_id packages now = do
  check_tenant_access user tenant_id
  publish_api tenant_id (Message.dependency_scan_requested tenant_id packages) now
