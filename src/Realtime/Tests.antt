-- ===== src/Realtime/Tests.antt =====
-- A socket of a security holder, and messages of two tenants.
use sentri_mesh_astra.Prelude.{String, ◌≡◌, refl, some, List, [], ◌∷◌, str_eq}
use sentri_mesh_astra.Json.{no_fields}
use sentri_mesh_astra.Bus.{Message}
use sentri_mesh_astra.Window.{empty}
use sentri_mesh_astra.Control.{has_access}
use sentri_mesh_astra.Control.Sample.{holder}
use sentri_mesh_astra.Auth.{Portal}
use sentri_mesh_astra.Auth.Accounts.{Crypto, claims_of, user_from_jwt, user_of_claims}
use sentri_mesh_astra.Listening.{Incoming}
use sentri_mesh_astra.Realtime.{
  Handshake, accepted, tenant_events_ws, authenticate, admit, stream_tenant_events,
}
use sentri_mesh_astra.Realtime.Isolation.{IsEntitled, tenant_events_ws-IsEntitled}

abbrev any_token : Crypto
any_token = record {
  hash = λ salt password. password;
  verify = str_eq;
  encode = λ c. "token";
  decode = λ token now. some (claims_of 720 holder 0);
}

abbrev portal : Portal
portal = record {
  users = holder ∷ [];
  redis = λ k. empty;
  bus = record { audit_log = []; delivered = [] };
}

abbrev from_console : Handshake
from_console = record { origin = some "https://console.test"; token = some "token" }

abbrev carried : List (Incoming Message)
carried =
    record {
      kind = "message";
      channel = "reports.ready";
      payload = some (Message.report_ready 2 8);
    }
    ∷ record {
      kind = "message";
      channel = "reports.ready";
      payload = some (Message.report_ready 1 9);
    }
    ∷ record {
      kind = "message";
      channel = "events.normalized";
      payload = some (Message.normalized_event 1 4 no_fields);
    }
    ∷ []

abbrev shown : List (String × Message)
shown = ("reports.ready", Message.report_ready 1 9) ∷ []

opened :
    tenant_events_ws any_token 720 ("https://console.test" ∷ []) 1 from_console 5 portal carried
    ≡ accepted shown
unfolding tenant_events_ws authenticate admit stream_tenant_events user_from_jwt user_of_claims
    has_access
opened = refl

tenant_events_ws-IsEntitled_example :
    IsEntitled any_token 720 ("https://console.test" ∷ []) 1 from_console 5 portal carried shown
tenant_events_ws-IsEntitled_example =
    tenant_events_ws-IsEntitled any_token 720 ("https://console.test" ∷ []) 1 from_console 5 portal
      carried shown opened
