-- ===== src/Bus.antt =====
-- backend/app/bus.py: the messages that agents publish, and the audit log that is written first.
-- The payload of each channel is a constructor with the keys that its publishers put in.
mod Messages
use sentri_mesh_astra.Prelude.{ℕ, String, Option, List, [], ◌∷◌, ◌++◌}
pub use Messages.*
use sentri_mesh_astra.Json.{Fields}

pub data Payload : Type 0 where
  published : Message → ℕ → Payload
  details : Fields → Payload

pub record AuditLogEntry : Type 0 where
  pub tenant_id : Option ℕ
  pub actor : String
  pub action : String
  pub channel : String
  pub payload : Payload
  pub created_at : ℕ

-- The audit_log table, and what Redis has been given to deliver, oldest first.
pub record Bus : Type 0 where
  pub audit_log : List AuditLogEntry
  pub delivered : List Message

-- `_audit` and `audit`
unfoldable pub audit : String → String → String → Payload → Option ℕ → ℕ → Bus → Bus
audit actor action channel payload tenant_id now bus = record bus {
  audit_log =
      bus.audit_log
      ++ record {
        tenant_id = tenant_id;
        actor = actor;
        action = action;
        channel = channel;
        payload = payload;
        created_at = now;
      }
        ∷ [];
}

-- `publish`: the payload with `_published_at` is audited, and then handed to Redis.
unfoldable pub publish : String → Option ℕ → Message → ℕ → Bus → Bus
unfolding audit
publish actor tenant_id message now bus =
    let b = audit actor "publish" (channel_of message) (published message now) tenant_id now bus in
    record b { delivered = b.delivered ++ message ∷ [] }
