-- ===== src/Detection/Continues.antt =====
-- When a row continues a campaign: the database check of backend/app/agents/detection.py.
use sentri_mesh_astra.Prelude.{String, ◌≡◌, refl, true, false, arith, str_eq, eq_refl}
use sentri_mesh_astra.Json.{Value, text, get, get_or, has_key, put, truthy, obj, no_fields}
use sentri_mesh_astra.Json.Laws.{get-put, has_key-put}
use sentri_mesh_astra.Models.{Incident, is_active_status}
use sentri_mesh_astra.Detection.{
  campaign_eq, Campaign, Fields, same_scalar, Sighting, campaign_of, context_of, continues,
  value_eq, is_hashable,
}

pub value_eq_self : (v : Value) → is_hashable v ≡ true → value_eq v v ≡ true
unfolding value_eq same_scalar
value_eq_self (Value.text a) h = eq_refl a
value_eq_self (Value.bool true) h = refl
value_eq_self (Value.bool false) h = refl
value_eq_self (Value.num n) h = ground arith
value_eq_self (Value.negative n) h = ground arith
value_eq_self Value.null h = refl
value_eq_self (Value.obj d) h = cc
value_eq_self (Value.arr es) h = cc

pub campaign_eq_self :
    (w : Sighting)
    → is_hashable (campaign_of w).src_ip ≡ true
    → campaign_eq (campaign_of w) (campaign_of w) ≡ true
campaign_eq_self w h = ground (arith, eq_refl w.technique_key, value_eq_self (campaign_of w).src_ip)

pub get_or-put :
    (k : String) (v default : Value) (d : Fields)
    → str_eq k k ≡ true
    → get_or k default (put k v d) ≡ v
unfolding get_or
get_or-put k v default d same = rw (has_key-put k k v d, get-put k k v d, same) refl

pub src_ip_there :
    (w : Sighting)
    → has_key "src_ip" w.context ≡ true
    → get "src_ip" w.context ≡ (campaign_of w).src_ip
unfolding get_or
src_ip_there w has = rw has refl

-- A row continues a sighting's campaign if it is one of the tenant, active, and has the sighting's
-- context.
pub stamped-continues :
    (w : Sighting) (i : Incident)
    → i.tenant_id ≡ w.tenant_id
    → is_active_status i.status ≡ true
    → get_or "context" (obj no_fields) i.enrichment ≡ context_of w
    → has_key "src_ip" w.context ≡ true
    → is_hashable (campaign_of w).src_ip ≡ true
    → truthy (campaign_of w).src_ip ≡ true
    → continues (campaign_of w) i ≡ true
unfolding continues
stamped-continues w i tenant active stamped has hashable real =
    let ip_there : get "src_ip" w.context ≡ (campaign_of w).src_ip = src_ip_there w has in
    rw
      (
        stamped,
        get-put "technique_key" "technique_key" (text w.technique_key) w.context,
        get-put "src_ip" "technique_key" (text w.technique_key) w.context,
      )
      (ground (
        arith,
        eq_refl w.technique_key,
        value_eq_self (text w.technique_key),
        value_eq_self (campaign_of w).src_ip,
        ip_there,
      ))

pub continues_active :
    (c : Campaign) (i : Incident) → continues c i ≡ true → is_active_status i.status ≡ true
unfolding continues
continues_active c i h = ground arith

pub continues_tenant :
    (c : Campaign) (i : Incident) → continues c i ≡ true → i.tenant_id ≡ c.tenant_id
unfolding continues
continues_tenant c i h = ground arith
