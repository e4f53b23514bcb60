-- ===== src/Detection/Belongs.antt =====
-- The row of a campaign, whether the cache or the database finds it: backend/app/agents/detection.py.
use sentri_mesh_astra.Prelude.{
  String, ◌≡◌, refl, sym, ap, ◌∙◌, inl, inr, Bool, true, false, ◌&&◌, arith, eq_iff, ◌==◌,
  Bool-cases,
}
use sentri_mesh_astra.Json.{
  Value, Fields, text, num, negative, bool, null, obj, get, get_or, has_key, truthy, no_fields,
  entry,
}
use sentri_mesh_astra.Json.Laws.{get-put, has_key-put}
use sentri_mesh_astra.Models.{Incident, is_active_status}
use sentri_mesh_astra.Detection.{
  Campaign, Sighting, as_number, same_scalar, value_eq, campaign_eq, campaign_of, context_of,
  continues, dict,
}

abbrev pub context_in : Incident → Fields
context_in i = dict (get_or "context" (obj no_fields) i.enrichment)

-- An active row of the campaign. Unlike the database check, it reads a missing address as the key of the
-- cache does.
unfoldable pub belongs : Campaign → Incident → Bool
belongs c i =
    i.tenant_id == c.tenant_id
    && is_active_status i.status
    && value_eq (get "technique_key" (context_in i)) (text c.technique_key)
    && value_eq (get_or "src_ip" (text "") (context_in i)) c.src_ip

same_scalar_lem : (v w : Value) → same_scalar v w ≡ true → v ≡ w
unfolding same_scalar
same_scalar_lem (text a) (text b) h = ap text ((eq_iff a b).0 h)
same_scalar_lem (num m) (num n) h = ground arith
same_scalar_lem (negative m) (negative n) h = ground arith
same_scalar_lem null null h = refl
same_scalar_lem v w h = cc

value_eq_lem : (v w : Value) → value_eq v w ≡ true → as_number v ≡ as_number w
unfolding value_eq
value_eq_lem v w h = same_scalar_lem (as_number v) (as_number w) h

truthy_number : (v : Value) → truthy (as_number v) ≡ truthy v
unfolding truthy
truthy_number (bool true) = refl
truthy_number (bool false) = refl
truthy_number v = refl

value_eq_left : (u v w : Value) → value_eq u v ≡ true → value_eq u w ≡ value_eq v w
unfolding value_eq
value_eq_left u v w h = ap (λ x. same_scalar x (as_number w)) (value_eq_lem u v h)

value_eq_right : (u v w : Value) → value_eq v w ≡ true → value_eq u v ≡ value_eq u w
unfolding value_eq
value_eq_right u v w h = ap (same_scalar (as_number u)) (value_eq_lem v w h)

-- Equal keys have the same rows.
pub belongs_same :
    (c d : Campaign) (i : Incident) → campaign_eq c d ≡ true → belongs c i ≡ belongs d i
unfolding belongs
belongs_same c d i h = ground (
  arith,
  eq_iff c.technique_key d.technique_key,
  value_eq_right (get_or "src_ip" (text "") (context_in i)) c.src_ip d.src_ip,
)

same_text : (v : Value) (a b : String) → as_number v ≡ text a → as_number v ≡ text b → a ≡ b
same_text v a b p q = ground (arith, sym p ∙ q)

-- A row of two keys makes them equal.
pub belongs_both :
    (c d : Campaign) (i : Incident)
    → belongs c i ≡ true
    → belongs d i ≡ true
    → campaign_eq c d ≡ true
unfolding belongs
belongs_both c d i h k =
    let t = get "technique_key" (context_in i) in
    ground (
      arith,
      eq_iff c.technique_key d.technique_key,
      same_text t c.technique_key d.technique_key,
      value_eq_lem t (text c.technique_key),
      value_eq_lem t (text d.technique_key),
      value_eq_left (get_or "src_ip" (text "") (context_in i)) c.src_ip d.src_ip,
    )

truthy_same : (v w : Value) → value_eq v w ≡ true → truthy v ≡ truthy w
truthy_same v w h = sym (truthy_number v) ∙ (ap truthy (value_eq_lem v w h) ∙ truthy_number w)

pub truthy_campaign : (c d : Campaign) → campaign_eq c d ≡ true → truthy c.src_ip ≡ truthy d.src_ip
truthy_campaign c d h = truthy_same c.src_ip d.src_ip (ground (arith, h))

-- A missing address and an empty one are no address.
null_differs : (v : Value) → truthy v ≡ true → value_eq null v ≡ false
unfolding value_eq same_scalar truthy
null_differs null h = cc
null_differs v h = refl

empty_differs : (v : Value) → truthy v ≡ true → value_eq (text "") v ≡ false
unfolding value_eq same_scalar truthy
empty_differs (text s) h = ground (arith, eq_iff "" s, eq_iff s "")
empty_differs v h = refl

get_none : (k : String) (d : Fields) → has_key k d ≡ false → get k d ≡ null
unfolding get has_key
get_none k no_fields h = refl
get_none k (entry j v d) h = ground (arith, get_none k d)

-- The database check finds the rows of the campaigns that have an address.
pub continues-belongs :
    (c : Campaign) (i : Incident) → continues c i ≡ (belongs c i && truthy c.src_ip)
unfolding continues belongs get_or
continues-belongs c i = elim (Bool-cases (has_key "src_ip" (context_in i))) [
  | inl there ↦ rw there (ground arith)
  | inr missing ↦
      rw (missing, get_none "src_ip" (context_in i) missing)
        (ground (arith, null_differs c.src_ip, empty_differs c.src_ip))
]

-- A row that bears a sighting's context belongs to that sighting's campaign only.
pub belongs_stamped :
    (w : Sighting) (i : Incident) (c : Campaign)
    → i.tenant_id ≡ w.tenant_id
    → is_active_status i.status ≡ true
    → get_or "context" (obj no_fields) i.enrichment ≡ context_of w
    → belongs c i ≡ campaign_eq (campaign_of w) c
unfolding belongs get_or value_eq same_scalar
belongs_stamped w i c tenant active stamped =
    rw
      (
        stamped,
        get-put "technique_key" "technique_key" (text w.technique_key) w.context,
        get-put "src_ip" "technique_key" (text w.technique_key) w.context,
        has_key-put "src_ip" "technique_key" (text w.technique_key) w.context,
        tenant,
        active,
      )
      (ground arith)
