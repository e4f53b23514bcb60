-- ===== src/Formats/Classification.antt =====
-- What the parsers of backend/app/connectors/log_formats.py can say of an event, and to whom they listen.
use sentri_mesh_astra.Formats.Shapes.{with_dict, with_items, with_sequence, with_text}
use sentri_mesh_astra.Prelude.{
  String, ◌≡◌, refl, subst, inl, inr, Bool, true, false, Option, some, List, [], ◌∷◌, arith, str_eq,
  if◌then◌else◌, Bool-cases, All, lookup, Result, ok, err, exception,
}
use sentri_mesh_astra.Json.{Value, Fields}
use sentri_mesh_astra.Formats.{
  NormalizedEvent, Parsed, wazuh_type, cloudtrail_type, azure_type, login_failed, login_success,
  without_outcome, wazuh_event, normalize_wazuh, normalize_cloudtrail, normalize_azure_ad,
  normalizers, normalize_for_connector_type, techniques,
}

-- The event types that are given together with their outcomes.
pub data Vocabulary : Value × Value → Type 0 where
  failed : Vocabulary login_failed
  succeeded : Vocabulary login_success
  escalation : Vocabulary (without_outcome "privilege_escalation")
  malware : Vocabulary (without_outcome "malware_detected")
  other : Vocabulary (without_outcome "other")

-- A parser ends with an event of the vocabulary, or raises.
unfoldable pub IsJudged : Parsed → Type 0
IsJudged (ok e) = Vocabulary (e.event_type, e.outcome)
IsJudged (err e) = e ≡ exception

with_dict-IsJudged :
    (v : Value) (next : Fields → Parsed)
    → ((d : Fields) → IsJudged (next d))
    → IsJudged (with_dict v next)
unfolding IsJudged with_dict
with_dict-IsJudged (Value.obj d) next h = h d
with_dict-IsJudged (Value.arr es) next h = refl
with_dict-IsJudged (Value.text s) next h = refl
with_dict-IsJudged (Value.bool b) next h = refl
with_dict-IsJudged (Value.num n) next h = refl
with_dict-IsJudged (Value.negative n) next h = refl
with_dict-IsJudged Value.null next h = refl

with_text-IsJudged :
    (v : Value) (next : String → Parsed)
    → ((s : String) → IsJudged (next s))
    → IsJudged (with_text v next)
unfolding IsJudged with_text
with_text-IsJudged (Value.text s) next h = h s
with_text-IsJudged (Value.arr es) next h = refl
with_text-IsJudged (Value.obj d) next h = refl
with_text-IsJudged (Value.bool b) next h = refl
with_text-IsJudged (Value.num n) next h = refl
with_text-IsJudged (Value.negative n) next h = refl
with_text-IsJudged Value.null next h = refl

with_items-IsJudged :
    (v : Value) (next : List Value → Parsed)
    → ((vs : List Value) → IsJudged (next vs))
    → IsJudged (with_items v next)
unfolding IsJudged with_items
with_items-IsJudged (Value.text s) next h = h _
with_items-IsJudged (Value.arr es) next h = h _
with_items-IsJudged (Value.obj d) next h = h _
with_items-IsJudged (Value.bool b) next h = refl
with_items-IsJudged (Value.num n) next h = refl
with_items-IsJudged (Value.negative n) next h = refl
with_items-IsJudged Value.null next h = refl

if_in :
    (b : Bool) (x y : Value × Value) → Vocabulary x → Vocabulary y → Vocabulary (if b then x else y)
if_in true x y h k = h
if_in false x y h k = k

wazuh_type-Vocabulary :
    (groups : Value) (description : String) → Vocabulary (wazuh_type groups description)
unfolding wazuh_type
wazuh_type-Vocabulary groups description = if_in _ _ _ Vocabulary.failed (
    if_in _ _ _ Vocabulary.succeeded
      (if_in _ _ _ Vocabulary.escalation (if_in _ _ _ Vocabulary.malware Vocabulary.other)))

cloudtrail_type-Vocabulary :
    (name code : Value) (response : Fields) → Vocabulary (cloudtrail_type name code response)
unfolding cloudtrail_type
cloudtrail_type-Vocabulary name code response =
    if_in _ _ _ (if_in _ _ _ Vocabulary.failed Vocabulary.succeeded)
      (if_in _ _ _ Vocabulary.escalation Vocabulary.other)

azure_type-Vocabulary : (code : Value) → Vocabulary (azure_type code)
unfolding azure_type
azure_type-Vocabulary code =
    if_in _ _ _ Vocabulary.succeeded (if_in _ _ _ Vocabulary.failed Vocabulary.other)

-- The techniques are a list, or their computation raises.
abbrev IsListed : Result (List Value) → Type 0
IsListed (ok vs) = Unit
IsListed (err e) = e ≡ exception

techniques-IsListed :
    (str : Value → String) (ids : List Value) (names : Value) → IsListed (techniques str ids names)
unfolding techniques with_sequence
techniques-IsListed str [] names = tt
techniques-IsListed str (t ∷ ids) (Value.arr es) = tt
techniques-IsListed str (t ∷ ids) (Value.text s) = tt
techniques-IsListed str (t ∷ ids) (Value.obj d) = refl
techniques-IsListed str (t ∷ ids) (Value.bool b) = refl
techniques-IsListed str (t ∷ ids) (Value.num n) = refl
techniques-IsListed str (t ∷ ids) (Value.negative n) = refl
techniques-IsListed str (t ∷ ids) Value.null = refl

ok-IsJudged : (e : NormalizedEvent) → Vocabulary (e.event_type, e.outcome) → IsJudged (ok e)
unfolding IsJudged
ok-IsJudged e h = h

if-IsJudged :
    (b : Bool) (e : NormalizedEvent)
    → Vocabulary (e.event_type, e.outcome)
    → IsJudged (if b then err exception else ok e)
unfolding IsJudged
if-IsJudged true e h = refl
if-IsJudged false e h = h

wazuh_event-IsJudged :
    (str : Value → String) (rule d agent : Fields) (description : String) (groups : Value)
    (mitre : Result (List Value))
    → IsListed mitre
    → IsJudged (wazuh_event str rule d agent description groups mitre)
unfolding wazuh_event IsJudged
wazuh_event-IsJudged str rule d agent description groups (err e) h = h
wazuh_event-IsJudged str rule d agent description groups (ok mitre) h =
    if-IsJudged _ _ (wazuh_type-Vocabulary groups description)

normalize_wazuh-IsJudged :
    (str : Value → String) (data_ : Fields) → IsJudged (normalize_wazuh str data_)
unfolding normalize_wazuh
normalize_wazuh-IsJudged str data_ = with_dict-IsJudged _ _ λ rule. with_dict-IsJudged _ _ λ d.
    with_dict-IsJudged _ _ λ mitre. with_text-IsJudged _ _ λ description.
      with_items-IsJudged _ _ λ ids.
        with_dict-IsJudged _ _
          λ agent. wazuh_event-IsJudged str rule d agent _ _ _ (techniques-IsListed str ids _)

normalize_cloudtrail-IsJudged : (data_ : Fields) → IsJudged (normalize_cloudtrail data_)
unfolding normalize_cloudtrail
normalize_cloudtrail-IsJudged data_ = with_dict-IsJudged _ _ λ user_identity.
    with_dict-IsJudged _ _
      λ response_elements. if-IsJudged _ _ (cloudtrail_type-Vocabulary _ _ response_elements)

normalize_azure_ad-IsJudged : (data_ : Fields) → IsJudged (normalize_azure_ad data_)
unfolding normalize_azure_ad
normalize_azure_ad-IsJudged data_ =
    with_dict-IsJudged _ _
      λ status. with_dict-IsJudged _ _ λ location. ok-IsJudged _ (azure_type-Vocabulary _)

lookup-All :
    {V : Type 0} (P : V → Type 0) (k : String) (table : List (String × V)) (v : V)
    → All (λ e. P e.1) table
    → lookup k table ≡ some v
    → P v
unfolding lookup
lookup-All P k [] v a h = cc
lookup-All P k ((j, w) ∷ rest) v a h = elim (Bool-cases (str_eq k j)) [
  | inl here ↦ let e : w ≡ v = ground arith in subst P e a.0
  | inr further ↦ lookup-All P k rest v a.1 (ground arith)
]

-- A connector whose registered type has a parser of its own: the type of event that the caller claims
-- makes no difference, and whatever it sends, the parser raises or says that the event is a failed or
-- successful login, with that outcome, an escalation of privileges, malware, or something else.
pub normalize_for_connector_type-IsJudged :
    (str : Value → String) (connector_type : String) (claimed other_claim : Option String)
    (data_ : Fields) (parser : Fields → Parsed)
    → lookup connector_type (normalizers str) ≡ some parser
    → IsJudged (normalize_for_connector_type str connector_type claimed data_)
      × (normalize_for_connector_type str connector_type claimed data_
          ≡ normalize_for_connector_type str connector_type other_claim data_)
unfolding normalize_for_connector_type
normalize_for_connector_type-IsJudged str connector_type claimed other_claim data_ parser found =
    rw (found, normalize_for_connector_type)
      (
        lookup-All (λ p. (d : Fields) → IsJudged (p d)) connector_type (normalizers str) parser
            (
              normalize_wazuh-IsJudged str,
              (
                normalize_cloudtrail-IsJudged,
                (normalize_cloudtrail-IsJudged, (normalize_azure_ad-IsJudged, tt)),
              ),
            )
            found data_,
        refl,
      )
