-- ===== src/Formats.antt =====
-- backend/app/connectors/log_formats.py: the vendors' log formats, normalized. A method call on a value
-- of another type is Python's AttributeError or TypeError.
use sentri_mesh_astra.Formats.Shapes.{
  equals_text, is_container, mentions, with_dict, with_items, with_sequence, with_text, within,
}
use sentri_mesh_astra.Prelude.{
  String, ◌<>◌, Bool, true, false, not, ◌&&◌, ◌||◌, Option, none, some, List, [], ◌∷◌, str_eq,
  if◌then◌else◌, any, lookup, lower, Result, ok, err, exception,
}
pub mod Classification
pub mod Shapes
mod Tests
use package.text.Mathlib.Text.{find?}
use sentri_mesh_astra.Json.{
  Value, Fields, no_fields, entry, no_elements, get, get_or, has_key, truthy, or_else, obj, arr,
  text, num, null, elements_list,
}
use sentri_mesh_astra.Detection.{value_eq, is_hashable}

pub record NormalizedEvent : Type 0 where
  pub event_type : Value
  pub src_ip : Value
  pub user : Value
  pub outcome : Value
  pub mitre_techniques : List Value
  pub country : Value
  pub extra : Fields

abbrev pub Parsed : Type 0
Parsed = Result NormalizedEvent

abbrev empty_dict : Value
empty_dict = obj no_fields

abbrev empty_list : Value
empty_list = arr no_elements

-- The event types and outcomes that the parsers assign.
abbrev pub login_failed : Value × Value
login_failed = (text "login_failed", text "failed")

abbrev pub login_success : Value × Value
login_success = (text "login_success", text "success")

abbrev pub without_outcome : String → Value × Value
without_outcome event_type = (text event_type, null)

-- The if-chain of `normalize_wazuh` on the groups and the description of a rule.
unfoldable pub wazuh_type : Value → String → Value × Value
wazuh_type groups description =
    if within groups "authentication_failed"
      || within groups "authentication_failures"
      || mentions "failed" description
    then login_failed
    else if within groups "authentication_success"
        || (mentions "logon" description && mentions "success" description)
    then login_success
    else if within groups "privilege_escalation"
        || within groups "sudo"
        || mentions "privilege" description
    then without_outcome "privilege_escalation"
    else if any (within groups) ("rootcheck" ∷ "malware" ∷ "virus" ∷ [])
        || any (λ w. mentions w description) ("trojan" ∷ "malware" ∷ "rootkit" ∷ [])
    then without_outcome "malware_detected"
    else without_outcome "other"

unfoldable pub cloudtrail_privilege_events : List String
cloudtrail_privilege_events =
    "CreateUser" ∷ "CreateAccessKey" ∷ "AttachUserPolicy" ∷ "PutUserPolicy" ∷ "AttachRolePolicy"
    ∷ "CreateRole" ∷ "AddUserToGroup" ∷ "CreateLoginProfile" ∷ []

unfoldable pub cloudtrail_type : Value → Value → Fields → Value × Value
cloudtrail_type event_name error_code response_elements =
    if equals_text "ConsoleLogin" event_name
    then (if truthy error_code || equals_text "Failure" (get "ConsoleLogin" response_elements)
        then login_failed
        else login_success)
    else if any (λ e. equals_text e event_name) cloudtrail_privilege_events
    then without_outcome "privilege_escalation"
    else without_outcome "other"

abbrev is_null : Value → Bool
is_null null = true
is_null _ = false

unfoldable pub azure_type : Value → Value × Value
azure_type error_code =
    if value_eq error_code (num 0)
    then login_success
    else if not (is_null error_code)
    then login_failed
    else without_outcome "other"

abbrev event : Value × Value → Value → Value → List Value → Value → Fields → NormalizedEvent
event kind src_ip user mitre country extra = record {
  event_type = kind.0;
  src_ip = src_ip;
  user = user;
  outcome = kind.1;
  mitre_techniques = mitre;
  country = country;
  extra = extra;
}

module _ (str : Value → String) where
  -- The comprehension over `enumerate(mitre_ids)`, with the names from the same index on.
  abbrev titled : List Value → List Value → List Value
  titled [] names = []
  titled (tid ∷ ids) [] = tid ∷ titled ids []
  titled (tid ∷ ids) (name ∷ names) =
      (if truthy name then text (str tid <> (" - " <> str name)) else tid) ∷ titled ids names

  -- The names are looked at only if there is an id.
  unfoldable pub techniques : List Value → Value → Result (List Value)
  techniques [] names = ok []
  techniques (tid ∷ ids) names = with_sequence names (λ ns. ok (titled (tid ∷ ids) ns))

  abbrev wazuh_extra : Fields → Fields → Fields
  wazuh_extra rule agent = entry "rule_id" (get "id" rule) (
      entry "rule_level" (get "level" rule) (
        entry "rule_description" (get "description" rule)
          (entry "agent" (get "name" agent) no_fields)))

  -- The end of `normalize_wazuh`, where the groups are looked at.
  unfoldable pub wazuh_event :
      Fields → Fields → Fields → String → Value → Result (List Value) → Parsed
  wazuh_event rule d agent description groups (err e) = err e
  wazuh_event rule d agent description groups (ok mitre) =
      if not (is_container groups)
      then err exception
      else ok (
          event (wazuh_type groups description) (or_else (get "srcip" d) (get "src_ip" d))
            (or_else (get "srcuser" d) (or_else (get "dstuser" d) (get "user" d))) mitre null
            (wazuh_extra rule agent))

  -- `normalize_wazuh`
  unfoldable pub normalize_wazuh : Fields → Parsed
  normalize_wazuh data_ = with_dict (or_else (get "rule" data_) empty_dict) λ rule.
      with_dict (or_else (get "data" data_) empty_dict) λ d.
        with_dict (or_else (get "mitre" rule) empty_dict) λ mitre.
          with_text (or_else (get "description" rule) (text "")) λ description.
            with_items (or_else (get "id" mitre) empty_list) λ ids.
              with_dict (or_else (get "agent" data_) empty_dict) λ agent.
                wazuh_event rule d agent (lower description)
                  (or_else (get "groups" rule) empty_list)
                  (techniques ids (or_else (get "technique" mitre) empty_list))

-- `normalize_cloudtrail`; a list or a dict in place of the name is no member that a set can have.
unfoldable pub normalize_cloudtrail : Fields → Parsed
normalize_cloudtrail data_ =
    with_dict (or_else (get "userIdentity" data_) empty_dict) λ user_identity.
      with_dict (or_else (get "responseElements" data_) empty_dict) λ response_elements.
        let event_name = get_or "eventName" (text "") data_ in
        let error_code = get "errorCode" data_ in
        if not (is_hashable event_name)
        then err exception
        else ok (
            event (cloudtrail_type event_name error_code response_elements)
              (get "sourceIPAddress" data_)
              (or_else (get "userName" user_identity) (get "arn" user_identity)) [] null
              (entry "event_name" event_name (
                entry "event_source" (get "eventSource" data_) (
                  entry "aws_region" (get "awsRegion" data_)
                    (entry "error_code" error_code no_fields)))))

-- `normalize_azure_ad`
unfoldable pub normalize_azure_ad : Fields → Parsed
normalize_azure_ad data_ = with_dict (or_else (get "status" data_) empty_dict) λ status.
    with_dict (or_else (get "location" data_) empty_dict) λ location.
      let error_code = get "errorCode" status in
      ok (
        event (azure_type error_code) (get "ipAddress" data_) (get "userPrincipalName" data_) []
          (get "countryOrRegion" location)
          (entry "app" (get "appDisplayName" data_) (
            entry "failure_reason" (get "failureReason" status)
              (entry "error_code" error_code (entry "city" (get "city" location) no_fields)))))

-- `event_type or "other"`
abbrev pub type_or_other : Option String → String
type_or_other none = "other"
type_or_other (some s) = if str_eq s "" then "other" else s

-- `normalize_generic`
unfoldable pub normalize_generic : Option String → Fields → Parsed
normalize_generic event_type data_ = ok (
    event (text (type_or_other event_type), get "outcome" data_)
      (or_else (get "src_ip" data_) (get "source_ip" data_))
      (or_else (get "user" data_) (get "username" data_)) [] (get "country" data_) no_fields)

-- `_NORMALIZERS`
abbrev pub normalizers : (Value → String) → List (String × (Fields → Parsed))
normalizers str =
    ("wazuh", normalize_wazuh str)
    ∷ ("cloudtrail", normalize_cloudtrail)
    ∷ ("aws_cloudtrail", normalize_cloudtrail)
    ∷ ("azure_ad", normalize_azure_ad)
    ∷ []

-- `normalize_for_connector_type`
unfoldable pub normalize_for_connector_type :
    (Value → String) → String → Option String → Fields → Parsed
normalize_for_connector_type str connector_type event_type data_ =
    elim (lookup connector_type (normalizers str)) [
      | none ↦ normalize_generic event_type data_
      | some parser ↦ parser data_
    ]
