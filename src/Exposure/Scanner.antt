-- ===== src/Exposure/Scanner.antt =====
-- backend/app/connectors/exposure_scanner.py: what a request to a tenant's own domain shows.
use sentri_mesh_astra.Prelude.{
  String, ◌<>◌, ◌⊎◌, inl, inr, Bool, true, false, Option, none, some, List, [], ◌∷◌, ◌++◌, map,
  str_eq, if◌then◌else◌, is_some, lower,
}

pub record ExposureFinding : Type 0 where
  pub check : String
  pub status : String
  pub detail : String

pub record ExposureReport : Type 0 where
  pub domain : String
  pub reachable : Bool
  pub findings : List ExposureFinding

-- `SECURITY_HEADERS`
abbrev pub security_headers : List String
security_headers =
    "strict-transport-security" ∷ "content-security-policy" ∷ "x-frame-options"
    ∷ "x-content-type-options" ∷ []

abbrev finding : String → String → String → ExposureFinding
finding check status detail = record { check = check; status = status; detail = detail }

-- The headers with their names in lower case, where a later one replaces an earlier one.
abbrev lowered : List (String × String) → List (String × String)
lowered [] = []
lowered ((k, v) ∷ rest) = (lower k, v) ∷ lowered rest

abbrev last_value : String → List (String × String) → Option String
last_value k [] = none
last_value k ((j, v) ∷ rest) = elim (last_value k rest) [
  | some w ↦ some w
  | none ↦ if str_eq k j then some v else none
]

unfoldable pub check_header : List (String × String) → String → ExposureFinding
check_header headers header =
    if is_some (last_value header (lowered headers))
    then finding ("header:" <> header) "ok" (header <> " present.")
    else finding ("header:" <> header) "warning" (header <> " is missing from responses.")

-- `if server_header`
unfoldable pub check_server : Option String → List ExposureFinding
check_server none = []
check_server (some server) =
    if str_eq server ""
    then []
    else (finding "info-disclosure" "info"
          ("Server header discloses: '" <> (server <> "'. Consider suppressing it."))
        ∷ [])

-- `scan_domain`, with the headers of the response, or the text of the exception.
unfoldable pub scan_domain : String → List (String × String) ⊎ String → ExposureReport
scan_domain domain (inr exc) = record {
  domain = domain;
  reachable = false;
  findings =
      finding "connectivity" "warning" ("Could not reach https://" <> (domain <> (": " <> exc)))
      ∷ [];
}
scan_domain domain (inl headers) = record {
  domain = domain;
  reachable = true;
  findings =
      (finding "tls" "ok" "Site served over HTTPS." ∷ map (check_header headers) security_headers)
      ++ check_server (last_value "server" (lowered headers));
}
