-- ===== src/ThreatFeed/Sources.antt =====
-- backend/app/connectors/threat_feed.py: what each of the six sources says of an address. An HTTP exchange
-- is its status and the JSON of its body, or a failure.
use sentri_mesh_astra.Prelude.{
  ℕ, zero, suc, String, ◌<>◌, Bool, false, not, ◌||◌, Option, none, some, List, [], ◌∷◌, map,
  str_eq, ◌==◌, if◌then◌else◌, length,
}
use Prim.Native.String.{compare}
use Prim.Native.Nat.{lt, eq, gt}
use sentri_mesh_astra.ThreatFeed.Bodies.{
  Reading, returns, caught, raises, and_read, dict_of, section_of, list_of, int_of, at_least,
}
use sentri_mesh_astra.Json.{
  Value, Fields, get, get_or, entry, no_fields, truthy, or_else, arr, text, num, bool,
  list_elements,
}

-- `httpx`'s response with its status and its body, if that is JSON; `none` for an exception that the lookup
-- catches.
abbrev pub Response : Type 0
Response = Option (ℕ × Option Value)

pub record SourceResult : Type 0 where
  pub verdict : String
  pub detail : String
  pub raw : Fields

-- `v == s` for a literal text.
abbrev text_is : String → Value → Bool
text_is s (text t) = str_eq t s
text_is s _ = false

abbrev take_first : ℕ → List Value → List Value
take_first zero vs = []
take_first (suc n) [] = []
take_first (suc n) (v ∷ vs) = v ∷ take_first n vs

-- The body as a dict, once the status is 200.
abbrev pub judged_body : (Fields → Reading SourceResult) → Option Value → Reading SourceResult
judged_body judge none = caught
judged_body judge (some body) = and_read (dict_of body) judge

-- `response.status_code != 200` and the exceptions that are caught end a lookup with `None`.
unfoldable pub on_success : (Fields → Reading SourceResult) → Response → Reading SourceResult
on_success judge none = caught
on_success judge (some (status, body)) = if status == 200 then judged_body judge body else caught

-- A 404 of GreyNoise and Shodan says that there is no data.
unfoldable pub or_no_data :
    String → (Fields → Reading SourceResult) → Response → Reading SourceResult
or_no_data detail judge none = caught
or_no_data detail judge (some (status, body)) =
    if status == 404
    then returns (record { verdict = "unknown"; detail = detail; raw = no_fields })
    else on_success judge (some (status, body))

-- `sorted({…})` of texts: each once, in the order of their characters.
abbrev insert_text : String → List String → List String
insert_text s [] = s ∷ []
insert_text s (t ∷ ts) = elim (compare s t) [
  | lt ↦ s ∷ t ∷ ts
  | eq ↦ t ∷ ts
  | gt ↦ t ∷ insert_text s ts
]

abbrev sorted_set : List String → List String
sorted_set [] = []
sorted_set (s ∷ ss) = insert_text s (sorted_set ss)

-- `", ".join(names)` and `",".join(names)`
abbrev pub join : String → List String → String
join separator [] = ""
join separator (s ∷ []) = s
join separator (s ∷ t ∷ ts) = s <> (separator <> join separator (t ∷ ts))

-- `{m.get("malware_printable") for m in matches if …}` as it is joined: a match that is no dict, and a name
-- that is truthy and no text, raise.
abbrev name_and : Value → List String → Reading (List String)
name_and (text s) names = returns (if str_eq s "" then names else s ∷ names)
name_and v names = if truthy v then raises else returns names

abbrev names_of : List Value → Reading (List String)
names_of [] = returns []
names_of (m ∷ ms) =
    and_read (dict_of m) (λ d. and_read (names_of ms) (name_and (get "malware_printable" d)))

-- The prose of the sources prints numbers and values with Python's `str`; `parse_int` is its `int` of a
-- text.
module _ (str : Value → String) (parse_int : String → Option Value) where
  abbrev int : String → Fields → Reading Value
  int key d = int_of parse_int (get_or key (num 0) d)

  abbrev abuse_result : Value → Value → SourceResult
  abuse_result score total_reports = record {
    verdict =
        if at_least 50 score
        then "malicious"
        else if at_least 1 score || at_least 1 total_reports
        then "suspicious"
        else "clean";
    detail =
        "AbuseIPDB confidence "
        <> (str score <> ("/100 (" <> (str total_reports <> " report(s))")));
    raw = entry "score" score (entry "total_reports" total_reports no_fields);
  }

  unfoldable pub abuseipdb : Fields → Reading SourceResult
  abuseipdb body = and_read (section_of "data" body) (λ data_.
      and_read (int "abuseConfidenceScore" data_) (λ score.
        and_read (int "totalReports" data_)
          (λ total_reports. returns (abuse_result score total_reports))))

  abbrev engines_result : Value → Value → SourceResult
  engines_result malicious suspicious = record {
    verdict =
        if at_least 2 malicious
        then "malicious"
        else if at_least 1 malicious || at_least 1 suspicious
        then "suspicious"
        else "clean";
    detail =
        "VirusTotal "
        <> (str malicious <> (" malicious / " <> (str suspicious <> " suspicious engine(s)")));
    raw = entry "malicious" malicious (entry "suspicious" suspicious no_fields);
  }

  unfoldable pub virustotal : Fields → Reading SourceResult
  virustotal body = and_read (section_of "data" body) (λ data_.
      and_read (section_of "attributes" data_) (λ attributes.
        and_read (section_of "last_analysis_stats" attributes) (λ stats.
          and_read (int "malicious" stats) (λ malicious.
            and_read (int "suspicious" stats)
              (λ suspicious. returns (engines_result malicious suspicious))))))

  abbrev pub pulses_result : Value → SourceResult
  pulses_result pulse_count = record {
    verdict =
        if at_least 3 pulse_count
        then "malicious"
        else if at_least 1 pulse_count
        then "suspicious"
        else "clean";
    detail = "AlienVault OTX referenced in " <> (str pulse_count <> " threat-intel pulse(s)");
    raw = entry "pulse_count" pulse_count no_fields;
  }

  unfoldable pub otx : Fields → Reading SourceResult
  otx body = and_read (section_of "pulse_info" body) (λ pulse_info.
      and_read (int "count" pulse_info) (λ pulse_count. returns (pulses_result pulse_count)))

  unfoldable pub greynoise : Fields → Reading SourceResult
  greynoise body =
      let classification = get_or "classification" (text "unknown") body in
      let riot = truthy (get_or "riot" (bool false) body) in
      let noise = truthy (get_or "noise" (bool false) body) in
      returns (record {
        verdict =
            if riot
            then "clean"
            else if text_is "malicious" classification
            then "malicious"
            else if text_is "benign" classification
            then "clean"
            else "unknown";
        detail =
            ("GreyNoise: " <> str (or_else (get "name" body) classification))
            <> ((if riot then " (RIOT — known business service)" else "")
                <> (if noise then " (internet-wide scanner)" else ""));
        raw =
            entry "classification" classification
              (entry "riot" (bool riot) (entry "noise" (bool noise) no_fields));
      })

  abbrev pub ports_result : Value → Value → List Value → List Value → SourceResult
  ports_result ports vulns open_ports known = record {
    verdict = if truthy vulns then "suspicious" else "unknown";
    detail =
        ("Shodan: " <> (str (num (length open_ports)) <> " open port(s)"))
        <> (if truthy vulns
            then ", " <> (str (num (length known)) <> " known CVE(s) on exposed services")
            else "");
    raw = entry "ports" ports (entry "vulns" (arr (list_elements (take_first 10 known))) no_fields);
  }

  unfoldable pub shodan : Fields → Reading SourceResult
  shodan body =
      let ports = get_or "ports" (arr (list_elements [])) body in
      let vulns = get_or "vulns" (arr (list_elements [])) body in
      and_read (list_of ports) (λ open_ports.
        and_read (list_of vulns) (λ known. returns (ports_result ports vulns open_ports known)))

  abbrev matched_result : List Value → List String → SourceResult
  matched_result matches names = record {
    verdict = "malicious";
    detail =
        "ThreatFox: confirmed IOC match ("
        <> ((if str_eq (join ", " names) "" then "unattributed" else join ", " names) <> ")");
    raw =
        entry "malware" (arr (list_elements (map text names)))
          (entry "match_count" (num (length matches)) no_fields);
  }

  unfoldable pub threatfox : Fields → Reading SourceResult
  threatfox body =
      if not (text_is "ok" (get "query_status" body))
      then returns
          (record { verdict = "clean"; detail = "ThreatFox: no known IOC match"; raw = no_fields })
      else and_read (list_of (or_else (get "data" body) (arr (list_elements [])))) (λ matches.
        and_read (names_of matches) (λ names. returns (matched_result matches (sorted_set names))))
