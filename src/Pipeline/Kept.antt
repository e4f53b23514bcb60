-- ===== src/Pipeline/Kept.antt =====
-- What holds of the state and is kept by storing a verdict and by caching it is kept by `on_new_incident` of
-- backend/app/agents/threat_intel.py.
use sentri_mesh_astra.Prelude.{
  ℕ, String, Bool, true, false, Option, none, some, str_eq, if◌then◌else◌, raise, >>=_keeps,
  if_keeps, exception,
}
use sentri_mesh_astra.Pipeline.{
  enrich_with, enrich_verdict, on_new_incident, cache_indicator, Verdict, store_verdict,
}
use sentri_mesh_astra.Json.{
  negative, null, num, bool, arr, truthy, obj, entry, text, get, Value, no_fields, Fields,
}
use sentri_mesh_astra.Detection.{Act, Flow}

module _ (P : Flow → Type 0)
    (stores : (t j : ℕ) (update : Fields) (malicious : Bool) (now : ℕ) (s : Flow)
      → P s
      → P (store_verdict t j update malicious now s).1)
    (caches : (ip : String) (v : Verdict) (id now : ℕ) (s : Flow)
      → P s
      → P (cache_indicator ip v id now s).1) where
  abbrev Keeps : Act Unit → Type 0
  Keeps m = (s : Flow) → P s → P (m s).1

  unread-Keeps :
      (b : Bool) (t j now : ℕ)
      → Keeps (if b then raise exception else store_verdict t j no_fields false now)
  unread-Keeps true t j now s h = h
  unread-Keeps false t j now s h = stores t j no_fields false now s h

  enrich_verdict-Keeps :
      (found : Option Verdict) (t j id now : ℕ) (ip : String)
      → Keeps (enrich_verdict found t j id now ip)
  unfolding enrich_verdict
  enrich_verdict-Keeps none t j id now ip s h = h
  enrich_verdict-Keeps (some v) t j id now ip s h =
      let update = entry "ip_reputation" (obj (entry ip (obj v.details) no_fields)) no_fields in
      let malicious = str_eq v.verdict "malicious" in
      >>=_keeps P (cache_indicator ip v id now) (λ _. store_verdict t j update malicious now) s
        (caches ip v id now s h) (λ a e kept. stores t j update malicious now _ kept)

  enrich_with-Keeps :
      (lookup_ip : String → Option Verdict) (t j id now : ℕ) (v : Value)
      → Keeps (enrich_with lookup_ip t j id now v)
  unfolding enrich_with
  enrich_with-Keeps lookup_ip t j id now (text ip) = λ s h.
      if_keeps (λ (m : Act Unit). P (m s).1) (str_eq ip "") _ _
        (λ empty. stores t j no_fields false now s h)
        (λ address. enrich_verdict-Keeps (lookup_ip ip) t j id now ip s h)
  enrich_with-Keeps lookup_ip t j id now (obj d) = unread-Keeps (truthy (obj d)) t j now
  enrich_with-Keeps lookup_ip t j id now (arr d) = unread-Keeps (truthy (arr d)) t j now
  enrich_with-Keeps lookup_ip t j id now (bool d) = unread-Keeps (truthy (bool d)) t j now
  enrich_with-Keeps lookup_ip t j id now (num d) = unread-Keeps (truthy (num d)) t j now
  enrich_with-Keeps lookup_ip t j id now (negative d) = unread-Keeps (truthy (negative d)) t j now
  enrich_with-Keeps lookup_ip t j id now null = unread-Keeps (truthy null) t j now

  pub on_new_incident-Keeps :
      (lookup_ip : String → Option Verdict) (t j : ℕ) (context : Fields) (id now : ℕ)
      → Keeps (on_new_incident lookup_ip t j context id now)
  unfolding on_new_incident
  on_new_incident-Keeps lookup_ip t j context id now =
      enrich_with-Keeps lookup_ip t j id now (get "src_ip" context)
