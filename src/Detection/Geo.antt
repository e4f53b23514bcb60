-- ===== src/Detection/Geo.antt =====
-- backend/app/geo.py: the countries whose distance can be told.
use sentri_mesh_astra.Prelude.{ℕ, String, Option, none, some, List, [], ◌∷◌, lookup}

-- A coordinate in hundredths of a degree, north or east, or south or west.
pub data Degrees : Type 0 where
  plus minus : ℕ → Degrees

pub data Centroid : Type 0 where
  centroid : Degrees → Degrees → Centroid

-- `COUNTRY_CENTROIDS`
abbrev pub country_centroids : List (String × Centroid)
country_centroids =
    ("US", centroid (plus 3980) (minus 9860))
    ∷ ("CA", centroid (plus 5610) (minus 10630))
    ∷ ("GB", centroid (plus 5530) (minus 340))
    ∷ ("FR", centroid (plus 4620) (plus 220))
    ∷ ("DE", centroid (plus 5120) (plus 1050))
    ∷ ("IT", centroid (plus 4190) (plus 1260))
    ∷ ("ES", centroid (plus 4050) (minus 370))
    ∷ ("PT", centroid (plus 3940) (minus 820))
    ∷ ("NL", centroid (plus 5210) (plus 530))
    ∷ ("BE", centroid (plus 5050) (plus 450))
    ∷ ("CH", centroid (plus 4680) (plus 820))
    ∷ ("AT", centroid (plus 4750) (plus 1460))
    ∷ ("SE", centroid (plus 6010) (plus 1860))
    ∷ ("NO", centroid (plus 6050) (plus 850))
    ∷ ("FI", centroid (plus 6190) (plus 2570))
    ∷ ("DK", centroid (plus 5630) (plus 950))
    ∷ ("PL", centroid (plus 5190) (plus 1910))
    ∷ ("CZ", centroid (plus 4980) (plus 1550))
    ∷ ("GR", centroid (plus 3910) (plus 2180))
    ∷ ("RU", centroid (plus 6150) (plus 10530))
    ∷ ("UA", centroid (plus 4840) (plus 3120))
    ∷ ("TR", centroid (plus 3890) (plus 3520))
    ∷ ("IN", centroid (plus 2060) (plus 7890))
    ∷ ("CN", centroid (plus 3590) (plus 10420))
    ∷ ("JP", centroid (plus 3620) (plus 13830))
    ∷ ("KR", centroid (plus 3590) (plus 12780))
    ∷ ("AU", centroid (minus 2530) (plus 13380))
    ∷ ("NZ", centroid (minus 4090) (plus 17490))
    ∷ ("BR", centroid (minus 1420) (minus 5190))
    ∷ ("AR", centroid (minus 3840) (minus 6360))
    ∷ ("MX", centroid (plus 2360) (minus 10260))
    ∷ ("ZA", centroid (minus 3060) (plus 2290))
    ∷ ("NG", centroid (plus 910) (plus 870))
    ∷ ("EG", centroid (plus 2680) (plus 3080))
    ∷ ("SA", centroid (plus 2390) (plus 4510))
    ∷ ("AE", centroid (plus 2340) (plus 5380))
    ∷ ("IL", centroid (plus 3100) (plus 3490))
    ∷ ("IR", centroid (plus 3240) (plus 5370))
    ∷ ("PK", centroid (plus 3040) (plus 6930))
    ∷ ("BD", centroid (plus 2370) (plus 9040))
    ∷ ("ID", centroid (minus 80) (plus 11390))
    ∷ ("TH", centroid (plus 1590) (plus 10100))
    ∷ ("VN", centroid (plus 1410) (plus 10830))
    ∷ ("PH", centroid (plus 1290) (plus 12180))
    ∷ ("MY", centroid (plus 420) (plus 10800))
    ∷ ("SG", centroid (plus 135) (plus 10380))
    ∷ ("KE", centroid (plus 0) (plus 3790))
    ∷ ("GH", centroid (plus 790) (minus 100))
    ∷ ("CO", centroid (plus 460) (minus 7430))
    ∷ ("CL", centroid (minus 3570) (minus 7150))
    ∷ ("PE", centroid (minus 920) (minus 7500))
    ∷ ("VE", centroid (plus 640) (minus 6660))
    ∷ ("CU", centroid (plus 2150) (minus 7780))
    ∷ ("IE", centroid (plus 5340) (minus 820))
    ∷ ("RO", centroid (plus 4590) (plus 2490))
    ∷ ("HU", centroid (plus 4720) (plus 1950))
    ∷ ("BG", centroid (plus 4270) (plus 2550))
    ∷ ("RS", centroid (plus 4400) (plus 2100))
    ∷ ("HR", centroid (plus 4510) (plus 1520))
    ∷ ("SK", centroid (plus 4870) (plus 1970))
    ∷ ("SI", centroid (plus 4620) (plus 1490))
    ∷ ("IS", centroid (plus 6490) (minus 1900))
    ∷ ("KZ", centroid (plus 4800) (plus 6690))
    ∷ ("UZ", centroid (plus 4140) (plus 6460))
    ∷ ("AF", centroid (plus 3390) (plus 6770))
    ∷ ("IQ", centroid (plus 3320) (plus 4370))
    ∷ ("SY", centroid (plus 3480) (plus 3890))
    ∷ ("JO", centroid (plus 3060) (plus 3620))
    ∷ ("LB", centroid (plus 3390) (plus 3590))
    ∷ ("QA", centroid (plus 2540) (plus 5120))
    ∷ ("KW", centroid (plus 2930) (plus 4750))
    ∷ ("OM", centroid (plus 2150) (plus 5590))
    ∷ ("YE", centroid (plus 1560) (plus 4850))
    ∷ ("MA", centroid (plus 3180) (minus 710))
    ∷ ("DZ", centroid (plus 2800) (plus 170))
    ∷ ("TN", centroid (plus 3390) (plus 950))
    ∷ ("LY", centroid (plus 2630) (plus 1720))
    ∷ ("ET", centroid (plus 910) (plus 4050))
    ∷ ("TZ", centroid (minus 640) (plus 3490))
    ∷ ("UG", centroid (plus 140) (plus 3230))
    ∷ ("ZW", centroid (minus 1900) (plus 2920))
    ∷ ("ZM", centroid (minus 1310) (plus 2790))
    ∷ []

-- `haversine_km` of the coordinates of two countries of the table, the formula being a parameter.
unfoldable pub distance_km :
    (Degrees → Degrees → Degrees → Degrees → ℕ) → String → String → Option ℕ
distance_km haversine_km country_a country_b = elim (lookup country_a country_centroids) [
  | none ↦ none
  | some (centroid lat1 lon1) ↦ elim (lookup country_b country_centroids) [
    | none ↦ none
    | some (centroid lat2 lon2) ↦ some (haversine_km lat1 lon1 lat2 lon2)
  ]
]
