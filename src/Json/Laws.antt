-- ===== src/Json/Laws.antt =====
-- The dict operations on JSON objects, as equations in the keys.
use sentri_mesh_astra.Prelude.{String, ◌≡◌, refl, true, arith, str_eq, eq_iff, if◌then◌else◌}
use sentri_mesh_astra.Json.{Value, Fields, get, has_key, put, merge, no_fields, entry}

pub get-put :
    (j k : String) (v : Value) (d : Fields)
    → get j (put k v d) ≡ (if str_eq j k then v else get j d)
unfolding get put
get-put j k v no_fields = refl
get-put j k v (entry i w d) = ground (arith, eq_iff j k, eq_iff k i, eq_iff j i, get-put j k v d)

pub has_key-put :
    (j k : String) (v : Value) (d : Fields)
    → has_key j (put k v d) ≡ (if str_eq j k then true else has_key j d)
unfolding has_key put
has_key-put j k v no_fields = ground arith
has_key-put j k v (entry i w d) =
    ground (arith, eq_iff j k, eq_iff k i, eq_iff j i, has_key-put j k v d)

-- In `{**d, **e}` the keys of `e` win.
pub get-merge :
    (j : String) (d e : Fields) → get j (merge d e) ≡ (if has_key j e then get j e else get j d)
unfolding merge has_key get
get-merge j d no_fields = refl
get-merge j d (entry k v e) = simp get-put (ground (arith, get-merge j d e))

pub ruleset json_laws = (get-put, has_key-put, get-merge)
