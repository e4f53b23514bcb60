-- ===== src/Json.antt =====
-- The JSON values that payloads, contexts and enrichments are made of, with the dict operations of
-- Python that the program applies to them. Numbers are integers: the program's floats are not here.
pub mod Laws
use sentri_mesh_astra.Prelude.{
  ℕ, String, Bool, true, false, not, ◌||◌, List, [], ◌∷◌, str_eq, ltb, if◌then◌else◌,
}
use Prim.Native.Nat.{compare}

mutual
  -- The dict of a JSON object, in the order in which its keys were first set.
  pub data Fields : Type 0 where
    no_fields : Fields
    entry : String → Value → Fields → Fields

  -- The list of a JSON array.
  pub data Elements : Type 0 where
    no_elements : Elements
    element : Value → Elements → Elements

  pub data Value : Type 0 where
    obj : Fields → Value
    arr : Elements → Value
    text : String → Value
    bool : Bool → Value
    -- `negative n` is -(n + 1).
    num negative : ℕ → Value
    null : Value

-- What `d.get(k)` returns, with `None` for a missing key.
unfoldable pub get : String → Fields → Value
get k no_fields = null
get k (entry j v d) = if str_eq k j then v else get k d

-- `k in d`
unfoldable pub has_key : String → Fields → Bool
has_key k no_fields = false
has_key k (entry j v d) = str_eq k j || has_key k d

-- `d.get(k, default)`
unfoldable pub get_or : String → Value → Fields → Value
get_or k default d = if has_key k d then get k d else default

-- `{**d, k: v}`
unfoldable pub put : String → Value → Fields → Fields
put k v no_fields = entry k v no_fields
put k v (entry j w d) = if str_eq k j then entry j v d else entry j w (put k v d)

-- `{**d, **e}`
unfoldable pub merge : Fields → Fields → Fields
merge d no_fields = d
merge d (entry k v e) = put k v (merge d e)

-- `bool(v)`
unfoldable pub truthy : Value → Bool
truthy null = false
truthy (bool b) = b
truthy (num n) = ltb 0 n
truthy (negative n) = true
truthy (text s) = not (str_eq s "")
truthy (arr no_elements) = false
truthy (arr (element _ _)) = true
truthy (obj no_fields) = false
truthy (obj (entry _ _ _)) = true

-- `v or w`
abbrev pub or_else : Value → Value → Value
or_else v w = if truthy v then v else w

abbrev pub elements_list : Elements → List Value
elements_list no_elements = []
elements_list (element v vs) = v ∷ elements_list vs

abbrev pub list_elements : List Value → Elements
list_elements [] = no_elements
list_elements (v ∷ vs) = element v (list_elements vs)
