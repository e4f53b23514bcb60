-- ===== src/Formats/Shapes.antt =====
-- What Python does with a JSON value of any shape where backend/app/connectors/log_formats.py expects a
-- dict, a text or a sequence.
use sentri_mesh_astra.Prelude.{
  String, Bool, true, false, List, [], ◌∷◌, map, str_eq, is_some, any, letters, Result, err,
  exception,
}
use package.text.Mathlib.Text.{find?}
use sentri_mesh_astra.Json.{Value, Fields, no_fields, entry, has_key, obj, arr, text, elements_list}

-- What the code does next with a value that it uses as a dict, or as a text.
unfoldable pub with_dict : {A : Type 0} → Value → (Fields → Result A) → Result A
with_dict (obj d) next = next d
with_dict _ next = err exception

unfoldable pub with_text : {A : Type 0} → Value → (String → Result A) → Result A
with_text (text s) next = next s
with_text _ next = err exception

-- What a `for` loop goes through: the items of a list, the keys of a dict, the characters of a text.
abbrev pub characters : String → List Value
characters s = map text (letters s)

abbrev pub keys : Fields → List Value
keys no_fields = []
keys (entry k v d) = text k ∷ keys d

unfoldable pub with_items : {A : Type 0} → Value → (List Value → Result A) → Result A
with_items (arr es) next = next (elements_list es)
with_items (obj d) next = next (keys d)
with_items (text s) next = next (characters s)
with_items _ next = err exception

-- `v[i]` and `len(v)` take a list or a text.
unfoldable pub with_sequence : {A : Type 0} → Value → (List Value → Result A) → Result A
with_sequence (arr es) next = next (elements_list es)
with_sequence (text s) next = next (characters s)
with_sequence _ next = err exception

abbrev pub mentions : String → String → Bool
mentions word s = is_some (find? s word)

abbrev pub equals_text : String → Value → Bool
equals_text s (text t) = str_eq t s
equals_text s _ = false

-- `word in groups`
abbrev pub within : Value → String → Bool
within (arr es) word = any (equals_text word) (elements_list es)
within (obj d) word = has_key word d
within (text s) word = mentions word s
within _ word = false

-- `in` on a number, a truth value or `None` is a `TypeError`.
abbrev pub is_container : Value → Bool
is_container (arr _) = true
is_container (obj _) = true
is_container (text _) = true
is_container _ = false
