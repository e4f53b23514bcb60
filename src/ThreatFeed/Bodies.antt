-- ===== src/ThreatFeed/Bodies.antt =====
-- Reading a JSON body in Python: a value, an exception that the lookups of
-- backend/app/connectors/threat_feed.py catch, or one that they do not.
use sentri_mesh_astra.Prelude.{ℕ, String, Bool, false, Option, none, some, List, leb, if◌then◌else◌}
use sentri_mesh_astra.Json.{
  Value, Fields, no_fields, get_or, obj, arr, text, num, negative, bool, elements_list,
}
use sentri_mesh_astra.Formats.Shapes.{keys, characters}

-- `caught` is a `ValueError`, and `raises` an `AttributeError` or a `TypeError`.
pub data Reading (A : Type 0) : Type 0 where
  returns : A → Reading A
  caught raises : Reading A

module _ {A B : Type 0} where
  abbrev pub and_read : Reading A → (A → Reading B) → Reading B
  and_read (returns a) f = f a
  and_read caught f = caught
  and_read raises f = raises

-- What has a method `get`.
abbrev pub dict_of : Value → Reading Fields
dict_of (obj d) = returns d
dict_of _ = raises

-- `body.get(key, {})`, of which more is read.
abbrev pub section_of : String → Fields → Reading Fields
section_of key d = dict_of (get_or key (obj no_fields) d)

-- `list(v)`, whose length is `len(v)`.
abbrev pub list_of : Value → Reading (List Value)
list_of (arr es) = returns (elements_list es)
list_of (obj d) = returns (keys d)
list_of (text s) = returns (characters s)
list_of _ = raises

-- `int(v)`, where `parse_int` is `int` of a text, `none` for a `ValueError`.
abbrev pub int_of : (String → Option Value) → Value → Reading Value
int_of parse_int (num n) = returns (num n)
int_of parse_int (negative n) = returns (negative n)
int_of parse_int (bool b) = returns (num (if b then 1 else 0))
int_of parse_int (text s) = elim (parse_int s) as (λ _. Reading Value) [
  | none ↦ caught
  | some v ↦ returns v
]
int_of parse_int _ = raises

-- `v >= k` of an integer, for `k` above zero.
abbrev pub at_least : ℕ → Value → Bool
at_least k (num n) = leb k n
at_least k _ = false
