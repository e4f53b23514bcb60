-- ===== src/Prelude/Letters.antt =====
-- `lower`, `upper` and `strip` of Python's texts, for the letters and the white space of ASCII.
use Prim.Native.Char.{Char, code}
use Prim.Native.String.{String, [], ◌∷◌}
use mathlib.Core.Bool.{Bool, true, false, ◌&&◌, ◌||◌}
use mathlib.Core.List.{List, [] as empty_list, ◌∷◌ as cons}
use mathlib.Core.Path.{◌≡◌, refl}
use sentri_mesh_astra.Prelude.Tests.{if◌then◌else◌, leb, ◌==◌}

-- The letter of the second text that stands where the first has `c`.
lower_in : String → String → Char → Char
lower_in (u ∷ us) (l ∷ ls) c = if code c == code u then l else lower_in us ls c
lower_in _ _ c = c

lower_char : Char → Char
lower_char c = lower_in "ABCDEFGHIJKLMNOPQRSTUVWXYZ" "abcdefghijklmnopqrstuvwxyz" c

unfoldable pub lower : String → String
unfolding lower_in lower_char
lower [] = []
lower (c ∷ s) = lower_char c ∷ lower s

upper_char : Char → Char
upper_char c = lower_in "abcdefghijklmnopqrstuvwxyz" "ABCDEFGHIJKLMNOPQRSTUVWXYZ" c

unfoldable pub upper : String → String
unfolding lower_in upper_char
upper [] = []
upper (c ∷ s) = upper_char c ∷ upper s

abbrev is_space : Char → Bool
is_space c = code c == 32 || (leb 9 (code c) && leb (code c) 13)

abbrev is_empty : String → Bool
is_empty [] = true
is_empty (c ∷ s) = false

unfoldable pub strip_left : String → String
strip_left [] = []
strip_left (c ∷ s) = if is_space c then strip_left s else c ∷ s

unfoldable pub strip_right : String → String
strip_right [] = []
strip_right (c ∷ s) =
    let rest = strip_right s in if is_space c && is_empty rest then [] else c ∷ rest

unfoldable pub strip : String → String
strip s = strip_right (strip_left s)

-- `s.split(" ", 1)[1]`, of a text with a space.
unfoldable pub after_space : String → String
after_space [] = []
after_space (c ∷ s) = if code c == 32 then s else after_space s

-- A text's characters, each a text.
unfoldable pub letters : String → List String
letters [] = empty_list
letters (c ∷ s) = cons (c ∷ []) (letters s)

lowered_run : lower (strip "  Ann@Acme.test ") ≡ "ann@acme.test"
unfolding lower strip strip_left strip_right lower_in lower_char
lowered_run = refl
