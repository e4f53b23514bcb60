-- ===== src/Prelude/Text.antt =====
-- Texts that the program only compares: membership in a literal set, lookup in a literal table.
use Prim.Native.String.{String}
use mathlib.Core.Path.{◌≡◌}
use mathlib.Core.Bool.{Bool, true, false, ◌||◌}
use mathlib.Core.List.{List, [], ◌∷◌}
use mathlib.Core.Option.{Option, none, some}
use native.Mathlib.Omega.{arith}
use text.Mathlib.Text.{◌==◌ as str_eq}
use text.Mathlib.TextEquality.{eq_iff}
use sentri_mesh_astra.Prelude.Tests.{if◌then◌else◌}
use sentri_mesh_astra.Prelude.Lists.{all}

-- `s in {…}` for a set of texts.
unfoldable pub contains : List String → String → Bool
contains [] s = false
contains (x ∷ xs) s = str_eq s x || contains xs s

-- `table.get(s)` for a literal table.
unfoldable pub lookup {ℓ} : {V : Type ℓ} → String → List (String × V) → Option V
lookup s [] = none
lookup s ((k, v) ∷ t) = if str_eq s k then some v else lookup s t

-- What a check of every member of a literal set says of any member.
pub contains-all :
    (xs : List String) (p : String → Bool) (s : String)
    → all p xs ≡ true
    → contains xs s ≡ true
    → p s ≡ true
unfolding contains
contains-all [] p s a c = cc
contains-all (x ∷ xs) p s a c = ground (arith, eq_iff s x, contains-all xs p s)
