-- ===== src/Prelude/Effects.antt =====
-- Python code that changes a state and may raise. What was written before a raise stays written.
use Prim.Native.Nat.{ℕ}
use mathlib.Core.Bool.{Bool, true, false}
use sentri_mesh_astra.Prelude.Tests.{if◌then◌else◌}
use mathlib.Core.Path.{◌≡◌, refl}
use mathlib.Core.List.{List, [], ◌∷◌}
use mathlib.Core.Option.{Option, none, some}

-- What is raised: an `HTTPException` with its status code, or an exception of any other class.
pub data Error : Type 0 where
  http : ℕ → Error
  exception : Error

pub data Result {ℓ} (A : Type ℓ) : Type ℓ where
  ok : A → Result A
  err : Error → Result A

abbrev pub Action : Type 0 → Type 0 → Type 0
Action S A = S → Result A × S

-- Reading the state, raising, and returning a value.
module _ {S A : Type 0} where
  abbrev pub gets : (S → A) → Action S A
  gets read state = (ok (read state), state)

  abbrev pub raise : Error → Action S A
  raise error state = (err error, state)

  abbrev pub pure : A → Action S A
  pure value state = (ok value, state)

module _ {S : Type 0} where
  abbrev pub modify : (S → S) → Action S (Unit {0})
  modify f s = (ok tt, f s)

  abbrev pub raise_if : Bool → Error → Action S (Unit {0})
  raise_if true e s = (err e, s)
  raise_if false e s = (ok tt, s)

-- `scalar_one_or_none()`: a second row is a `MultipleResultsFound`.
abbrev pub one_or_none : {S A : Type 0} → List A → Action S (Option A)
one_or_none [] s = (ok none, s)
one_or_none (a ∷ []) s = (ok (some a), s)
one_or_none (a ∷ b ∷ rest) s = (err exception, s)

module _ {S A B : Type 0} where
  abbrev pub and_then : (A → Action S B) → Result A × S → Result B × S
  and_then f (ok a, s) = f a s
  and_then f (err e, s) = (err e, s)

infixl 5 ◌>>=◌ ◌>>◌
abbrev pub ◌>>=◌ : {S A B : Type 0} → Action S A → (A → Action S B) → Action S B
◌>>=◌ m f s = and_then f (m s)

abbrev pub ◌>>◌ : {S A B : Type 0} → Action S A → Action S B → Action S B
m >> k = m >>= λ _. k

-- An action on a part of the state.
abbrev pub zoom : {S T A : Type 0} → (S → T) → (T → S → S) → Action T A → Action S A
zoom part set_part m s = let (r, t) = m (part s) in (r, set_part t s)

-- What holds of the state after `m`, and after `f` from there, holds after the two in a row.
and_then_keeps :
    {S A B : Type 0} (P : S → Type 0) (f : A → Action S B) (out : Result A × S)
    → P out.1
    → ((a : A) → out.0 ≡ ok a → P out.1 → P (f a out.1).1)
    → P (and_then f out).1
and_then_keeps P f (ok a, s) h next = next a refl h
and_then_keeps P f (err e, s) h next = h

pub >>=_keeps :
    {S A B : Type 0} (P : S → Type 0) (m : Action S A) (f : A → Action S B) (s : S)
    → P (m s).1
    → ((a : A) → (m s).0 ≡ ok a → P (m s).1 → P (f a (m s).1).1)
    → P ((m >>= f) s).1
>>=_keeps P m f s h next = and_then_keeps P f (m s) h next

-- What holds of both branches of a test holds of the test.
pub if_keeps {ℓ κ} :
    {A : Type ℓ} (P : A → Type κ) (b : Bool) (x y : A)
    → (b ≡ true → P x)
    → (b ≡ false → P y)
    → P (if b then x else y)
if_keeps P true x y yes_case no_case = yes_case refl
if_keeps P false x y yes_case no_case = no_case refl

-- A check keeps what holds of the state before it and, if it passes, after the rest.
pub raise_if_keeps :
    {S B : Type 0} (P : S → Type 0) (b : Bool) (e : Error) (k : Action S B) (s : S)
    → P s
    → (b ≡ false → P (k s).1)
    → P ((raise_if b e >> k) s).1
raise_if_keeps P true e k s h rest = h
raise_if_keeps P false e k s h rest = rest refl
