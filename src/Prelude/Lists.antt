-- ===== src/Prelude/Lists.antt =====
-- Lists measured by native numbers, predicates over lists, and Boolean searches through them.
use Prim.Native.Nat.{ℕ, suc, ◌+◌, ◌≤◌}
use mathlib.Core.Path.{◌≡◌, refl, ap}
use mathlib.Core.Bool.{Bool, true, false, ◌&&◌, ◌||◌}
use mathlib.Core.List.{List, [], ◌∷◌, ◌++◌}
use mathlib.Core.Option.{Option, none, some}
use mathlib.Core.Logic.{◌↔◌, inl, inr}
use native.Mathlib.Omega.{arith}
use sentri_mesh_astra.Prelude.Tests.{if◌then◌else◌, Bool-cases}

module _ {ℓ} {A : Type ℓ} where
  abbrev pub length : List A → ℕ
  length [] = 0
  length (x ∷ xs) = suc (length xs)

  pub length-append : (xs ys : List A) → length (xs ++ ys) ≡ length xs + length ys
  length-append [] ys = omega arith
  length-append (x ∷ xs) ys = omega (arith, length-append xs ys)

  abbrev pub any : (A → Bool) → List A → Bool
  any p [] = false
  any p (x ∷ xs) = p x || any p xs

  abbrev pub all : (A → Bool) → List A → Bool
  all p [] = true
  all p (x ∷ xs) = p x && all p xs

  -- The rows that a Boolean test keeps.
  abbrev pub keep : (A → Bool) → List A → List A
  keep p [] = []
  keep p (x ∷ xs) = if p x then x ∷ keep p xs else keep p xs

  -- The first row that a Boolean test accepts.
  abbrev pub first : (A → Bool) → List A → Option A
  first p [] = none
  first p (x ∷ xs) = if p x then some x else first p xs

  pub keep-append : (p : A → Bool) (xs ys : List A) → keep p (xs ++ ys) ≡ keep p xs ++ keep p ys
  keep-append p [] ys = refl
  keep-append p (x ∷ xs) ys = ground (arith, keep-append p xs ys)

  pub first-keep-none : (p : A → Bool) (xs : List A) → any p xs ≡ false → first p xs ≡ none
  first-keep-none p [] h = refl
  first-keep-none p (x ∷ xs) h = ground (arith, first-keep-none p xs)

  -- What a search returns passes the search's test.
  pub first-passes : (p : A → Bool) (xs : List A) (a : A) → first p xs ≡ some a → p a ≡ true
  first-passes p [] a h = cc
  first-passes p (x ∷ xs) a h = ground (arith, first-passes p xs a)

-- Every row satisfies the predicate.
abbrev pub All {ℓ κ} : {A : Type ℓ} → (A → Type κ) → List A → Type κ
All Holds [] = Unit
All Holds (row ∷ rows) = Holds row × All Holds rows

pub All-first {ℓ κ} :
    {A : Type ℓ} (P : A → Type κ) (p : A → Bool) (xs : List A) (a : A)
    → All P xs
    → first p xs ≡ some a
    → P a
All-first P p [] a h e = cc
All-first P p (x ∷ xs) a h e = ground (arith, All-first P p xs a h.1)

pub All-append {ℓ κ} :
    {A : Type ℓ} (Holds : A → Type κ) (rows more : List A)
    → All Holds rows
    → All Holds more
    → All Holds (rows ++ more)
All-append Holds [] more first_part rest = rest
All-append Holds (row ∷ rows) more first_part rest =
    (first_part.0, All-append Holds rows more first_part.1 rest)

module _ {A : Type 0} where
  pub keep-none : (p : A → Bool) (xs : List A) → any p xs ≡ false → keep p xs ≡ []
  keep-none p [] h = refl
  keep-none p (x ∷ xs) h = ground (arith, keep-none p xs)

  pub nothing_left : (xs : List A) → length xs ≤ 0 → xs ≡ []
  nothing_left [] h = refl
  nothing_left (x ∷ xs) h = ground arith

  pub any-append : (p : A → Bool) (xs ys : List A) → any p (xs ++ ys) ≡ (any p xs || any p ys)
  any-append p [] ys = refl
  any-append p (x ∷ xs) ys = ground (arith, any-append p xs ys)

  -- The row that was added last is the first one with its key if no other has it.
  pub first-last :
      (q : A → Bool) (xs : List A) (x : A)
      → any q xs ≡ false
      → q x ≡ true
      → first q (xs ++ x ∷ []) ≡ some x
  first-last q [] x h e = ground arith
  first-last q (y ∷ ys) x h e = ground (arith, first-last q ys x)

  -- A row that is added last is the only one with its key if no other has it.
  pub length-keep-last :
      (q : A → Bool) (xs : List A) (a : A)
      → length (keep q xs) ≤ 1
      → (q a ≡ true → any q xs ≡ false)
      → length (keep q (xs ++ a ∷ [])) ≤ 1
  length-keep-last q xs a once free = elim (Bool-cases (q a)) [
    | inl here ↦
        rw
          (
            keep-append q xs (a ∷ []),
            length-append (keep q xs) (keep q (a ∷ [])),
            here,
            keep-none q xs (free here),
          )
          (omega arith)
    | inr other ↦
        rw (keep-append q xs (a ∷ []), length-append (keep q xs) (keep q (a ∷ [])), other)
          (omega (arith, once))
  ]

  pub append-nothing : (xs : List A) → xs ++ [] ≡ xs
  append-nothing [] = refl
  append-nothing (x ∷ xs) = ap (λ l. x ∷ l) (append-nothing xs)

  pub append-last : (xs ys : List A) (a : A) → (xs ++ a ∷ []) ++ ys ≡ xs ++ a ∷ ys
  append-last [] ys a = refl
  append-last (x ∷ xs) ys a = ap (λ l. x ∷ l) (append-last xs ys a)

  pub none_kept : (p : A → Bool) (xs : List A) → keep p xs ≡ [] → any p xs ≡ false
  none_kept p [] h = refl
  none_kept p (x ∷ xs) h = ground (arith, none_kept p xs)

-- `ys` are the rows of `xs` that are `P`, in their order.
pub data Selects {A : Type 0} (P : A → Type 0) : List A → List A → Type 0 where
  nothing_more : Selects P [] []
  selected : (x : A) (xs ys : List A) → P x → Selects P xs ys → Selects P (x ∷ xs) (x ∷ ys)
  passed_over : (x : A) (xs ys : List A) → ¬ P x → Selects P xs ys → Selects P (x ∷ xs) ys

pub keep-Selects :
    {A : Type 0} (P : A → Type 0) (p : A → Bool) (xs : List A)
    → ((x : A) → (p x ≡ true) ↔ P x)
    → Selects P xs (keep p xs)
keep-Selects P p [] same = Selects.nothing_more
keep-Selects P p (x ∷ xs) same = elim (Bool-cases (p x)) [
  | inl in_ ↦ rw in_ (Selects.selected x xs (keep p xs) ((same x).0 in_) (keep-Selects P p xs same))
  | inr out ↦ rw out (
      Selects.passed_over x xs (keep p xs) (λ h. ground (arith, (same x).1 h, out))
        (keep-Selects P p xs same))
]
