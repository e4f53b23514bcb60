-- ===== src/Prelude/Table.antt =====
-- Database tables: rows in insertion order, found and changed by the test of a `select`.
use mathlib.Core.Path.{◌≡◌, refl}
use mathlib.Core.Bool.{Bool, true}
use mathlib.Core.List.{List, [], ◌∷◌, ◌++◌}
use mathlib.Core.Option.{some}
use mathlib.Core.Logic.{inl, inr}
use native.Mathlib.Omega.{arith}
use sentri_mesh_astra.Prelude.Tests.{if◌then◌else◌, is_some, Bool-cases}
use sentri_mesh_astra.Prelude.Lists.{length, All, any, first}

module _ {ℓ} {A : Type ℓ} where
  -- Attributes assigned to the row that a `select` returned, and the commit that writes them back.
  abbrev pub update_first : (A → Bool) → (A → A) → List A → List A
  update_first p f [] = []
  update_first p f (x ∷ xs) = if p x then f x ∷ xs else x ∷ update_first p f xs

  pub All-update_first {κ} :
      (P : A → Type κ) (p : A → Bool) (f : A → A) (xs : List A)
      → ((a : A) → first p xs ≡ some a → P a → P (f a))
      → All P xs
      → All P (update_first p f xs)
  All-update_first P p f [] step h = tt
  All-update_first P p f (x ∷ xs) step h = ground (arith, step x, All-update_first P p f xs, h)

  pub any-update_first :
      (q p : A → Bool) (f : A → A) (xs : List A)
      → ((a : A) → first p xs ≡ some a → q a ≡ true → q (f a) ≡ true)
      → any q xs ≡ true
      → any q (update_first p f xs) ≡ true
  any-update_first q p f [] step h = h
  any-update_first q p f (x ∷ xs) step h = elim (Bool-cases (p x)) [
    | inl here ↦ ground (arith, step x (rw here refl))
    | inr further ↦ ground (arith, any-update_first q p f xs (λ a e. step a (rw further e)))
  ]

  pub any-append_left : (q : A → Bool) (xs ys : List A) → any q xs ≡ true → any q (xs ++ ys) ≡ true
  any-append_left q [] ys h = cc
  any-append_left q (x ∷ xs) ys h = ground (arith, any-append_left q xs ys)

  pub first-append :
      (p : A → Bool) (xs ys : List A)
      → first p (xs ++ ys) ≡ (if is_some (first p xs) then first p xs else first p ys)
  first-append p [] ys = refl
  first-append p (x ∷ xs) ys = ground (arith, first-append p xs ys)

  pub first-update_first :
      (p : A → Bool) (f : A → A) (xs : List A) (a : A)
      → first p xs ≡ some a
      → p (f a) ≡ true
      → first p (update_first p f xs) ≡ some (f a)
  first-update_first p f [] a e h = cc
  first-update_first p f (x ∷ xs) a e h = ground (arith, first-update_first p f xs a)

  pub length-update_first :
      (p : A → Bool) (f : A → A) (xs : List A) → length (update_first p f xs) ≡ length xs
  length-update_first p f [] = refl
  length-update_first p f (x ∷ xs) = ground (arith, length-update_first p f xs)
