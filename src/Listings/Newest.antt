-- ===== src/Listings/Newest.antt =====
-- `order_by(….desc())` and `limit`, of the lists in backend/app/routers. Rows of one time stay in the order of
-- the table, which the database may choose otherwise.
use sentri_mesh_astra.Prelude.{
  ℕ, zero, suc, ◌≤◌, min, ◌≡◌, refl, ap, Bool, List, [], ◌∷◌, ◌++◌, arith, leb, if◌then◌else◌,
  length, keep, All, if_keeps,
}

module _ {A : Type 0} where
  abbrev pub take : ℕ → List A → List A
  take n [] = []
  take zero (x ∷ xs) = []
  take (suc n) (x ∷ xs) = x ∷ take n xs

  abbrev pub drop : ℕ → List A → List A
  drop n [] = []
  drop zero (x ∷ xs) = x ∷ xs
  drop (suc n) (x ∷ xs) = drop n xs

  pub take-append-drop : (n : ℕ) (xs : List A) → take n xs ++ drop n xs ≡ xs
  take-append-drop n [] = refl
  take-append-drop zero (x ∷ xs) = refl
  take-append-drop (suc n) (x ∷ xs) = ap (λ l. x ∷ l) (take-append-drop n xs)

  pub length-take : (n : ℕ) (xs : List A) → length (take n xs) ≡ min n (length xs)
  length-take n [] = omega arith
  length-take zero (x ∷ xs) = omega arith
  length-take (suc n) (x ∷ xs) = omega (arith, length-take n xs)

  pub All-take : (P : A → Type 0) (n : ℕ) (xs : List A) → All P xs → All P (take n xs)
  All-take P n [] h = tt
  All-take P zero (x ∷ xs) h = tt
  All-take P (suc n) (x ∷ xs) h = (h.0, All-take P n xs h.1)

  pub All-drop : (P : A → Type 0) (n : ℕ) (xs : List A) → All P xs → All P (drop n xs)
  All-drop P n [] h = tt
  All-drop P zero (x ∷ xs) h = h
  All-drop P (suc n) (x ∷ xs) h = All-drop P n xs h.1

module _ {A : Type 0} (created_at : A → ℕ) where
  abbrev pub insert : A → List A → List A
  insert x [] = x ∷ []
  insert x (y ∷ ys) = if leb (created_at y) (created_at x) then x ∷ y ∷ ys else y ∷ insert x ys

  abbrev pub newest : List A → List A
  newest [] = []
  newest (x ∷ xs) = insert x (newest xs)

  -- From the newest to the oldest.
  abbrev pub IsDescending : List A → Type 0
  IsDescending [] = Unit
  IsDescending (x ∷ xs) = All (λ y. created_at y ≤ created_at x) xs × IsDescending xs

  All-insert : (P : A → Type 0) (x : A) (ys : List A) → P x → All P ys → All P (insert x ys)
  All-insert P x [] h hs = (h, tt)
  All-insert P x (y ∷ ys) h hs =
      if_keeps (All P) (leb (created_at y) (created_at x)) _ _ (λ e. (h, hs))
        (λ e. (hs.0, All-insert P x ys h hs.1))

  pub All-newest : (P : A → Type 0) (xs : List A) → All P xs → All P (newest xs)
  All-newest P [] h = tt
  All-newest P (x ∷ xs) h = All-insert P x (newest xs) h.0 (All-newest P xs h.1)

  All-older :
      (m n : ℕ) (ys : List A)
      → m ≤ n
      → All (λ y. created_at y ≤ m) ys
      → All (λ y. created_at y ≤ n) ys
  All-older m n [] le h = tt
  All-older m n (y ∷ ys) le h = (omega (arith, le, h.0), All-older m n ys le h.1)

  insert-IsDescending : (x : A) (ys : List A) → IsDescending ys → IsDescending (insert x ys)
  insert-IsDescending x [] h = (tt, tt)
  insert-IsDescending x (y ∷ ys) h =
      if_keeps IsDescending (leb (created_at y) (created_at x)) _ _
        (λ e.
          let older : created_at y ≤ created_at x = ground (arith, e) in
          ((older, All-older (created_at y) (created_at x) ys older h.0), h))
        (λ e.
          let younger : created_at x ≤ created_at y = ground (arith, e) in
          (
            All-insert (λ z. created_at z ≤ created_at y) x ys younger h.0,
            insert-IsDescending x ys h.1,
          ))

  pub newest-IsDescending : (xs : List A) → IsDescending (newest xs)
  newest-IsDescending [] = tt
  newest-IsDescending (x ∷ xs) = insert-IsDescending x (newest xs) (newest-IsDescending xs)

  keep-insert :
      (q : A → Bool) (x : A) (ys : List A)
      → length (keep q (insert x ys)) ≡ length (keep q (x ∷ ys))
  keep-insert q x [] = refl
  keep-insert q x (y ∷ ys) = ground (arith, keep-insert q x ys)

  pub keep-newest : (q : A → Bool) (xs : List A) → length (keep q (newest xs)) ≡ length (keep q xs)
  keep-newest q [] = refl
  keep-newest q (x ∷ xs) = ground (arith, keep-insert q x (newest xs), keep-newest q xs)

  pub IsDescending-take : (n : ℕ) (xs : List A) → IsDescending xs → IsDescending (take n xs)
  IsDescending-take n [] h = tt
  IsDescending-take zero (x ∷ xs) h = tt
  IsDescending-take (suc n) (x ∷ xs) h =
      (All-take (λ y. created_at y ≤ created_at x) n xs h.0, IsDescending-take n xs h.1)

  -- What the limit cuts off is no newer than what it leaves.
  pub take_newer :
      (n : ℕ) (xs : List A)
      → IsDescending xs
      → All (λ x. All (λ y. created_at y ≤ created_at x) (drop n xs)) (take n xs)
  take_newer n [] h = tt
  take_newer zero (x ∷ xs) h = tt
  take_newer (suc n) (x ∷ xs) h =
      (All-drop (λ y. created_at y ≤ created_at x) n xs h.0, take_newer n xs h.1)
