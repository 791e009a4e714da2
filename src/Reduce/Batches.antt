-- ===== src/Reduce/Batches.antt =====
-- The slices of `_hierarchical_reduce` (backend/app/workers/cag.py): nothing is dropped, nothing is
-- reordered, and there are fewer slices than entries.
use terrible_naming_conventi.Base.{
  ℕ, zero, suc, ◌≤◌, ◌<◌, ◌≡◌, refl, ap, ◌∙◌, List, [], ◌∷◌, ◌++◌, All, arith, length, take, drop,
  take-append-drop, length-drop, length-take,
}
use terrible_naming_conventi.Reduce.{slices, batches}

module _ {ℓ} {X : Type ℓ} where
  -- all batches, one behind the other
  abbrev pub concat : List (List X) → List X
  concat [] = []
  concat (b ∷ bs) = b ++ concat bs

  concat-slices :
      (rounds n : ℕ) (xs : List X) → 0 < n → length xs ≤ rounds → concat (slices rounds n xs) ≡ xs
  unfolding slices
  concat-slices zero n [] p h = refl
  concat-slices zero n (x ∷ xs) p h = absurd (omega arith)
  concat-slices (suc rounds) n [] p h = refl
  concat-slices (suc rounds) n (x ∷ xs) p h =
      ap (λ t. take n (x ∷ xs) ++ t)
        (concat-slices rounds n (drop n (x ∷ xs)) p (omega (arith, length-drop n (x ∷ xs))))
      ∙ take-append-drop n (x ∷ xs)

  -- The batches hold the entries in their order.
  pub concat-batches : (n : ℕ) (xs : List X) → 0 < n → concat (batches n xs) ≡ xs
  unfolding batches
  concat-batches n xs p = concat-slices (length xs) n xs p (omega arith)

  slices_bounded :
      (rounds n : ℕ) (xs : List X)
      → 0 < n
      → All (λ b. (0 < length b) × (length b ≤ n)) (slices rounds n xs)
  unfolding slices
  slices_bounded zero n xs p = tt
  slices_bounded (suc rounds) n [] p = tt
  slices_bounded (suc rounds) n (x ∷ xs) p = (
    (omega (arith, length-take n (x ∷ xs)), omega (arith, length-take n (x ∷ xs))),
    slices_bounded rounds n (drop n (x ∷ xs)) p,
  )

  -- No batch is empty, and none is larger than the batch size.
  pub batches_bounded :
      (n : ℕ) (xs : List X) → 0 < n → All (λ b. (0 < length b) × (length b ≤ n)) (batches n xs)
  unfolding batches
  batches_bounded n xs p = slices_bounded (length xs) n xs p

  length-slices-le : (rounds n : ℕ) (xs : List X) → 0 < n → length (slices rounds n xs) ≤ length xs
  unfolding slices
  length-slices-le zero n xs p = omega arith
  length-slices-le (suc rounds) n [] p = omega arith
  length-slices-le (suc rounds) n (x ∷ xs) p =
      omega (arith, length-slices-le rounds n (drop n (x ∷ xs)) p, length-drop n (x ∷ xs))

  -- Batches of two or more make a level of two or more shorter.
  pub length-batches-lt :
      (n : ℕ) (xs : List X) → 2 ≤ n → 2 ≤ length xs → length (batches n xs) < length xs
  unfolding batches slices
  length-batches-lt n [] p h = absurd (omega arith)
  length-batches-lt n (x ∷ xs) p h = omega (
    arith,
    length-slices-le (length xs) n (drop n (x ∷ xs)) (omega arith),
    length-drop n (x ∷ xs),
  )

  pub length-batches-le : (n : ℕ) (xs : List X) → 0 < n → length (batches n xs) ≤ length xs
  unfolding batches
  length-batches-le n xs p = length-slices-le (length xs) n xs p

  -- Batches of one are as many as the entries.
  length-slices_one : (xs : List X) → length (slices (length xs) 1 xs) ≡ length xs
  unfolding slices
  length-slices_one [] = refl
  length-slices_one (x ∷ xs) = ap suc (length-slices_one xs)

  pub length-batches_one : (xs : List X) → length (batches 1 xs) ≡ length xs
  unfolding batches
  length-batches_one xs = length-slices_one xs
