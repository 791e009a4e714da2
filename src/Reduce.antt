-- ===== src/Reduce.antt =====
-- `_hierarchical_reduce` of backend/app/workers/cag.py: summaries are folded to digests batch by
-- batch, and digests are merged until one is left. A call of the language model may change the
-- world `W` and may raise. The `while` loop takes fuel; without a result the fuel ran out.
pub mod Batches
pub mod Prompt
pub mod Answers
pub mod Covers
pub mod Terminates
use terrible_naming_conventi.Base.{
  ℕ, zero, suc, Option, none, some, List, [], ◌∷◌, length, take, drop, ◌==◌, if◌then◌else◌,
}
use terrible_naming_conventi.Errors.{Result, ok, err, value_error}
use terrible_naming_conventi.Act.{Act, ◌>>=◌, pure, and_then}

-- `for i in range(0, len(xs), n): xs[i : i + n]`, one slice for each round
pub slices {ℓ} : {X : Type ℓ} → ℕ → ℕ → List X → List (List X)
slices zero n xs = []
slices (suc rounds) n [] = []
slices (suc rounds) n (x ∷ xs) = take n (x ∷ xs) ∷ slices rounds n (drop n (x ∷ xs))

unfoldable pub batches {ℓ} : {X : Type ℓ} → ℕ → List X → List (List X)
unfolding slices
batches n xs = slices (length xs) n xs

-- The body of a level's loop: one call for each batch, in order.
unfoldable pub fold_batches : {W X C : Type 0} → (List X → Act W C) → List (List X) → Act W (List C)
fold_batches call [] = pure []
fold_batches call (b ∷ bs) = do digest ← call b; rest ← fold_batches call bs; pure (digest ∷ rest)

module _ {W S C : Type 0} (digest : List S → Act W C) (merge : List C → Act W C) where
  -- `while len(current_level) > 1`; an empty level cannot be indexed and is not reached
  unfoldable pub merge_levels : ℕ → ℕ → List C → W → Option (Result C × W)
  merge_levels fuel batch_size [] w = some (err value_error, w)
  merge_levels fuel batch_size (c ∷ []) w = some (ok c, w)
  merge_levels zero batch_size (c ∷ d ∷ cs) w = none
  merge_levels (suc fuel) batch_size (c ∷ d ∷ cs) w =
      and_then (fold_batches merge (batches batch_size (c ∷ d ∷ cs)) w)
        λ next_level w'. merge_levels fuel batch_size next_level w'

  -- `current_level.insert(0, accumulator)`
  abbrev pub with_accumulator : Option C → List C → List C
  with_accumulator none level = level
  with_accumulator (some accumulator) level = accumulator ∷ level

  -- no summaries: the accumulator is the result
  abbrev pub without_summaries : Option C → Result C
  without_summaries none = err value_error
  without_summaries (some accumulator) = ok accumulator

  -- `range` refuses a step of zero
  unfoldable pub hierarchical_reduce : ℕ → Option C → List S → ℕ → W → Option (Result C × W)
  unfolding merge_levels
  hierarchical_reduce fuel accumulator [] batch_size w = some (without_summaries accumulator, w)
  hierarchical_reduce fuel accumulator (s ∷ ss) batch_size w =
      if batch_size == 0
      then some (err value_error, w)
      else and_then (fold_batches digest (batches batch_size (s ∷ ss)) w)
          λ level w'. merge_levels fuel batch_size (with_accumulator accumulator level) w'
