-- ===== src/Reduce/Terminates.antt =====
-- The `while` loop of `_hierarchical_reduce` (backend/app/workers/cag.py): it ends for batches of
-- two or more, and it never ends for batches of one.
use terrible_naming_conventi.Base.{
  ℕ, zero, suc, ◌≤◌, ◌<◌, ◌≡◌, refl, ap, ◌∙◌, inl, inr, Option, none, some, List, [], ◌∷◌, arith,
  length, false, ◌==◌,
}
use terrible_naming_conventi.Errors.{Result, ok, err, value_error, Result-cases}
use terrible_naming_conventi.Act.{Act, continue-ok, continue-eq-ok, and_then-ok, and_then-err}
use terrible_naming_conventi.Reduce.{
  batches, fold_batches, merge_levels, with_accumulator, without_summaries, hierarchical_reduce,
}
use terrible_naming_conventi.Reduce.Batches.{
  length-batches-lt, length-batches-le, length-batches_one,
}

module _ {W X C : Type 0} (call : List X → Act W C) where
  -- One call for each batch: a level that is made has as many entries as batches.
  pub length-fold_batches :
      (bs : List (List X)) (w : W) (cs : List C)
      → (fold_batches call bs w).0 ≡ ok cs
      → length cs ≡ length bs
  unfolding fold_batches
  length-fold_batches [] w cs h = ground arith
  length-fold_batches (b ∷ bs) w cs h =
      let (c, e, h2) = continue-eq-ok (call b w) _ h in
      let (rest, e2, h3) = continue-eq-ok (fold_batches call bs (call b w).1) _ h2 in
      ground (arith, length-fold_batches bs (call b w).1 rest e2, h3)

  -- Where every call answers, a level is made.
  fold_batches-ok :
      ((b : List X) (w : W) → (c : C) × ((call b w).0 ≡ ok c))
      → (bs : List (List X)) (w : W) → (cs : List C) × ((fold_batches call bs w).0 ≡ ok cs)
  unfolding fold_batches
  fold_batches-ok answers [] w = ([], refl)
  fold_batches-ok answers (b ∷ bs) w =
      let (c, e) = answers b w in
      let (cs, es) = fold_batches-ok answers bs (call b w).1 in
      (
        c ∷ cs,
        ap (λ (p : Result (List C) × W). p.0)
            (continue-ok (call b w) _ e ∙ continue-ok (fold_batches call bs (call b w).1) _ es),
      )

module _ {W S C : Type 0} (digest : List S → Act W C) (merge : List C → Act W C) where
  merge_levels-total :
      (fuel bs : ℕ) (level : List C) (w : W)
      → 2 ≤ bs
      → length level ≤ fuel
      → (o : Result C × W) × (merge_levels digest merge fuel bs level w ≡ some o)
  unfolding merge_levels
  merge_levels-total fuel bs [] w p h = ((err value_error, w), refl)
  merge_levels-total fuel bs (c ∷ []) w p h = ((ok c, w), refl)
  merge_levels-total zero bs (c ∷ d ∷ cs) w p h = absurd (omega arith)
  merge_levels-total (suc fuel) bs (c ∷ d ∷ cs) w p h =
      let level = c ∷ d ∷ cs in
      let step = fold_batches merge (batches bs level) w in
      elim (Result-cases step.0) [
        | inl (next, e) ↦
            let shorter : length next ≤ fuel = omega (
              arith,
              length-fold_batches merge (batches bs level) w next e,
              length-batches-lt bs level p (omega arith),
            ) in
            let (o, q) = merge_levels-total fuel bs next step.1 p shorter in
            (o, and_then-ok step _ e ∙ q)
        | inr (x, e) ↦ ((err x, step.1), and_then-err step _ e)
      ]

  level-total :
      (fuel bs : ℕ) (accumulator : Option C) (level : List C) (w : W)
      → 2 ≤ bs
      → length level < fuel
      → (o : Result C × W) × (merge_levels digest merge fuel bs
            (with_accumulator digest merge accumulator level)
            w
          ≡ some o)
  level-total fuel bs none level w p h = merge_levels-total fuel bs level w p (omega arith)
  level-total fuel bs (some a) level w p h =
      merge_levels-total fuel bs (a ∷ level) w p (omega arith)

  -- With batches of two or more and more fuel than summaries the reduction ends: it returns a
  -- content or raises, whatever the model answers.
  pub hierarchical_reduce_total :
      (fuel bs : ℕ) (accumulator : Option C) (summaries : List S) (w : W)
      → 2 ≤ bs
      → length summaries < fuel
      → (o : Result C × W) × (hierarchical_reduce digest merge fuel accumulator summaries bs w
          ≡ some o)
  unfolding hierarchical_reduce
  hierarchical_reduce_total fuel bs accumulator [] w p h =
      ((without_summaries digest merge accumulator, w), refl)
  hierarchical_reduce_total fuel bs accumulator (s ∷ ss) w p h =
      let step = fold_batches digest (batches bs (s ∷ ss)) w in
      let nonzero : (bs == 0) ≡ false = ground arith in
      elim (Result-cases step.0) [
        | inl (level, e) ↦
            let (o, q) = level-total fuel bs accumulator level step.1 p (
              omega (
                arith,
                length-fold_batches digest (batches bs (s ∷ ss)) w level e,
                length-batches-le bs (s ∷ ss) (omega arith),
              )) in
            (o, rw nonzero (and_then-ok step _ e ∙ q))
        | inr (x, e) ↦ ((err x, step.1), rw nonzero (and_then-err step _ e))
      ]

  merge_levels-never :
      (fuel : ℕ) (level : List C) (w : W)
      → ((b : List C) (v : W) → (a : C) × ((merge b v).0 ≡ ok a))
      → 2 ≤ length level
      → merge_levels digest merge fuel 1 level w ≡ none
  unfolding merge_levels
  merge_levels-never fuel [] w answers h = absurd (omega arith)
  merge_levels-never fuel (c ∷ []) w answers h = absurd (omega arith)
  merge_levels-never zero (c ∷ d ∷ cs) w answers h = refl
  merge_levels-never (suc fuel) (c ∷ d ∷ cs) w answers h =
      let level = c ∷ d ∷ cs in
      let step = fold_batches merge (batches 1 level) w in
      let (next, e) = fold_batches-ok merge answers (batches 1 level) w in
      and_then-ok step _ e
      ∙ merge_levels-never fuel next step.1 answers (
          omega
            (arith, length-fold_batches merge (batches 1 level) w next e, length-batches_one level))

  -- With batches of one, two summaries or more and a model that always answers, the reduction
  -- never ends: no amount of fuel gives a result.
  pub hierarchical_reduce_never :
      (fuel : ℕ) (accumulator : Option C) (summaries : List S) (w : W)
      → ((b : List S) (v : W) → (a : C) × ((digest b v).0 ≡ ok a))
      → ((b : List C) (v : W) → (a : C) × ((merge b v).0 ≡ ok a))
      → 2 ≤ length summaries
      → hierarchical_reduce digest merge fuel accumulator summaries 1 w ≡ none
  unfolding hierarchical_reduce
  hierarchical_reduce_never fuel accumulator [] w digests merges h = absurd (omega arith)
  hierarchical_reduce_never fuel accumulator (s ∷ ss) w digests merges h =
      let step = fold_batches digest (batches 1 (s ∷ ss)) w in
      let (level, e) = fold_batches-ok digest digests (batches 1 (s ∷ ss)) w in
      let enough : 2 ≤ length level = omega (
        arith,
        length-fold_batches digest (batches 1 (s ∷ ss)) w level e,
        length-batches_one (s ∷ ss),
      ) in
      and_then-ok step _ e
      ∙ merge_levels-never fuel (with_accumulator digest merge accumulator level) step.1 merges
          (longer accumulator level enough)
    where
      longer :
          (a : Option C) (level : List C)
          → 2 ≤ length level
          → 2 ≤ length (with_accumulator digest merge a level)
      longer none level k = k
      longer (some x) level k = omega arith
