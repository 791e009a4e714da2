-- ===== src/Tests/Folding.antt =====
-- The map-reduce of backend/app/workers/cag.py, over a model that answers with what it is shown.
use terrible_naming_conventi.Base.{ℕ, ◌+◌, ◌≡◌, refl, none, some, List, [], ◌∷◌, ◌++◌, arith}
use terrible_naming_conventi.Errors.{Result, ok}
use terrible_naming_conventi.Act.{Act}
use terrible_naming_conventi.Reduce.{batches, fold_batches, hierarchical_reduce}
use terrible_naming_conventi.Reduce.Batches.{concat}
use terrible_naming_conventi.Reduce.Covers.{flat, hierarchical_reduce_covers}
use terrible_naming_conventi.Reduce.Terminates.{
  hierarchical_reduce_total, hierarchical_reduce_never,
}

-- a digest is the list of what it covers; the world counts the calls
abbrev echo : List ℕ → Act ℕ (List ℕ)
echo batch calls = (ok batch, calls + 1)

abbrev join : List (List ℕ) → Act ℕ (List ℕ)
join level calls = (ok (concat level), calls + 1)

abbrev five : List ℕ
five = 1 ∷ 2 ∷ 3 ∷ 4 ∷ 5 ∷ []

abbrev one : ℕ → List ℕ
one s = s ∷ []

abbrev self : List ℕ → List ℕ
self c = c

-- Five summaries in batches of two, after an accumulator: three digests, then two merges and one.
five_reduced :
    hierarchical_reduce echo join 6 (some (0 ∷ [])) five 2 0
    ≡ some (ok (0 ∷ 1 ∷ 2 ∷ 3 ∷ 4 ∷ 5 ∷ []), 6)
unfolding hierarchical_reduce fold_batches batches
five_reduced = refl

echo-IsFaithful : (b : List ℕ) (w : ℕ) (c : List ℕ) → (echo b w).0 ≡ ok c → self c ≡ flat one b
echo-IsFaithful b w c h = ground (arith, flat-one b)
  where
    flat-one : (b : List ℕ) → flat one b ≡ b
    flat-one [] = refl
    flat-one (x ∷ xs) = rw (flat-one xs)

join-IsFaithful :
    (b : List (List ℕ)) (w : ℕ) (c : List ℕ) → (join b w).0 ≡ ok c → self c ≡ flat self b
join-IsFaithful b w c h = ground (arith, flat-self b)
  where
    flat-self : (b : List (List ℕ)) → flat self b ≡ concat b
    flat-self [] = refl
    flat-self (x ∷ xs) = rw (flat-self xs)

hierarchical_reduce_covers_example : self (0 ∷ 1 ∷ 2 ∷ 3 ∷ 4 ∷ 5 ∷ []) ≡ (0 ∷ []) ++ flat one five
hierarchical_reduce_covers_example =
    hierarchical_reduce_covers echo join one self echo-IsFaithful join-IsFaithful 6 2
      (some (0 ∷ [])) five 0 (0 ∷ 1 ∷ 2 ∷ 3 ∷ 4 ∷ 5 ∷ []) 6 five_reduced

hierarchical_reduce_total_example :
    (o : Result (List ℕ) × ℕ) × (hierarchical_reduce echo join 6 none five 2 0 ≡ some o)
hierarchical_reduce_total_example =
    hierarchical_reduce_total echo join 6 2 none five 0 (omega arith) (omega arith)

hierarchical_reduce_never_example : hierarchical_reduce echo join 100 none five 1 0 ≡ none
hierarchical_reduce_never_example =
    hierarchical_reduce_never echo join 100 none five 0 (λ b v. (b, refl)) (λ b v. (concat b, refl))
      (omega arith)
