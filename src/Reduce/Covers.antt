-- ===== src/Reduce/Covers.antt =====
-- What `_hierarchical_reduce` (backend/app/workers/cag.py) shows the model: every summary, once,
-- in the order of the event log.
use terrible_naming_conventi.Base.{
  ℕ, zero, suc, ◌<◌, ◌≡◌, refl, ap, sym, ◌∙◌, Option, none, some, List, [], ◌∷◌, ◌++◌, arith,
  append_assoc, append-nil, ◌==◌, Bool-cases, inl, inr,
}
use terrible_naming_conventi.Errors.{ok, Result-cases}
use terrible_naming_conventi.Act.{Act, continue-eq-ok, and_then, and_then-ok, and_then-err}
use terrible_naming_conventi.Reduce.{
  batches, fold_batches, merge_levels, with_accumulator, hierarchical_reduce,
}
use terrible_naming_conventi.Reduce.Batches.{concat, concat-batches}

-- what a list of entries covers, one behind the other
abbrev pub flat : {X I : Type 0} → (X → List I) → List X → List I
flat f [] = []
flat f (x ∷ xs) = f x ++ flat f xs

flat-append :
    {X I : Type 0} (f : X → List I) (xs ys : List X) → flat f (xs ++ ys) ≡ flat f xs ++ flat f ys
flat-append f [] ys = refl
flat-append f (x ∷ xs) ys =
    ap (λ t. f x ++ t) (flat-append f xs ys) ∙ sym (append_assoc (f x) (flat f xs) (flat f ys))

module _ {W X C I : Type 0} (call : List X → Act W C) (src : X → List I) (covers : C → List I) where
  -- A call's answer covers what its batch covers.
  abbrev pub IsFaithful : Type 0
  IsFaithful = (b : List X) (w : W) (c : C) → (call b w).0 ≡ ok c → covers c ≡ flat src b

  covers-fold_batches :
      IsFaithful
      → (bs : List (List X)) (w : W) (cs : List C) → (fold_batches call bs w).0 ≡ ok cs
      → flat covers cs ≡ flat src (concat bs)
  unfolding fold_batches
  covers-fold_batches faithful [] w cs h = ground arith
  covers-fold_batches faithful (b ∷ bs) w cs h =
      let (c, e, h2) = continue-eq-ok (call b w) _ h in
      let (rest, e2, h3) = continue-eq-ok (fold_batches call bs (call b w).1) _ h2 in
      let both : cs ≡ c ∷ rest = cc in
      ap (flat covers) both
      ∙ ap (λ t. t ++ flat covers rest) (faithful b w c e)
      ∙ ap (λ t. flat src b ++ t) (covers-fold_batches faithful bs (call b w).1 rest e2)
      ∙ sym (flat-append src b (concat bs))

-- what the accumulator covers, if there is one
abbrev pub covers_of : {C I : Type 0} → (C → List I) → Option C → List I
covers_of covers none = []
covers_of covers (some a) = covers a

module _ {W S C I : Type 0} (digest : List S → Act W C) (merge : List C → Act W C)
    (src : S → List I) (covers : C → List I) (digests : IsFaithful digest src covers)
    (merges : IsFaithful merge covers covers) where
  covers-merge_levels :
      (fuel bs : ℕ) (level : List C) (w : W) (c : C) (w' : W)
      → 0 < bs
      → merge_levels digest merge fuel bs level w ≡ some (ok c, w')
      → covers c ≡ flat covers level
  unfolding merge_levels
  covers-merge_levels fuel bs [] w c w' p h = absurd (ground arith)
  covers-merge_levels fuel bs (d ∷ []) w c w' p h =
      let same : d ≡ c = cc in ap covers (sym same) ∙ sym (append-nil (covers d))
  covers-merge_levels zero bs (d ∷ e ∷ cs) w c w' p h = absurd (ground arith)
  covers-merge_levels (suc fuel) bs (d ∷ e ∷ cs) w c w' p h =
      let level = d ∷ e ∷ cs in
      let step = fold_batches merge (batches bs level) w in
      elim (Result-cases step.0) [
        | inl (next, made) ↦
            covers-merge_levels fuel bs next step.1 c w' p (sym (and_then-ok step _ made) ∙ h)
            ∙ covers-fold_batches merge covers covers merges (batches bs level) w next made
            ∙ ap (flat covers) (concat-batches bs level p)
        | inr (x, failed) ↦
            absurd
              (cc (and_then-err step (λ next v. merge_levels digest merge fuel bs next v) failed))
      ]

  covers-with_accumulator :
      (a : Option C) (level : List C)
      → flat covers (with_accumulator digest merge a level)
        ≡ covers_of covers a ++ flat covers level
  covers-with_accumulator none level = refl
  covers-with_accumulator (some a) level = refl

  covers_level :
      (fuel bs : ℕ) (accumulator : Option C) (s : S) (ss : List S) (w : W) (c : C) (w' : W)
      → 0 < bs
      → and_then (fold_batches digest (batches bs (s ∷ ss)) w) (λ level v.
        merge_levels digest merge fuel bs (with_accumulator digest merge accumulator level) v)
        ≡ some (ok c, w')
      → covers c ≡ covers_of covers accumulator ++ flat src (s ∷ ss)
  covers_level fuel bs accumulator s ss w c w' p h =
      let step = fold_batches digest (batches bs (s ∷ ss)) w in
      let after = λ (level : List C) (v : W).
        merge_levels digest merge fuel bs (with_accumulator digest merge accumulator level) v in
      elim (Result-cases step.0) [
        | inl (level, made) ↦
            covers-merge_levels fuel bs (with_accumulator digest merge accumulator level) step.1 c
              w' p (sym (and_then-ok step after made) ∙ h)
            ∙ covers-with_accumulator accumulator level
            ∙ ap (λ t. covers_of covers accumulator ++ t)
                (covers-fold_batches digest src covers digests (batches bs (s ∷ ss)) w level made
                  ∙ ap (flat src) (concat-batches bs (s ∷ ss) p))
        | inr (x, failed) ↦ absurd (cc (and_then-err step after failed))
      ]

  -- If each answer of the model covers what its batch covers, the result of the reduction covers
  -- what the accumulator covers and then every summary, once, in the order given.
  pub hierarchical_reduce_covers :
      (fuel bs : ℕ) (accumulator : Option C) (summaries : List S) (w : W) (c : C) (w' : W)
      → hierarchical_reduce digest merge fuel accumulator summaries bs w ≡ some (ok c, w')
      → covers c ≡ covers_of covers accumulator ++ flat src summaries
  unfolding hierarchical_reduce
  hierarchical_reduce_covers fuel bs none [] w c w' h = absurd (ground arith)
  hierarchical_reduce_covers fuel bs (some a) [] w c w' h =
      let same : a ≡ c = cc in ap covers (sym same) ∙ sym (append-nil (covers a))
  hierarchical_reduce_covers fuel bs accumulator (s ∷ ss) w c w' h = elim (Bool-cases (bs == 0)) [
    | inl zero_size ↦ absurd (cc (rw zero_size at h))
    | inr sized ↦ covers_level fuel bs accumulator s ss w c w' (ground arith) (rw sized at h)
  ]
