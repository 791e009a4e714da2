-- ===== src/Eval/Gaps.antt =====
-- How far the judge's grades are from the human ones (eval/calibrate.py).
use terrible_naming_conventi.Base.{
  ℕ, ◌+◌, ◌-◌, ◌*◌, ◌≡◌, refl, ap, sym, ◌∙◌, Option, none, some, Bool, true, false, List, [], ◌∷◌,
  ◌++◌, filter, length, leb, if◌then◌else◌, ◌&&◌, ◌||◌, not, same_text, arith, Bool-cases, inl, inr,
}
use terrible_naming_conventi.Eval.{
  same_arm, Axis, factual_correctness, grounding, conflict_handling, Grade, grade_on,
}
use terrible_naming_conventi.Eval.Report.{sum}
use terrible_naming_conventi.Eval.Calibrate.{
  Ratio, exceeds, calibration_of, diffs, human_for, or_else, diff_with, compute_calibration,
}
use terrible_naming_conventi.Eval.Trust.{trustworthy-any_exceeds}

abbrev pub last? : {A : Type 0} → List A → Option A
last? [] = none
last? (x ∷ []) = some x
last? (x ∷ y ∷ xs) = last? (y ∷ xs)

-- The last human grade of the same arm of the same question.
abbrev pub counterpart : Grade → List Grade → Option Grade
counterpart jg human_grades = last? (
    filter (λ (g : Grade). same_text g.question_id jg.question_id && same_arm g.arm jg.arm)
      human_grades)

-- how many grades have a counterpart, and how far they are from it in all
abbrev pub pairs : List Grade → List Grade → ℕ
pairs human_grades [] = 0
pairs human_grades (jg ∷ jgs) =
    elim (counterpart jg human_grades) [ none ↦ 0 | some human ↦ 1 ] + pairs human_grades jgs

abbrev pub gap : Axis → Grade → Option Grade → ℕ
gap axis jg none = 0
gap axis jg (some human) =
    if leb (grade_on axis human) (grade_on axis jg)
    then grade_on axis jg - grade_on axis human
    else grade_on axis human - grade_on axis jg

abbrev pub gaps : Axis → List Grade → List Grade → ℕ
gaps axis human_grades [] = 0
gaps axis human_grades (jg ∷ jgs) =
    gap axis jg (counterpart jg human_grades) + gaps axis human_grades jgs

-- The mean distance on the axis, gaps / pairs, is at most the threshold; it is where there are no
-- pairs.
abbrev pub is_close : Axis → List Grade → List Grade → Ratio → Bool
is_close axis judge_grades human_grades threshold =
    leb (gaps axis human_grades judge_grades * threshold.over)
      (threshold.part * pairs human_grades judge_grades)

or_else-some :
    {A : Type 0} (o : Option A) (x y : A)
    → or_else (or_else o (some y)) (some x) ≡ or_else o (some y)
or_else-some none x y = refl
or_else-some (some z) x y = refl

last?-cons : {A : Type 0} (x : A) (xs : List A) → last? (x ∷ xs) ≡ or_else (last? xs) (some x)
last?-cons x [] = refl
last?-cons x (y ∷ ys) =
    last?-cons y ys
    ∙ sym (or_else-some (last? ys) x y)
    ∙ ap (λ o. or_else o (some x)) (sym (last?-cons y ys))

or_else-none : {A : Type 0} (o : Option A) → or_else o none ≡ o
or_else-none none = refl
or_else-none (some x) = refl

human_for-counterpart :
    (jg : Grade) (gs : List Grade) → human_for jg.question_id jg.arm gs ≡ counterpart jg gs
unfolding human_for
human_for-counterpart jg [] = refl
human_for-counterpart jg (g ∷ gs) =
    let key = λ (x : Grade). same_text x.question_id jg.question_id && same_arm x.arm jg.arm in
    let rest = human_for-counterpart jg gs in
    elim (Bool-cases (same_text g.question_id jg.question_id && same_arm g.arm jg.arm)) [
      | inl t ↦ rw t (ap (λ o. or_else o (some g)) rest ∙ sym (last?-cons g (filter key gs)))
      | inr t ↦ rw t (ap (λ o. or_else o none) rest ∙ or_else-none (counterpart jg gs))
    ]

diff-gap :
    (axis : Axis) (jg : Grade) (o : Option Grade) (ds : List ℕ)
    → (sum (diff_with axis jg o ++ ds) ≡ gap axis jg o + sum ds)
      × (length (diff_with axis jg o ++ ds) ≡ elim o [ none ↦ 0 | some human ↦ 1 ] + length ds)
diff-gap axis jg none ds = (omega arith, omega arith)
diff-gap axis jg (some human) ds = (ground arith, omega arith)

diffs-gaps :
    (axis : Axis) (hs js : List Grade)
    → (sum (diffs axis hs js) ≡ gaps axis hs js) × (length (diffs axis hs js) ≡ pairs hs js)
unfolding diffs
diffs-gaps axis hs [] = (refl, refl)
diffs-gaps axis hs (jg ∷ jgs) =
    let (s, n) = diffs-gaps axis hs jgs in
    let (d, l) = diff-gap axis jg (counterpart jg hs) (diffs axis hs jgs) in
    rw (human_for-counterpart jg hs) (omega (arith, s, d), omega (arith, n, l))

exceeds-mean :
    (ds : List ℕ) (threshold : Ratio)
    → exceeds (calibration_of ds).mean_abs_diff threshold
      ≡ not (leb (sum ds * threshold.over) (threshold.part * length ds))
exceeds-mean [] threshold = ground arith
exceeds-mean (d ∷ ds) threshold = ground arith

exceeds-is_close :
    (axis : Axis) (judge_grades human_grades : List Grade) (threshold : Ratio)
    → exceeds (calibration_of (diffs axis human_grades judge_grades)).mean_abs_diff threshold
      ≡ not (is_close axis judge_grades human_grades threshold)
exceeds-is_close axis js hs threshold =
    let (s, n) = diffs-gaps axis hs js in
    rw (sym s, sym n) (exceeds-mean (diffs axis hs js) threshold)

de_morgan :
    {x y z : Bool} (f g c : Bool)
    → x ≡ not f
    → y ≡ not g
    → z ≡ not c
    → not (x || y || z) ≡ f && g && c
de_morgan false g c hx hy hz = rw hx refl
de_morgan true false c hx hy hz = rw (hx, hy) refl
de_morgan true true false hx hy hz = rw (hx, hy, hz) refl
de_morgan true true true hx hy hz = rw (hx, hy, hz) refl

-- The judge is called trustworthy exactly when on each of the three axes the mean distance of its
-- grades from the last human grade of the same arm of the same question is at most the threshold.
pub compute_calibration-trustworthy :
    (judge_grades human_grades : List Grade) (threshold : Ratio)
    → (compute_calibration judge_grades human_grades threshold).trustworthy
      ≡ is_close factual_correctness judge_grades human_grades threshold
        && is_close grounding judge_grades human_grades threshold
        && is_close conflict_handling judge_grades human_grades threshold
unfolding compute_calibration
compute_calibration-trustworthy js hs threshold =
    trustworthy-any_exceeds js hs threshold
    ∙ de_morgan _ _ _ (exceeds-is_close factual_correctness js hs threshold)
        (exceeds-is_close grounding js hs threshold)
        (exceeds-is_close conflict_handling js hs threshold)
