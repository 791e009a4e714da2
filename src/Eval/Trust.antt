-- ===== src/Eval/Trust.antt =====
-- When calibration warns (eval/calibrate.py).
use Prim.Native.Nat.{ℕ, ◌≤◌, ◌<◌}
use native.Mathlib.Nat.{mul-le-mul_right, le_of_mul-le-mul_right, mul_right_comm}
use terrible_naming_conventi.Base.{
  ◌*◌, ◌≡◌, refl, ap, sym, subst, none, some, Bool, true, false, List, [], ◌∷◌, All, All-map, not,
  ◌||◌, max, ◌==◌, arith, Bool-cases, inl, inr,
}
use terrible_naming_conventi.Eval.{Axis, factual_correctness, grounding, conflict_handling, Grade}
use terrible_naming_conventi.Eval.Calibrate.{
  Ratio, exceeds, AxisCalibration, calibration_of, diffs, Worst, worse, warned, nothing, is_none,
  compute_calibration,
}

-- x is at most y
abbrev pub IsAtMost : Ratio → Ratio → Type 0
IsAtMost x y = x.part * y.over ≤ y.part * x.over

IsAtMost-trans : (x y z : Ratio) → 0 < y.over → IsAtMost x y → IsAtMost y z → IsAtMost x z
IsAtMost-trans x y z p h k =
    let first : x.part * z.over * y.over ≤ y.part * x.over * z.over =
      subst (λ t. t ≤ y.part * x.over * z.over) (mul_right_comm x.part y.over z.over)
        (mul-le-mul_right z.over h) in
    let second : y.part * x.over * z.over ≤ z.part * x.over * y.over =
      subst (λ t. t ≤ z.part * x.over * y.over) (mul_right_comm y.part z.over x.over)
        (subst (λ t. y.part * z.over * x.over ≤ t) (mul_right_comm z.part y.over x.over)
          (mul-le-mul_right x.over k)) in
    le_of_mul-le-mul_right (omega (arith, first, second)) p

IsAtMost-eq : (x y : Ratio) → exceeds x y ≡ false → IsAtMost x y
IsAtMost-eq x y h = ground arith

exceeds_lem : (x y : Ratio) → IsAtMost x y → exceeds x y ≡ false
exceeds_lem x y h = ground arith

positive : (ds : List ℕ) → 0 < (calibration_of ds).mean_abs_diff.over
positive [] = omega arith
positive (d ∷ ds) = omega arith

abbrev axes : List Axis
axes = conflict_handling ∷ grounding ∷ factual_correctness ∷ []

module _ (means : Axis → Ratio) where
  -- The worst axis is one that was seen, with its difference.
  abbrev Named : Worst → Type 0
  Named (none, diff) = diff ≡ nothing
  Named (some axis, diff) = means axis ≡ diff

  record IsWorst (seen : List Axis) (w : Worst) : Type 0 where
    over : 0 < w.1.over
    above : All (λ axis. IsAtMost (means axis) w.1) seen
    named : Named w

  worse-IsWorst :
      (axis : Axis) (c : AxisCalibration) (seen : List Axis) (w : Worst)
      → c.mean_abs_diff ≡ means axis
      → 0 < c.mean_abs_diff.over
      → IsWorst seen w
      → IsWorst (axis ∷ seen) (worse axis c w)
  worse-IsWorst axis c seen w e p i = elim (Bool-cases (exceeds c.mean_abs_diff w.1)) [
    | inl t ↦
        let refl_most : IsAtMost c.mean_abs_diff c.mean_abs_diff = omega arith in
        let below : IsAtMost w.1 c.mean_abs_diff = ground arith in
        rw t (record {
          over = p;
          above = (
            subst (λ m. IsAtMost m c.mean_abs_diff) e refl_most,
            All-map (λ a. IsAtMost (means a) w.1) (λ a. IsAtMost (means a) c.mean_abs_diff) seen
                (λ a h. IsAtMost-trans (means a) w.1 c.mean_abs_diff i.over h below) i.above,
          );
          named = sym e;
        })
    | inr t ↦ rw t (record {
      over = i.over;
      above = (subst (λ m. IsAtMost m w.1) e (IsAtMost-eq c.mean_abs_diff w.1 t), i.above);
      named = i.named;
    })
  ]

  -- one of the axes exceeds the threshold
  abbrev pub any_exceeds : Ratio → Bool
  any_exceeds threshold =
      exceeds (means factual_correctness) threshold
      || exceeds (means grounding) threshold
      || exceeds (means conflict_handling) threshold

  any_exceeds-true :
      (axis : Axis) (threshold : Ratio)
      → exceeds (means axis) threshold ≡ true
      → any_exceeds threshold ≡ true
  any_exceeds-true Axis.factual_correctness threshold h = rw h refl
  any_exceeds-true Axis.grounding threshold h =
      rw h (or_true (exceeds (means factual_correctness) threshold))
    where
      or_true : (b : Bool) → (b || true) || exceeds (means conflict_handling) threshold ≡ true
      or_true true = refl
      or_true false = refl
  any_exceeds-true Axis.conflict_handling threshold h = rw h (
      or_true
        (exceeds (means factual_correctness) threshold || exceeds (means grounding) threshold))
    where
      or_true : (b : Bool) → b || true ≡ true
      or_true true = refl
      or_true false = refl

  any_exceeds-false :
      (diff threshold : Ratio)
      → 0 < diff.over
      → All (λ a. IsAtMost (means a) diff) axes
      → IsAtMost diff threshold
      → any_exceeds threshold ≡ false
  any_exceeds-false diff threshold p (c, (g, (f, u))) low =
      let within : (a : Axis) → IsAtMost (means a) diff → exceeds (means a) threshold ≡ false =
        λ a h. exceeds_lem (means a) threshold (IsAtMost-trans (means a) diff threshold p h low) in
      rw (within factual_correctness f, within grounding g, within conflict_handling c) refl

  -- A warning is given exactly when some axis exceeds the threshold.
  warned-IsWorst :
      (w : Worst) (threshold : Ratio)
      → IsWorst axes w
      → is_none (warned threshold w) ≡ not (any_exceeds threshold)
  warned-IsWorst (none, diff) threshold i =
      let low = subst (λ d. IsAtMost d threshold) (sym i.named) (omega arith) in
      ap not (sym (any_exceeds-false diff threshold i.over i.above low))
  warned-IsWorst (some axis, diff) threshold i = elim (Bool-cases (exceeds diff threshold)) [
    | inl t ↦ rw t (
        ap not (
          sym (
            any_exceeds-true axis threshold
              (subst (λ d. exceeds d threshold ≡ true) (sym i.named) t))))
    | inr t ↦ rw t (
        ap not
          (sym (any_exceeds-false diff threshold i.over i.above (IsAtMost-eq diff threshold t))))
  ]

module _ (judge_grades human_grades : List Grade) where
  abbrev cal : Axis → AxisCalibration
  cal axis = calibration_of (diffs axis human_grades judge_grades)

  abbrev means : Axis → Ratio
  means axis = (cal axis).mean_abs_diff

  worst_lem : IsWorst means axes (
      worse conflict_handling (cal conflict_handling) (
        worse grounding
          (cal grounding)
          (worse factual_correctness (cal factual_correctness) (none, nothing))))
  worst_lem =
      let start : IsWorst means [] (none, nothing) = record {
        over = omega arith;
        above = tt;
        named = refl;
      } in
      let first =
        worse-IsWorst means factual_correctness (cal factual_correctness) [] (none, nothing) refl
          (positive (diffs factual_correctness human_grades judge_grades)) start in
      let second =
        worse-IsWorst means grounding (cal grounding) (factual_correctness ∷ []) _ refl
          (positive (diffs grounding human_grades judge_grades)) first in
      worse-IsWorst means conflict_handling (cal conflict_handling)
        (grounding ∷ factual_correctness ∷ []) _ refl
        (positive (diffs conflict_handling human_grades judge_grades)) second

  abbrev total : ℕ
  total = max (cal factual_correctness).n (max (cal grounding).n (cal conflict_handling).n)

  idle :
      (ds : List ℕ) (threshold : Ratio)
      → (calibration_of ds).n ≡ 0
      → exceeds (calibration_of ds).mean_abs_diff threshold ≡ false
  idle [] threshold h = exceeds_lem nothing threshold (omega arith)
  idle (d ∷ ds) threshold h = absurd (ground arith)

  all_idle : (threshold : Ratio) → (total == 0) ≡ true → any_exceeds means threshold ≡ false
  all_idle threshold h =
      let f = idle (diffs factual_correctness human_grades judge_grades) threshold (ground arith) in
      let g = idle (diffs grounding human_grades judge_grades) threshold (ground arith) in
      let c = idle (diffs conflict_handling human_grades judge_grades) threshold (ground arith) in
      rw (f, g, c) refl

  -- The judge is called trustworthy exactly when on no axis the mean difference between its grades
  -- and the human ones exceeds the threshold; without a grade that both have given it always is.
  pub trustworthy-any_exceeds :
      (threshold : Ratio)
      → let result = compute_calibration judge_grades human_grades threshold in
        result.trustworthy
        ≡ not (any_exceeds (λ axis. (result.per_axis axis).mean_abs_diff) threshold)
  unfolding compute_calibration
  trustworthy-any_exceeds threshold = elim (Bool-cases (total == 0)) [
    | inl t ↦ rw t (ap not (sym (all_idle threshold t)))
    | inr t ↦ rw t (warned-IsWorst means _ threshold worst_lem)
  ]
