-- ===== src/Eval/Calibrate.antt =====
-- The comparison of the judge with human grades: eval/calibrate.py. A quotient is kept as its two
-- numbers, and quotients are compared by their products. The threshold is such a quotient, so it is
-- not negative. Reading files and printing are not modelled.
use terrible_naming_conventi.Base.{
  ℕ, ◌+◌, ◌-◌, ◌*◌, max, Option, none, some, Bool, true, false, List, [], ◌∷◌, ◌++◌, count, length,
  ltb, leb, ◌==◌, ◌&&◌, if◌then◌else◌, same_text,
}
use terrible_naming_conventi.Models.{Text}
use terrible_naming_conventi.Eval.{
  ArmKind, same_arm, Axis, factual_correctness, grounding, conflict_handling, ArmJudgeScores,
  JudgeOutcome, QuestionResult, Grade, grade_on,
}
use terrible_naming_conventi.Eval.Report.{sum, by_axis}

-- part / over
pub record Ratio : Type 0 where
  pub part : ℕ
  pub over : ℕ

abbrev pub exceeds : Ratio → Ratio → Bool
exceeds x y = ltb (y.part * x.over) (x.part * y.over)

pub record AxisCalibration : Type 0 where
  pub mean_abs_diff : Ratio
  pub exact_agreement : Ratio
  pub within_one_agreement : Ratio
  pub n : ℕ

-- `warning` is the axis that the warning names.
pub record CalibrationResult : Type 0 where
  pub trustworthy : Bool
  pub warning : Option Axis
  pub per_axis : Axis → AxisCalibration
  pub n : ℕ

abbrev pub or_else : {A : Type 0} → Option A → Option A → Option A
or_else none b = b
or_else (some a) b = some a

-- `human_by_key.get((question_id, arm))`: the last grade with a key is kept
unfoldable pub human_for : Text → ArmKind → List Grade → Option Grade
human_for id arm [] = none
human_for id arm (g ∷ gs) =
    or_else (human_for id arm gs)
      (if same_text g.question_id id && same_arm g.arm arm then some g else none)

-- `abs(a - b)`
abbrev pub abs_diff : ℕ → ℕ → ℕ
abs_diff a b = (a - b) + (b - a)

-- one difference where a human has graded the same arm of the same question
abbrev pub diff_with : Axis → Grade → Option Grade → List ℕ
diff_with axis jg none = []
diff_with axis jg (some human) = abs_diff (grade_on axis jg) (grade_on axis human) ∷ []

unfoldable pub diffs : Axis → List Grade → List Grade → List ℕ
unfolding human_for
diffs axis human_grades [] = []
diffs axis human_grades (jg ∷ jgs) =
    diff_with axis jg (human_for jg.question_id jg.arm human_grades) ++ diffs axis human_grades jgs

abbrev pub nothing : Ratio
nothing = record { part = 0; over = 1 }

abbrev pub calibration_of : List ℕ → AxisCalibration
calibration_of [] = record {
  mean_abs_diff = nothing;
  exact_agreement = nothing;
  within_one_agreement = nothing;
  n = 0;
}
calibration_of (d ∷ ds) =
    let n = length (d ∷ ds) in
    record {
      mean_abs_diff = record { part = sum (d ∷ ds); over = n };
      exact_agreement = record { part = count (λ x. x == 0) (d ∷ ds); over = n };
      within_one_agreement = record { part = count (λ x. leb x 1) (d ∷ ds); over = n };
      n = n;
    }

-- the worst axis so far with its difference, and one more axis
abbrev pub Worst : Type 0
Worst = Option Axis × Ratio

abbrev pub worse : Axis → AxisCalibration → Worst → Worst
worse axis c worst = if exceeds c.mean_abs_diff worst.1 then (some axis, c.mean_abs_diff) else worst

-- the axis to warn of
abbrev pub warned : Ratio → Worst → Option Axis
warned threshold (none, diff) = none
warned threshold (some axis, diff) = if exceeds diff threshold then some axis else none

abbrev pub is_none : {A : Type 0} → Option A → Bool
is_none none = true
is_none (some a) = false

unfoldable pub compute_calibration : List Grade → List Grade → Ratio → CalibrationResult
unfolding diffs
compute_calibration judge_grades human_grades warn_threshold =
    let f = calibration_of (diffs factual_correctness human_grades judge_grades) in
    let g = calibration_of (diffs grounding human_grades judge_grades) in
    let c = calibration_of (diffs conflict_handling human_grades judge_grades) in
    let worst =
      worse conflict_handling c (worse grounding g (worse factual_correctness f (none, nothing))) in
    let total_n = max f.n (max g.n c.n) in
    let warning = if total_n == 0 then none else warned warn_threshold worst in
    record {
      trustworthy = is_none warning;
      warning = warning;
      per_axis = by_axis f g c;
      n = total_n;
    }

abbrev pub grade_of : Text → ArmKind → ArmJudgeScores → Grade
grade_of id arm s = record {
  question_id = id;
  arm = arm;
  factual_correctness = s.factual_correctness.score;
  grounding = s.grounding.score;
  conflict_handling = s.conflict_handling.score;
}

abbrev pub grades_of : Text → Option JudgeOutcome → List Grade
grades_of id none = []
grades_of id (some j) =
    grade_of id j.answer1_arm j.scores.answer1 ∷ grade_of id j.answer2_arm j.scores.answer2 ∷ []

unfoldable pub extract_judge_grades : List QuestionResult → List Grade
extract_judge_grades [] = []
extract_judge_grades (qr ∷ qrs) = grades_of qr.question_id qr.judge ++ extract_judge_grades qrs
