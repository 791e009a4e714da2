-- ===== src/Tests/Judging.antt =====
-- A question judged by a judge that prefers the answer "yes" (eval/judge.py, eval/report.py and
-- eval/calibrate.py).
use terrible_naming_conventi.Base.{
  ℕ, ◌≡◌, refl, Option, none, some, true, false, List, [], ◌∷◌, codes, occurs, same_text, filter,
  All, if◌then◌else◌, ◌&&◌, arith,
}
use terrible_naming_conventi.Errors.{ok, err, value_error, ok-injective}
use terrible_naming_conventi.Act.{Act}
use terrible_naming_conventi.Models.{Text}
use terrible_naming_conventi.Eval.{
  cag, rag, factual_correctness, grounding, conflict_handling, conflict_surfaced, Question,
  AxisScore, ArmJudgeScores, JudgeScores, JudgeOutcome, ArmResult, QuestionResult, Grade,
}
use terrible_naming_conventi.Eval.Judge.{
  Message, system, user, build_judge_messages, judge_attempts, call_and_parse, judge_question,
}
use terrible_naming_conventi.Eval.Report.{AxisAgg, unblind_axis, each, is_judged, agg_of, axis_agg}
use terrible_naming_conventi.Eval.Blinding.{
  IsImpartial, IsUnblinded, with_outcome, judge_question-IsUnblinded,
}
use terrible_naming_conventi.Eval.Calibrate.{Ratio, compute_calibration, extract_judge_grades}
use terrible_naming_conventi.Eval.Agreement.{
  IsPaired, column, mean_of, axis_agg-extract_judge_grades,
}
use terrible_naming_conventi.Eval.Gaps.{is_close, compute_calibration-trustworthy}

abbrev scored : ℕ → AxisScore
scored n = record { score = n; justification = [] }

abbrev pub all_at : ℕ → ArmJudgeScores
all_at n = record {
  factual_correctness = scored n;
  grounding = scored n;
  conflict_handling = scored n;
}

abbrev opinion : Text → ArmJudgeScores
opinion a = if same_text a (codes "yes") then all_at 5 else all_at 1

-- two digits
abbrev pub parse : Text → Option JudgeScores
parse (a ∷ b ∷ []) = some (record { answer1 = all_at a; answer2 = all_at b })
parse t = none

abbrev pub no_text : Text → Text
no_text t = []

abbrev pub judge : List Message → Act ℕ Text
judge (system s ∷ user t ∷ []) calls =
    (ok (if occurs (codes "Answer 1:\nyes") t then 5 ∷ 1 ∷ [] else 1 ∷ 5 ∷ []), calls)
judge messages calls = (err value_error, calls)

abbrev question : Question
question = record {
  id = codes "q1";
  question_text = codes "Is it?";
  reference_answer = codes "yes";
  expected_behavior = conflict_surfaced;
  grounding = [];
}

forward : IsImpartial parse no_text judge question [] opinion (codes "yes") (codes "no")
unfolding call_and_parse judge_attempts build_judge_messages
forward w s h = cc (ok-injective h)

backward : IsImpartial parse no_text judge question [] opinion (codes "no") (codes "yes")
unfolding call_and_parse judge_attempts build_judge_messages
backward w s h = cc (ok-injective h)

abbrev swapped : JudgeOutcome
swapped = record {
  answer1_arm = rag;
  answer2_arm = cag;
  scores = record { answer1 = all_at 1; answer2 = all_at 5 };
}

judged :
    (judge_question parse no_text judge question (codes "yes") (codes "no") [] false 0).0
    ≡ ok swapped
unfolding judge_question call_and_parse judge_attempts build_judge_messages
judged = refl

abbrev arm : Text → ArmResult
arm t = record { answer = t; chunks = []; belief_state_version = none }

abbrev unjudged : QuestionResult
unjudged = record {
  question_id = codes "q1";
  question_text = codes "Is it?";
  reference_answer = codes "yes";
  expected_behavior = conflict_surfaced;
  grounding = [];
  cag = arm (codes "yes");
  rag = arm (codes "no");
  retrieval_match = true;
  judge = none;
}

judge_question-IsUnblinded_example :
    IsUnblinded parse no_text judge question [] opinion
      (codes "yes")
      (codes "no")
      (with_outcome parse no_text judge question [] unjudged swapped)
judge_question-IsUnblinded_example =
    judge_question-IsUnblinded parse no_text judge question [] opinion (codes "yes") (codes "no")
      false 0 unjudged forward backward judged

abbrev results : List QuestionResult
results = record unjudged { judge = some swapped } ∷ unjudged ∷ []

abbrev figures : AxisAgg
figures = agg_of ((5, 1) ∷ [])

averaged : axis_agg factual_correctness (filter is_judged results) ≡ ok figures
unfolding axis_agg each unblind_axis
averaged = refl

results-IsPaired : All IsPaired results
results-IsPaired = ((λ j e. ground arith), ((λ j e. cc), tt))

axis_agg-extract_judge_grades_example :
    (figures.cag_mean ≡ mean_of (column factual_correctness cag (extract_judge_grades results)))
    × (figures.rag_mean ≡ mean_of (column factual_correctness rag (extract_judge_grades results)))
axis_agg-extract_judge_grades_example =
    axis_agg-extract_judge_grades factual_correctness results results-IsPaired averaged

abbrev human : Grade
human = record {
  question_id = codes "q1";
  arm = cag;
  factual_correctness = 3;
  grounding = 5;
  conflict_handling = 5;
}

abbrev one : Ratio
one = record { part = 1; over = 1 }

-- The factual correctness differs by two, which is more than the threshold of one.
compute_calibration-trustworthy_example :
    (compute_calibration (extract_judge_grades results) (human ∷ []) one).trustworthy
    ≡ is_close factual_correctness (extract_judge_grades results) (human ∷ []) one
      && is_close grounding (extract_judge_grades results) (human ∷ []) one
      && is_close conflict_handling (extract_judge_grades results) (human ∷ []) one
compute_calibration-trustworthy_example =
    compute_calibration-trustworthy (extract_judge_grades results) (human ∷ []) one
