-- ===== src/Eval/Blinding.antt =====
-- The blinding of the judge (eval/judge.py) and its undoing (eval/report.py).
use terrible_naming_conventi.Base.{◌≡◌, ap, subst, Option, some, Bool, true, false, List}
use terrible_naming_conventi.Errors.{ok, ok-injective}
use terrible_naming_conventi.Act.{Act, continue-eq-ok}
use terrible_naming_conventi.Models.{Text}
use terrible_naming_conventi.Eval.{
  cag, rag, Question, ArmJudgeScores, JudgeScores, JudgeOutcome, QuestionResult, Axis, on_axis,
}
use terrible_naming_conventi.Eval.Judge.{
  Message, build_judge_messages, call_and_parse, judge_question,
}
use terrible_naming_conventi.Eval.Report.{unblind_axis, unblind_arm_scores}

module _ {W : Type 0} (parse_judge_json : Text → Option JudgeScores) (error_text : Text → Text)
    (llm : List Message → Act W Text) (question : Question) (source_texts : List Text) where
  -- Asked about two answers in this order, the judge gives to each the opinion that it has of it.
  abbrev pub IsImpartial : (Text → ArmJudgeScores) → Text → Text → Type 0
  IsImpartial opinion a b =
      (w : W) (s : JudgeScores)
      → (call_and_parse parse_judge_json error_text llm
          (build_judge_messages question a b source_texts) w).0
        ≡ ok s
      → s ≡ record { answer1 = opinion a; answer2 = opinion b }

  -- the result of a question with the outcome of its judgement
  abbrev pub with_outcome : QuestionResult → JudgeOutcome → QuestionResult
  with_outcome qr o = record qr { judge = some o }

  -- The scores unblinded for an arm are those of the arm's answer, on every axis.
  abbrev pub IsUnblinded : (Text → ArmJudgeScores) → Text → Text → QuestionResult → Type 0
  IsUnblinded opinion cag_answer rag_answer qr =
      (unblind_arm_scores cag qr ≡ ok (opinion cag_answer))
      × (unblind_arm_scores rag qr ≡ ok (opinion rag_answer))
      × ((axis : Axis)
          → unblind_axis axis qr
            ≡ ok (
              (on_axis axis (opinion cag_answer)).score,
              (on_axis axis (opinion rag_answer)).score,
            ))

  -- If the judge's opinion of the two answers does not depend on their order, then whichever way the
  -- coin falls, the scores of an outcome are unblinded for each arm to the opinion of its answer.
  pub judge_question-IsUnblinded :
      (opinion : Text → ArmJudgeScores) (cag_answer rag_answer : Text) (coin : Bool) (w : W)
      (qr : QuestionResult) {o : JudgeOutcome}
      → IsImpartial opinion cag_answer rag_answer
      → IsImpartial opinion rag_answer cag_answer
      → (judge_question parse_judge_json error_text llm question cag_answer rag_answer source_texts
          coin w).0
        ≡ ok o
      → IsUnblinded opinion cag_answer rag_answer (with_outcome qr o)
  unfolding judge_question unblind_arm_scores unblind_axis
  judge_question-IsUnblinded opinion x y true w qr {o} fair other h =
      let (s, e, h2) =
        continue-eq-ok
          (call_and_parse parse_judge_json error_text llm
            (build_judge_messages question x y source_texts) w)
          _ h in
      let same : record { answer1_arm = cag; answer2_arm = rag; scores = s } ≡ o =
        ok-injective h2 in
      let known = fair w s e in
      subst (λ o. IsUnblinded opinion x y (with_outcome qr o)) same
        (
          ap (λ (s : JudgeScores). ok s.answer1) known,
          ap (λ (s : JudgeScores). ok s.answer2) known,
          λ axis.
              ap
                (λ (s : JudgeScores).
                  ok ((on_axis axis s.answer1).score, (on_axis axis s.answer2).score))
                known,
        )
  judge_question-IsUnblinded opinion x y false w qr {o} other fair h =
      let (s, e, h2) =
        continue-eq-ok
          (call_and_parse parse_judge_json error_text llm
            (build_judge_messages question y x source_texts) w)
          _ h in
      let same : record { answer1_arm = rag; answer2_arm = cag; scores = s } ≡ o =
        ok-injective h2 in
      let known = fair w s e in
      subst (λ o. IsUnblinded opinion x y (with_outcome qr o)) same
        (
          ap (λ (s : JudgeScores). ok s.answer2) known,
          ap (λ (s : JudgeScores). ok s.answer1) known,
          λ axis.
              ap
                (λ (s : JudgeScores).
                  ok ((on_axis axis s.answer2).score, (on_axis axis s.answer1).score))
                known,
        )
