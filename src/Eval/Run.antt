-- ===== src/Eval/Run.antt =====
-- A run of the evaluation: `run_arms_and_judge` of eval/run_eval.py, over the documents of
-- eval/fixtures.py. `flip` draws `random() < 0.5` from the seeded generator.
use terrible_naming_conventi.Base.{ℕ, Option, some, Bool, List, [], ◌∷◌}
use terrible_naming_conventi.Errors.{Result}
use terrible_naming_conventi.Act.{Act, ◌>>=◌, pure, lift}
use terrible_naming_conventi.Models.{Text, Json, Db, Postgres}
use terrible_naming_conventi.Schema.{Pydantic}
use terrible_naming_conventi.Retrieve.{Search}
use terrible_naming_conventi.Eval.{Question, JudgeScores, JudgeOutcome, ArmResult, QuestionResult}
use terrible_naming_conventi.Eval.Judge.{Message, judge_question}
use terrible_naming_conventi.Eval.Fixtures.{FixtureDoc, corpus_text_for}
use terrible_naming_conventi.Eval.Arms.{Cache, beside, run_two_arms}

abbrev pub result_for : Question → ArmResult × (ArmResult × Bool) → JudgeOutcome → QuestionResult
result_for question arms outcome = record {
  question_id = question.id;
  question_text = question.question_text;
  reference_answer = question.reference_answer;
  expected_behavior = question.expected_behavior;
  grounding = question.grounding;
  cag = arms.0;
  rag = arms.1.0;
  retrieval_match = arms.1.1;
  judge = some outcome;
}

module _ (postgres : Postgres) (python : Pydantic) (json_dumps : Json → Text) (uuid_str : ℕ → Text)
    {W Dense Sparse R : Type 0} (search : Search W Dense Sparse) (default_model : Text)
    (generate : Text → Text → Act W Text) (parse_judge_json : Text → Option JudgeScores)
    (error_text : Text → Text) (judge_llm : List Message → Act W Text) (flip : R → Bool × R)
    (corpus : List FixtureDoc) (project_id top_k : ℕ) (db : Db) where
  -- the steps of one question after the arms are asked
  unfoldable pub judged_result :
      Question → R → ArmResult × (ArmResult × Bool) → Act (Cache × W) QuestionResult
  unfolding corpus_text_for
  judged_result question rng arms = do
    source_texts ← lift (corpus_text_for corpus question.grounding)
    outcome ← beside (
        judge_question parse_judge_json error_text judge_llm question arms.0.answer arms.1.0.answer
          source_texts (flip rng).0)
    pure (result_for question arms outcome)

  unfoldable pub run_question : Question → R → Act (Cache × W) QuestionResult
  unfolding judged_result
  run_question question rng = do
    arms ←
        run_two_arms postgres python json_dumps uuid_str search default_model generate question
          project_id (project_id ∷ []) top_k db
    judged_result question rng arms

  unfoldable pub run_questions : List Question → R → Act (Cache × W) (List QuestionResult)
  unfolding run_question
  run_questions [] rng = pure []
  run_questions (question ∷ questions) rng = do
    result ← run_question question rng
    results ← run_questions questions (flip rng).1
    pure (result ∷ results)

  -- with an empty cache
  unfoldable pub run_arms_and_judge :
      List Question → R → Cache × W → Result (List QuestionResult) × (Cache × W)
  unfolding run_questions
  run_arms_and_judge questions rng (cache, w) = run_questions questions rng ([], w)
