-- ===== src/Eval/Judge.antt =====
-- The blind judge: eval/judge.py. The language model, `json.loads` with Pydantic's validation of the
-- scores, and the text of an exception are parameters; `coin` is `rng.random() < 0.5`.
use terrible_naming_conventi.Base.{
  ℕ, zero, suc, Option, none, some, Bool, true, false, List, [], ◌∷◌, ◌++◌, codes, decimal,
}
use terrible_naming_conventi.Errors.{value_error}
use terrible_naming_conventi.Act.{Act, ◌>>=◌, pure, raise}
use terrible_naming_conventi.Models.{Text}
use terrible_naming_conventi.CagPrompts.{join_paragraphs}
use terrible_naming_conventi.Eval.{cag, rag, Question, JudgeScores, JudgeOutcome}
use terrible_naming_conventi.Eval.Rubric.{judge_system, rubric_intro, conflict_rules, json_shape}

pub data Message : Type 0 where
  system user : Text → Message

-- `enumerate(source_texts, start=i)`
abbrev pub doc_blocks : ℕ → List Text → List Text
doc_blocks i [] = []
doc_blocks i (t ∷ ts) = (codes "[Doc " ++ decimal i ++ codes "] " ++ t) ∷ doc_blocks (suc i) ts

unfoldable pub build_judge_messages : Question → Text → Text → List Text → List Message
build_judge_messages question answer1 answer2 source_texts =
    system judge_system
    ∷ user (
        join_paragraphs (
          (codes "Question: " ++ question.question_text)
          ∷ (codes "Reference answer (ground truth): " ++ question.reference_answer)
          ∷ (codes "Source documents:\n" ++ join_paragraphs (doc_blocks 1 source_texts))
          ∷ (codes "Answer 1:\n" ++ answer1)
          ∷ (codes "Answer 2:\n" ++ answer2)
          ∷ rubric_intro
          ∷ conflict_rules question.expected_behavior
          ∷ json_shape
          ∷ []))
    ∷ []

-- the messages of an attempt: the second one adds what was wrong with the first answer
abbrev pub with_violation : List Message → Option Text → List Message
with_violation messages none = messages
with_violation messages (some last_error) =
    messages
    ++ user (
        codes "Your previous response was not valid JSON matching the required shape. Error: "
        ++ last_error
        ++ codes ". Return ONLY the JSON object, no prose, no code fences.")
      ∷ []

module _ {W : Type 0} (parse_judge_json : Text → Option JudgeScores) (error_text : Text → Text)
    (llm : List Message → Act W Text) where
  -- the scores, or another attempt
  abbrev pub parsed_or : Option JudgeScores → Act W JudgeScores → Act W JudgeScores
  parsed_or none retry = retry
  parsed_or (some scores) retry = pure scores

  -- `for attempt in range(2)`
  unfoldable pub judge_attempts : ℕ → List Message → Option Text → Act W JudgeScores
  judge_attempts zero messages last_error = raise value_error
  judge_attempts (suc n) messages last_error = do
    text ← llm (with_violation messages last_error)
    parsed_or (parse_judge_json text) (judge_attempts n messages (some (error_text text)))

  unfoldable pub call_and_parse : List Message → Act W JudgeScores
  unfolding judge_attempts
  call_and_parse messages = judge_attempts 2 messages none

  unfoldable pub judge_question : Question → Text → Text → List Text → Bool → Act W JudgeOutcome
  unfolding call_and_parse
  judge_question question cag_answer rag_answer source_texts true = do
    scores ← call_and_parse (build_judge_messages question cag_answer rag_answer source_texts)
    pure (record { answer1_arm = cag; answer2_arm = rag; scores = scores })
  judge_question question cag_answer rag_answer source_texts false = do
    scores ← call_and_parse (build_judge_messages question rag_answer cag_answer source_texts)
    pure (record { answer1_arm = rag; answer2_arm = cag; scores = scores })
