-- ===== src/Reduce/Prompt.antt =====
-- `_synthesize_prompt` of backend/app/workers/cag.py: one question to the language model and one
-- more where its answer is not a belief state. The model is the parameter `llm_call`, and
-- `json_loads` and the texts of the two kinds of error are parameters as well.
use terrible_naming_conventi.Base.{
  ℕ, zero, suc, ◌/◌, Option, none, some, List, [], ◌∷◌, ◌++◌, codes, ltb, length,
}
use terrible_naming_conventi.Errors.{raise_if, llm_error}
use terrible_naming_conventi.Act.{Act, ◌>>=◌, ◌>>◌, pure, raise, lift}
use terrible_naming_conventi.Models.{Text, Json}
use terrible_naming_conventi.Schema.{BeliefStateContent, Pydantic}
use terrible_naming_conventi.Prompting.{join_lines}

-- what an answer is read as: a content, or the line that is added to the errors
pub data Reading : Type 0 where
  content : BeliefStateContent → Reading
  violation : Text → Reading

-- the return of a content, or another attempt with one more error
abbrev pub proceed :
    {W : Type 0}
    → Reading
    → List Text
    → (List Text → Act W BeliefStateContent)
    → Act W BeliefStateContent
proceed (content c) errors retry = pure c
proceed (violation v) errors retry = retry (errors ++ v ∷ [])

-- the prompt, with what was wrong before
abbrev pub with_errors : Text → List Text → Text
with_errors prompt [] = prompt
with_errors prompt (e ∷ es) =
    prompt ++ codes "\n\nYour previous output violated:\n" ++ join_lines (e ∷ es)

module _ (python : Pydantic) (json_loads : Text → Option Json)
    (parse_error schema_error : Text → Text) where
  abbrev pub validated : Text → Option Json → Reading
  validated text none = violation (codes "JSON parse error: " ++ parse_error text)
  validated text (some parsed) = elim (python.model_validate parsed) [
    | some c ↦ content c
    | none ↦ violation (codes "Schema validation error: " ++ schema_error text)
  ]

  -- the two try blocks after the model's answer
  unfoldable pub read_answer : Text → Reading
  read_answer text = validated text (json_loads text)

  module _ {W : Type 0} (llm_call : Text → Act W Text) where
    -- `for _attempt in range(2)` with the errors so far
    unfoldable pub attempts : ℕ → Text → List Text → Act W BeliefStateContent
    unfolding read_answer
    attempts zero prompt errors = raise llm_error
    attempts (suc n) prompt errors = do
      text ← llm_call (with_errors prompt errors)
      proceed (read_answer text) errors (λ es. attempts n prompt es)

    unfoldable pub synthesize_prompt : ℕ → Text → Act W BeliefStateContent
    unfolding attempts
    synthesize_prompt cag_max_prompt_tokens prompt = do
      lift (raise_if (ltb cag_max_prompt_tokens (length prompt / 4)) llm_error)
      attempts 2 prompt []
