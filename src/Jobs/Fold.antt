-- ===== src/Jobs/Fold.antt =====
-- The two functions that backend/app/workers/cag.py hands to the service: `synthesize_fn` of
-- `cag_update`, and `_hierarchical_reduce` of `cag_rebuild` with its prompts and its calls of the
-- model.
use terrible_naming_conventi.Base.{ℕ, suc, Option, none, some, List, length}
use terrible_naming_conventi.Errors.{Result, err, timeout_error}
use terrible_naming_conventi.Act.{Act, ◌>>=◌, lift}
use terrible_naming_conventi.Models.{Document, DocumentSummary, Json, Text}
use terrible_naming_conventi.Schema.{BeliefStateContent, Pydantic}
use terrible_naming_conventi.Cag.{SynthesizeFn}
use terrible_naming_conventi.CagPrompts.{
  Printing, format_initial_prompt, format_incremental_prompt, format_batch_digest_prompt,
  format_digest_merge_prompt,
}
use terrible_naming_conventi.Reduce.{hierarchical_reduce}
use terrible_naming_conventi.Reduce.Prompt.{synthesize_prompt}

-- The language model, called with a model's name and a prompt, what is read from its answer, and
-- the configured budget.
pub record Llm (V : Type 0) : Type 0 where
  pub printing : Printing
  pub json_loads : Text → Option Json
  pub parse_error : Text → Text
  pub schema_error : Text → Text
  pub llm_call : Text → Text → Act V Text
  pub cag_max_prompt_tokens : ℕ

-- the result of the reduction; without one its fuel ran out
abbrev pub result_of :
    {V : Type 0} → Option (Result BeliefStateContent × V) → Result BeliefStateContent
result_of none = err timeout_error
result_of (some o) = o.0

module _ (python : Pydantic) {V : Type 0} (llm : Llm V) (model : Text)
    (documents : List Document) where
  abbrev pub synthesize : Text → Act V BeliefStateContent
  synthesize prompt =
      synthesize_prompt python llm.json_loads llm.parse_error llm.schema_error (llm.llm_call model)
        llm.cag_max_prompt_tokens prompt

  -- the prompt of `synthesize_fn`
  abbrev pub base_prompt : Option BeliefStateContent → List DocumentSummary → Result Text
  base_prompt none window = format_initial_prompt llm.printing python documents window
  base_prompt (some current_state) window =
      format_incremental_prompt llm.printing python documents current_state window

  unfoldable pub synthesize_fn : V → SynthesizeFn
  synthesize_fn v current_state window =
      ((do prompt ← lift (base_prompt current_state window); synthesize prompt) v).0

  unfoldable pub digest : List DocumentSummary → Act V BeliefStateContent
  digest batch = do
    prompt ← lift (format_batch_digest_prompt llm.printing python documents batch)
    synthesize prompt

  unfoldable pub merge : List BeliefStateContent → Act V BeliefStateContent
  merge level = do
    prompt ← lift (format_digest_merge_prompt llm.printing python documents level)
    synthesize prompt

  unfoldable pub rebuild_fn : V → SynthesizeFn
  unfolding digest merge
  rebuild_fn v accumulator summaries =
      result_of
        (hierarchical_reduce digest merge (suc (length summaries)) accumulator summaries 40 v)
