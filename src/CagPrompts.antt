-- ===== src/CagPrompts.antt =====
-- The prompts of belief-state synthesis: backend/app/services/cag_prompts.py. `json.dumps`, `str` of
-- a UUID and `isoformat` are parameters. A prompt is its template with the fields filled in; no
-- other text of a template has braces.
pub mod Templates
use terrible_naming_conventi.Base.{
  ℕ, Option, none, some, List, [], ◌∷◌, ◌++◌, find, codes, map, ◌==◌,
}
use terrible_naming_conventi.Errors.{Result, ok, err, value_error}
use terrible_naming_conventi.Models.{Db, Document, DocumentSummary, Json, Text}
use terrible_naming_conventi.Schema.{BeliefStateContent, Pydantic}
use terrible_naming_conventi.CagPrompts.Templates.*

-- `"\n\n".join(texts)`
abbrev pub join_paragraphs : List Text → Text
join_paragraphs [] = []
join_paragraphs (t ∷ []) = t
join_paragraphs (t ∷ u ∷ us) = t ++ codes "\n\n" ++ join_paragraphs (u ∷ us)

-- how values are printed
pub record Printing : Type 0 where
  pub json_dumps : Json → Text
  pub uuid_str : ℕ → Text
  pub isoformat : ℕ → Text

-- `summary.document.filename`, "unknown" without a document
abbrev pub filename_of : Option Document → Text
filename_of none = codes "unknown"
filename_of (some d) = d.filename

module _ (printing : Printing) (python : Pydantic) (documents : List Document) where
  unfoldable pub format_summary : DocumentSummary → Text
  format_summary s =
      codes "--- summary id: "
      ++ printing.uuid_str s.id
      ++ codes " | "
      ++ codes "filename: "
      ++ filename_of (find (λ (d : Document). d.id == s.document_id) documents)
      ++ codes " | "
      ++ codes "created_at: "
      ++ printing.isoformat s.created_at
      ++ codes " ---"
      ++ codes "\n"
      ++ printing.json_dumps s.summary

  unfoldable pub format_initial_prompt : List DocumentSummary → Result Text
  unfolding format_summary
  format_initial_prompt [] = err value_error
  format_initial_prompt (s ∷ ss) = ok (
      initial_generation_before
      ++ join_paragraphs (map format_summary (s ∷ ss))
      ++ initial_generation_after)

  unfoldable pub format_incremental_prompt : BeliefStateContent → List DocumentSummary → Result Text
  unfolding format_summary
  format_incremental_prompt current_state [] = err value_error
  format_incremental_prompt current_state (s ∷ ss) = ok (
      incremental_update_before
      ++ printing.json_dumps (python.model_dump current_state)
      ++ incremental_update_between
      ++ join_paragraphs (map format_summary (s ∷ ss))
      ++ incremental_update_after)

  unfoldable pub format_batch_digest_prompt : List DocumentSummary → Result Text
  unfolding format_summary
  format_batch_digest_prompt [] = err value_error
  format_batch_digest_prompt (s ∷ ss) =
      ok
        (batch_digest_before ++ join_paragraphs (map format_summary (s ∷ ss)) ++ batch_digest_after)

  unfoldable pub format_digest_merge_prompt : List BeliefStateContent → Result Text
  format_digest_merge_prompt [] = err value_error
  format_digest_merge_prompt (d ∷ ds) = ok (
      digest_merge_before
      ++ join_paragraphs (map (λ c. printing.json_dumps (python.model_dump c)) (d ∷ ds))
      ++ digest_merge_after)
