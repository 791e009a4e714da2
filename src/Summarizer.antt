-- ===== src/Summarizer.antt =====
-- The summary of a document: backend/app/ingestion/summarizer.py. The language model and
-- `json.loads` are parameters; a number of the fallback is kept as its literal.
pub mod Template
pub mod Fallback
use terrible_naming_conventi.Base.{
  ℕ, Option, none, some, Bool, true, false, List, [], ◌∷◌, ◌++◌, codes,
}
use terrible_naming_conventi.Errors.{Error, Result, ok, err, llm_error}
use terrible_naming_conventi.Act.{Act}
use terrible_naming_conventi.Models.{
  Json, bool, num, str, arr, obj, Items, nil, Fields, end, field, Text,
}
use terrible_naming_conventi.Summarizer.Template.{
  summary_prompt_before, summary_prompt_between, summary_prompt_after,
}

-- fields with empty lists
abbrev pub empty_lists : List Text → Fields → Fields
empty_lists [] rest = rest
empty_lists (k ∷ ks) rest = field k (arr nil) (empty_lists ks rest)

-- `_FALLBACK`
unfoldable pub fallback : Json
fallback = obj (
    field (codes "summary") (str (codes "Failed to summarize document")) (
      empty_lists
        (codes "key_points"
          ∷ codes "technical_concepts"
          ∷ codes "architectural_components"
          ∷ codes "decisions"
          ∷ codes "action_items"
          ∷ [])
        (field (codes "entities")
          (obj (
            empty_lists
              (codes "people"
                ∷ codes "organizations"
                ∷ codes "technologies"
                ∷ codes "repositories"
                ∷ codes "services"
                ∷ [])
              end))
          (empty_lists (codes "topics" ∷ codes "important_relationships" ∷ []) (
            field (codes "document_type") (str (codes "other")) (
              field (codes "confidence") (num (codes "0.0"))
                (field (codes "raw_text_fallback") (bool true) end)))))))

-- `_SUMMARY_PROMPT.format(filename=filename, text=text)`
abbrev pub summary_prompt : Text → Text → Text
summary_prompt filename text =
    summary_prompt_before ++ filename ++ summary_prompt_between ++ text ++ summary_prompt_after

-- a JSON object as it is, and the fallback for what is no JSON or no object
abbrev pub object_or_fallback : Option Json → Json
object_or_fallback (some (obj fields)) = obj fields
object_or_fallback parsed = fallback

module _ {W : Type 0} (json_loads : Text → Option Json) (llm_call : Text → Text → Act W Text) where
  -- after the model's answer; `except LLMError` only
  abbrev pub read_summary : Result Text × W → Result Json × W
  read_summary (ok text, w) = (ok (object_or_fallback (json_loads text)), w)
  read_summary (err llm_error, w) = (ok fallback, w)
  read_summary (err e, w) = (err e, w)

  unfoldable pub summarize_document : Text → Text → Text → Act W Json
  summarize_document text filename model w =
      read_summary (llm_call model (summary_prompt filename text) w)
