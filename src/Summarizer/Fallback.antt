-- ===== src/Summarizer/Fallback.antt =====
-- What becomes of a document whose summary fails (backend/app/ingestion/summarizer.py with
-- backend/app/services/cag.py).
use terrible_naming_conventi.Base.{
  ℕ, ◌≡◌, refl, ap, sym, subst, ◌∙◌, Option, none, some, Bool, true, false, same_text,
  if◌then◌else◌, ◌⊎◌, inl, inr, [], ◌∷◌, arith, count, count-append,
}
use terrible_naming_conventi.Errors.{Result, ok, err, llm_error, ok-injective}
use terrible_naming_conventi.Act.{Act}
use terrible_naming_conventi.Models.{
  Db, DocumentSummary, Json, null, bool, num, str, arr, obj, Fields, end, field, Postgres, Text,
}
use terrible_naming_conventi.Cag.{raw_text_fallback, not_fallback, in_window, count_pending}
use terrible_naming_conventi.Jobs.History.{with_summary}
use terrible_naming_conventi.Summarizer.{
  fallback, summary_prompt, object_or_fallback, read_summary, summarize_document,
}

abbrev is_object : Json → Bool
is_object (obj fields) = true
is_object j = false

abbrev or_else : {A : Type 0} → Option A → Option A → Option A
or_else none b = b
or_else (some a) b = some a

-- The model raises its error, or answers with what is no JSON or no JSON object.
abbrev pub IsFailure : {W : Type 0} → (Text → Option Json) → Result Text × W → Type 0
IsFailure json_loads answer =
    (answer.0 ≡ err llm_error)
    ⊎ ((text : Text) × (answer.0 ≡ ok text)
        × ((json_loads text ≡ none)
            ⊎ ((j : Json) × (json_loads text ≡ some j) × (is_object j ≡ false))))

-- The value of a name in a JSON object; a JSONB object keeps the last of equal names.
abbrev pub value_of : Fields → Text → Option Json
value_of end name = none
value_of (field k j fields) name =
    or_else (value_of fields name) (if same_text k name then some j else none)

-- `->>` with a cast reads a JSON boolean.
abbrev pub ReadsBooleans : Postgres → Type 0
ReadsBooleans pg =
    (fields : Fields) (name : Text) (b : Bool)
    → value_of fields name ≡ some (bool b)
    → pg.as_boolean (obj fields) name ≡ some b

object_or_fallback-is_object :
    (j : Json) → is_object j ≡ false → object_or_fallback (some j) ≡ fallback
object_or_fallback-is_object null h = refl
object_or_fallback-is_object (bool b) h = refl
object_or_fallback-is_object (num t) h = refl
object_or_fallback-is_object (str t) h = refl
object_or_fallback-is_object (arr xs) h = refl
object_or_fallback-is_object (obj fields) h = cc

module _ {W : Type 0} (json_loads : Text → Option Json) (llm_call : Text → Text → Act W Text) where
  failed_lem :
      (p : Result Text × W)
      → IsFailure json_loads p
      → (read_summary json_loads llm_call p).0 ≡ ok fallback
  failed_lem (ok text, w) (inl e) = cc
  failed_lem (err x, w) (inl e) =
      let same : llm_error ≡ x = cc in
      subst (λ y. (read_summary json_loads llm_call (err y, w)).0 ≡ ok fallback) same refl
  failed_lem (ok t, w) (inr (text, e, inl h)) =
      let same : text ≡ t = ok-injective (sym e) in
      ap (λ o. ok (object_or_fallback o)) (ap json_loads (sym same) ∙ h)
  failed_lem (ok t, w) (inr (text, e, inr (j, h, other))) =
      let same : text ≡ t = ok-injective (sym e) in
      ap (λ o. ok (object_or_fallback o)) (ap json_loads (sym same) ∙ h)
      ∙ ap ok (object_or_fallback-is_object j other)
  failed_lem (err x, w) (inr (text, e, h)) = cc

  module _ (pg : Postgres) (reads : ReadsBooleans pg) where
    flagged : pg.as_boolean fallback raw_text_fallback ≡ some true
    unfolding fallback
    flagged = reads _ raw_text_fallback true refl

    fallback_lem : (s : DocumentSummary) → s.summary ≡ fallback → not_fallback pg s ≡ false
    unfolding not_fallback
    fallback_lem s e = rw (e, flagged) refl

    unseen_lem :
        (s : DocumentSummary) (pid : ℕ) (m : Option ℕ) (db : Db)
        → s.summary ≡ fallback
        → count_pending pg pid m (with_summary s db) ≡ count_pending pg pid m db
    unfolding count_pending
    unseen_lem s pid m db e =
        let hidden = fallback_lem s e in
        let absent : count (in_window pg pid m) (s ∷ []) ≡ 0 = ground arith in
        omega (arith, count-append (in_window pg pid m) db.document_summaries (s ∷ []), absent)

    -- Where the database reads a boolean field of a JSON object as that boolean, a document whose
    -- model call fails, or is answered with what is no JSON object, has the fallback as its summary,
    -- and a row with the fallback is pending for no project and no watermark: it is never counted as
    -- a summary to fold.
    pub summarize_document-count_pending :
        (text filename model : Text) (w : W)
        → IsFailure json_loads (llm_call model (summary_prompt filename text) w)
        → ((summarize_document json_loads llm_call text filename model w).0 ≡ ok fallback)
          × ((s : DocumentSummary) (pid : ℕ) (m : Option ℕ) (db : Db)
              → s.summary ≡ fallback
              → count_pending pg pid m (with_summary s db) ≡ count_pending pg pid m db)
    unfolding summarize_document
    summarize_document-count_pending text filename model w failure =
        (failed_lem (llm_call model (summary_prompt filename text) w) failure, unseen_lem)
