-- ===== src/Tests/Summaries.antt =====
-- A summary whose model call fails (backend/app/ingestion/summarizer.py).
use terrible_naming_conventi.Base.{ℕ, suc, ◌≡◌, refl, ap, Option, none, some, Bool, inl, [], ◌∷◌}
use terrible_naming_conventi.Errors.{ok, err, llm_error}
use terrible_naming_conventi.Act.{Act}
use terrible_naming_conventi.Models.{Db, DocumentSummary, Json, bool, obj, Postgres, Text}
use terrible_naming_conventi.Cag.{count_pending}
use terrible_naming_conventi.Jobs.History.{with_summary}
use terrible_naming_conventi.Samples.Sql.{postgres}
use terrible_naming_conventi.Summarizer.{fallback, summarize_document}
use terrible_naming_conventi.Summarizer.Fallback.{
  value_of, ReadsBooleans, summarize_document-count_pending,
}

abbrev as_flag : Option Json → Option Bool
as_flag (some (bool b)) = some b
as_flag o = none

abbrev flag_of : Json → Text → Option Bool
flag_of (obj fields) name = as_flag (value_of fields name)
flag_of j name = none

abbrev sql : Postgres
sql = record postgres { as_boolean = flag_of }

sql-ReadsBooleans : ReadsBooleans sql
sql-ReadsBooleans fields name b h = ap as_flag h

abbrev broken : Text → Text → Act ℕ Text
broken model prompt n = (err llm_error, suc n)

abbrev loads : Text → Option Json
loads t = none

summarize_document-count_pending_example :
    ((summarize_document loads broken (b'a' ∷ []) (b'f' ∷ []) (b'm' ∷ []) 0).0 ≡ ok fallback)
    × ((s : DocumentSummary) (pid : ℕ) (m : Option ℕ) (db : Db)
        → s.summary ≡ fallback
        → count_pending sql pid m (with_summary s db) ≡ count_pending sql pid m db)
summarize_document-count_pending_example =
    summarize_document-count_pending loads broken sql sql-ReadsBooleans (b'a' ∷ []) (b'f' ∷ [])
      (b'm' ∷ []) 0 (inl refl)
