-- ===== src/Tests/Uploads.antt =====
-- An upload, its chunks and its ingestion.
use terrible_naming_conventi.Base.{
  ℕ, suc, ◌-◌, ◌≡◌, refl, arith, none, Bool, true, false, List, [], ◌∷◌, codes, length,
}
use terrible_naming_conventi.Errors.{ok, err, llm_error, statement_error}
use terrible_naming_conventi.Act.{Act}
use terrible_naming_conventi.Models.{Db, IngestionJob, Fresh, txt, running, null, Postgres}
use terrible_naming_conventi.Samples.Sql.{postgres}
use terrible_naming_conventi.Samples.Codec.{pydantic}
use terrible_naming_conventi.Documents.{upload_document, new_job, new_document, with_upload}
use terrible_naming_conventi.Documents.Upload.{IsUploaded, upload_document-IsUploaded}
use terrible_naming_conventi.Chunks.{naive_chunk, split_from}
use terrible_naming_conventi.Chunks.Windows.{IsCut, naive_chunk-IsCut, naive_chunk_never}
use terrible_naming_conventi.Ingest.{
  Worker, ingest_document, ingest_steps, ingest_started, ingest_from, store_summary, rescue,
  sweep_pending_jobs, enqueue_all,
}
use terrible_naming_conventi.Ingest.Jobs.{IsSettled, ingest_document-IsSettled}
use terrible_naming_conventi.Tests.Accounts.{office}

abbrev row : ℕ → Fresh
row id = record { id = id; now = 100 }

abbrev push : IngestionJob → Act (List ℕ) (Unit {0})
push job ids = (ok tt, job.id ∷ ids)

upload_document-IsUploaded_example :
    IsUploaded 1
      (row 30)
      (row 40)
      7
      (codes "a.b.TXT")
      (1 ∷ [])
      (7 ∷ [])
      office
      []
      (upload_document push 1 (row 30) (row 40) 7 (codes "a.b.TXT") (1 ∷ []) (7 ∷ []) (office, []))
upload_document-IsUploaded_example =
    upload_document-IsUploaded push 1 (row 30) (row 40) 7 (codes "a.b.TXT") (1 ∷ []) (7 ∷ []) office
      []

naive_chunk-IsCut_example :
    IsCut 2
      (2 - 1)
      0
      0
      (split_from [] (codes "a b  c"))
      (naive_chunk (length (split_from [] (codes "a b  c"))) (codes "a b  c") 2 1)
naive_chunk-IsCut_example = naive_chunk-IsCut (codes "a b  c") 2 1 (omega arith) refl (omega arith)

naive_chunk_never_example : naive_chunk 1000 (codes "a b  c") 2 2 ≡ none
naive_chunk_never_example =
    naive_chunk_never 1000 (codes "a b  c") 2 2 (omega arith) refl (omega arith)

abbrev uploaded : Db
uploaded =
    with_upload (new_document (row 30) 7 (codes "a.txt") txt []) (new_job (row 40) 7 30) office

-- a worker whose summary model fails
abbrev failing : Worker ℕ
failing = record {
  index_document = λ doc project n. (ok tt, suc n);
  summarize = λ doc project n. (err llm_error, suc n);
  enqueue_cag_update = λ project_id n. (ok tt, suc n);
  default_threshold = 5;
}

ingest_document-IsSettled_example :
    IsSettled postgres pydantic failing 40 30
      (new_job (row 40) 7 30)
      200
      (ingest_document postgres pydantic failing (row 50) 200 40 30 7 (uploaded, 0))
ingest_document-IsSettled_example =
    ingest_document-IsSettled postgres pydantic failing 40 30 7 200 (row 50) (new_job (row 40) 7 30)
      uploaded 0 refl

-- The database refuses the summary: the job is left running.
abbrev answering : Worker ℕ
answering = record failing { summarize = λ doc project n. (ok null, suc n) }

abbrev refusing : Postgres
refusing = record postgres { accepts_jsonb = λ j. false }

left_running :
    let (result, s) =
      ingest_document refusing pydantic answering (row 50) 200 40 30 7 (uploaded, 0) in
    (result ≡ err statement_error)
    × (s.0.ingestion_jobs ≡ record (new_job (row 40) 7 30) { status = running } ∷ [])
unfolding ingest_document ingest_steps ingest_started ingest_from store_summary rescue
left_running = (refl, refl)

abbrev queue : IngestionJob → Act ℕ Bool
queue job n = (ok true, suc n)

swept : (sweep_pending_jobs queue 1000 uploaded 0).0 ≡ ok (1, 1)
unfolding sweep_pending_jobs enqueue_all
swept = refl
