-- ===== src/Ingest/Jobs.antt =====
-- How an ingestion job ends (backend/app/workers/ingest.py).
use terrible_naming_conventi.Base.{
  ℕ, find-passes, ◌≡◌, refl, ap, ◌∙◌, subst, some, Bool, true, false, inl, inr, find, any, ◌==◌,
  if◌then◌else◌, arith, ◌⊎◌, ◌&&◌, not, Bool-cases,
}
use terrible_naming_conventi.Errors.{
  Error, Result, ok, err, Result-cases, or_raise-ok, value_error, cancelled_error, statement_error,
  is_exception, is_refused_statement,
}
use terrible_naming_conventi.Act.{continue, Ends, Ends-continue, ◌>>◌, pure}
use terrible_naming_conventi.Models.{
  Db, Document, DocumentSummary, IngestionJob, running, complete, failed, Project, Fresh, Json,
  Postgres,
}
use terrible_naming_conventi.Schema.{Pydantic}
use terrible_naming_conventi.Documents.{commit, outside}
use terrible_naming_conventi.Ingest.{
  is_job, started, completed, broken, with_job, fetch_document, fetch_project, insert_summary,
  Worker, is_due, store_summary, maybe_enqueue_cag_update, ingest_from, ingest_started,
  ingest_steps, mark_job_failed, rescue, ingest_document,
}
use terrible_naming_conventi.Ingest.Rows.{find-change_job, any-insert_summary, insert_summary-jobs}

-- The tables have the job with the id as it is given.
abbrev pub HasJob : {W : Type 0} → ℕ → IngestionJob → Db × W → Type 0
HasJob job_id j s = find (is_job job_id) s.0.ingestion_jobs ≡ some j

-- The tables have a summary of the document.
abbrev pub HasSummary : {W : Type 0} → ℕ → Db × W → Type 0
HasSummary document_id s =
    any (λ (m : DocumentSummary). m.document_id == document_id) s.0.document_summaries ≡ true

-- A call of the outside leaves the tables, and so does a query.
settle :
    {W A : Type 0} (P F : Db → Type 0) (db : Db) (r : Result A × W)
    → P db
    → F db
    → Ends {W = Db × W} {A = A} (λ _ t. P t.0) (λ _ t. F t.0) (r.0, (db, r.1))
settle P F db (ok a, w) h f = h
settle P F db (err e, w) h f = f

fetch_document-id :
    (document_id : ℕ) (db : Db) (d : Document)
    → fetch_document document_id db ≡ ok d
    → d.id ≡ document_id
fetch_document-id document_id db d h =
    let found =
      or_raise-ok (find (λ (x : Document). x.id == document_id) db.documents) value_error h in
    let same = find-passes (λ (x : Document). x.id == document_id) db.documents found in
    ground (arith, same)

-- What the handler does not note is a cancellation or a refused statement.
handled-cases :
    (e : Error)
    → (is_exception e && not (is_refused_statement e) ≡ true)
      ⊎ ((e ≡ cancelled_error) ⊎ (e ≡ statement_error))
        × (is_exception e && not (is_refused_statement e) ≡ false)
handled-cases statement_error = inr (inr refl, refl)
handled-cases cancelled_error = inr (inl refl, refl)
handled-cases e = inl refl

module _ (postgres : Postgres) (python : Pydantic) {W : Type 0} (worker : Worker W) where
  -- How the job ends, field by field, where j is what it was: complete at the time `now`, and its
  -- document has a summary; or failed with what was raised; or, after a cancellation or a refused
  -- statement, running.
  abbrev pub IsSettled : ℕ → ℕ → IngestionJob → ℕ → Result (Unit {0}) × (Db × W) → Type 0
  IsSettled job_id document_id j now p =
      Ends
        (λ _ s.
          HasJob job_id (record j { status = complete; completed_at = some now }) s
          × HasSummary document_id s)
        (λ e s.
          HasJob job_id (record j { status = failed; error_message = some e }) s
          ⊎ ((e ≡ cancelled_error) ⊎ (e ≡ statement_error))
            × HasJob job_id (record j { status = running }) s)
        p

  module _ (job_id document_id project_id now : ℕ) (fresh : Fresh) (j : IngestionJob) where
    abbrev IsRunning : Db → Type 0
    IsRunning db = find (is_job job_id) db.ingestion_jobs ≡ some (started j)

    abbrev IsSummarized : Db → Type 0
    IsSummarized db =
        IsRunning db
        × (any (λ (m : DocumentSummary). m.document_id == document_id) db.document_summaries ≡ true)

    -- while the steps run
    abbrev Fails : Error → Db × W → Type 0
    Fails e s = IsRunning s.0

    abbrev Completes : Unit {0} → Db × W → Type 0
    Completes u s = HasJob job_id (completed now (started j)) s × HasSummary document_id s

    enqueue_lem :
        (project : Project) (db : Db) (w : W) (due : Bool)
        → IsSummarized db
        → Ends
            (λ _ t. IsSummarized t.0)
            Fails
            (if due
              then outside (worker.enqueue_cag_update project.id) (db, w)
              else (ok tt, (db, w)))
    enqueue_lem project db w true h =
        settle IsSummarized IsRunning db (worker.enqueue_cag_update project.id w) h h.0
    enqueue_lem project db w false h = h

    maybe_lem :
        (project : Project) (db : Db) (w : W)
        → IsSummarized db
        → Ends
            (λ _ t. IsSummarized t.0)
            Fails
            (maybe_enqueue_cag_update postgres python worker project (db, w))
    unfolding maybe_enqueue_cag_update
    maybe_lem project db w h = due_lem (is_due postgres python worker project db)
      where
        due_lem :
            (r : Result Bool)
            → Ends
                (λ _ t. IsSummarized t.0)
                Fails
                (continue {W = Db × W} {A = Bool} {B = Unit {0}}
                  (r, (db, w))
                  (λ due. if due then outside (worker.enqueue_cag_update project.id) else pure tt))
        due_lem (ok true) = enqueue_lem project db w true h
        due_lem (ok false) = h
        due_lem (err e) = h.0

    completed_lem :
        (s : Db × W)
        → IsSummarized s.0
        → Completes tt (commit (with_job job_id (completed now)) s).1
    completed_lem (db, w) h =
        (find-change_job job_id (completed now) db.ingestion_jobs (λ i. refl) h.0, h.1)

    finish_lem :
        (project : Project) (db : Db) (w : W)
        → IsSummarized db
        → Ends Completes Fails (
            (maybe_enqueue_cag_update postgres python worker project
                >> commit (with_job job_id (completed now)))
              (db, w))
    finish_lem project db w h =
        Ends-continue (λ _ t. IsSummarized t.0) Completes Fails
          (maybe_enqueue_cag_update postgres python worker project (db, w))
          (λ _. commit (with_job job_id (completed now))) (maybe_lem project db w h)
          (λ u s hs. completed_lem s hs)

    mark_lem :
        (p : Result (Unit {0}) × (Db × W))
        → Ends Completes Fails p
        → IsSettled job_id document_id j now (rescue postgres python worker job_id p)
    unfolding rescue mark_job_failed
    mark_lem (ok u, s) h = h
    mark_lem (err e, (db, w)) h = elim (handled-cases e) [
      | inl handled ↦
          rw (handled, h) (inl (find-change_job job_id (broken e) db.ingestion_jobs (λ i. refl) h))
      | inr (named, unhandled) ↦ rw unhandled (inr (named, h))
    ]

    inserted_lem :
        (doc : Document) (summary : Json) (db : Db)
        → doc.id ≡ document_id
        → IsRunning db
        → IsSummarized (insert_summary fresh doc project_id summary db)
    inserted_lem doc summary db same h = (
      ap (λ js. find (is_job job_id) js) (insert_summary-jobs fresh doc project_id summary db) ∙ h,
      subst
          (λ d.
            any (λ (m : DocumentSummary). m.document_id == d)
              (insert_summary fresh doc project_id summary db).document_summaries
            ≡ true)
          same (any-insert_summary fresh doc project_id summary db),
    )

    stored_lem :
        (doc : Document) (project : Project) (summary : Json) (db : Db) (w : W)
        → doc.id ≡ document_id
        → IsRunning db
        → Ends Completes Fails (
            (store_summary postgres python worker fresh doc project_id summary
                >> (maybe_enqueue_cag_update postgres python worker project
                    >> commit (with_job job_id (completed now))))
              (db, w))
    unfolding store_summary
    stored_lem doc project summary db w same h =
        elim (Bool-cases (postgres.accepts_jsonb summary)) [
          | inl t ↦ rw t (
              finish_lem project (insert_summary fresh doc project_id summary db) w
                (inserted_lem doc summary db same h))
          | inr t ↦ rw t h
        ]

    from_lem :
        (doc : Document) (project : Project) (db : Db) (w : W)
        → doc.id ≡ document_id
        → IsRunning db
        → Ends Completes Fails
            (ingest_from postgres python worker fresh now job_id project_id doc project (db, w))
    unfolding ingest_from
    from_lem doc project db w same h =
        Ends-continue (λ _ t. IsRunning t.0) Completes Fails
          (outside (worker.index_document doc project) (db, w)) _
          (settle IsRunning IsRunning db (worker.index_document doc project w) h h)
          (λ u s1 h1.
            Ends-continue (λ _ t. IsRunning t.0) Completes Fails
              (outside (worker.summarize doc project) s1) _
              (settle IsRunning IsRunning s1.0 (worker.summarize doc project s1.1) h1 h1)
              (λ summary s2 h2. stored_lem doc project summary s2.0 s2.1 same h2))

    started_lem :
        (db : Db) (w : W)
        → IsRunning db
        → Ends Completes Fails
            (ingest_started postgres python worker fresh now job_id document_id project_id (db, w))
    unfolding ingest_started
    started_lem db w h = elim (Result-cases (fetch_document document_id db)) [
      | inl (doc, found) ↦ elim (Result-cases (fetch_project project_id db)) [
        | inl (project, known) ↦
            rw (found, known)
              (from_lem doc project db w (fetch_document-id document_id db doc found) h)
        | inr (e, missing) ↦ rw (found, missing) h
      ]
      | inr (e, missing) ↦ rw missing h
    ]

    -- A job that the worker takes up and whose calls end does not stay pending: if the worker returns,
    -- the job is complete and its document has a summary; if it raises, the job has failed and keeps
    -- what was raised, whatever the parser, the models, the vector store and the queue do, except
    -- that a job that is cancelled, or whose summary the database refuses, is left running.
    pub ingest_document-IsSettled :
        (db : Db) (w : W)
        → find (is_job job_id) db.ingestion_jobs ≡ some j
        → IsSettled job_id document_id j now
            (ingest_document postgres python worker fresh now job_id document_id project_id (db, w))
    unfolding ingest_document ingest_steps
    ingest_document-IsSettled db w h =
        mark_lem
          (ingest_steps postgres python worker fresh now job_id document_id project_id (db, w))
          (rw h (
            started_lem (with_job job_id started db) w
              (find-change_job job_id started db.ingestion_jobs (λ i. refl) h)))
