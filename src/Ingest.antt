-- ===== src/Ingest.antt =====
-- The ingestion worker: backend/app/workers/ingest.py. The state is the tables with the outside
-- world; a step that commits changes the tables, and a step that raises leaves what was committed
-- before it. Parsing, embedding, the vector store, the summary model and the queue are parameters.
pub mod Rows
pub mod Jobs
pub mod Sweep
pub mod Update
use terrible_naming_conventi.Base.{
  ℕ, change_where, ◌-◌, ◌+◌, Option, none, some, Bool, true, false, ◌&&◌, ◌||◌, not, List, [], ◌∷◌,
  ◌++◌, map, filter, find, leb, ltb, any, ◌==◌, if◌then◌else◌, same_text, codes,
}
use terrible_naming_conventi.Errors.{
  Error, Result, ok, err, or_raise, value_error, statement_error, is_exception,
  is_refused_statement,
}
use terrible_naming_conventi.Act.{Act, continue, ◌>>=◌, ◌>>◌, pure, raise, lift}
use terrible_naming_conventi.Models.{
  Db, Document, DocumentSummary, IngestionJob, JobStatus, pending, running, complete, failed,
  Project, Fresh, Text, Json, Postgres,
}
use terrible_naming_conventi.Schema.{Pydantic, BeliefStateRecord}
use terrible_naming_conventi.Cag.{get_latest, count_pending}
use terrible_naming_conventi.Documents.{commit, outside}

abbrev pub is_job : ℕ → IngestionJob → Bool
is_job job_id j = j.id == job_id

-- the assignments to a job, and the tables with the job changed
abbrev pub started : IngestionJob → IngestionJob
started j = record j { status = running }

abbrev pub completed : ℕ → IngestionJob → IngestionJob
completed now j = record j { status = complete; completed_at = some now }

abbrev pub broken : Error → IngestionJob → IngestionJob
broken e j = record j { status = failed; error_message = some e }

abbrev pub change_job : ℕ → (IngestionJob → IngestionJob) → List IngestionJob → List IngestionJob
change_job job_id change = change_where (is_job job_id) change

abbrev pub with_job : ℕ → (IngestionJob → IngestionJob) → Db → Db
with_job job_id change db = record db {
  ingestion_jobs = change_job job_id change db.ingestion_jobs;
}

-- `_fetch_job`, `_fetch_document` and `_fetch_project`
abbrev pub fetch_job : ℕ → Db → Result IngestionJob
fetch_job job_id db = or_raise (find (is_job job_id) db.ingestion_jobs) value_error

abbrev pub fetch_document : ℕ → Db → Result Document
fetch_document document_id db =
    or_raise (find (λ (d : Document). d.id == document_id) db.documents) value_error

abbrev pub fetch_project : ℕ → Db → Result Project
fetch_project project_id db =
    or_raise (find (λ (p : Project). p.id == project_id) db.projects) value_error

-- INSERT ... ON CONFLICT DO NOTHING on the document
abbrev pub insert_summary : Fresh → Document → ℕ → Json → Db → Db
insert_summary fresh doc project_id summary db =
    if any (λ (s : DocumentSummary). s.document_id == doc.id) db.document_summaries
    then db
    else record db {
      document_summaries =
          db.document_summaries
          ++ record {
            id = fresh.id;
            document_id = doc.id;
            project_id = project_id;
            summary = summary;
            created_at = fresh.now;
          }
            ∷ [];
    }

-- the state that a query reads
abbrev pub reading : {W A : Type 0} → (Db → Result A) → Act (Db × W) A
reading query (db, w) = (query db, (db, w))

abbrev pub get_or : ℕ → Option ℕ → ℕ
get_or default none = default
get_or default (some n) = n

abbrev pub watermark : Option BeliefStateRecord → Option ℕ
watermark none = none
watermark (some b) = some b.last_summary_created_at

abbrev pub is_none : {A : Type 0} → Option A → Bool
is_none none = true
is_none (some a) = false

-- `should_enqueue`
abbrev pub should_enqueue : Option BeliefStateRecord → ℕ → ℕ → Bool
should_enqueue latest pending_count threshold =
    (is_none latest && leb 1 pending_count) || leb threshold pending_count

-- What the worker calls: `index_document` parses, cuts, embeds and upserts the vectors,
-- `summarize` parses and asks the model, and `enqueue_cag_update` is
-- `enqueue_job("cag_update", project.id, _job_id=f"cag-update-{project.id}")`.
pub record Worker (W : Type 0) : Type 0 where
  pub index_document : Document → Project → Act W (Unit {0})
  pub summarize : Document → Project → Act W Json
  pub enqueue_cag_update : ℕ → Act W (Unit {0})
  pub default_threshold : ℕ

module _ (postgres : Postgres) (python : Pydantic) {W : Type 0} (worker : Worker W) where
  -- the decision of `_maybe_enqueue_cag_update`
  unfoldable pub is_due : Project → Db → Result Bool
  is_due project db = elim (get_latest postgres python project.id db) [
    | err e ↦ err e
    | ok latest ↦ ok (
        should_enqueue latest (count_pending postgres project.id (watermark latest) db)
          (get_or worker.default_threshold project.config.cag_rebuild_threshold))
  ]

  unfoldable pub maybe_enqueue_cag_update : Project → Act (Db × W) (Unit {0})
  unfolding is_due
  maybe_enqueue_cag_update project = do
    due ← reading (is_due project)
    if due then outside (worker.enqueue_cag_update project.id) else pure tt

  -- the INSERT and its commit
  unfoldable pub store_summary : Fresh → Document → ℕ → Json → Act (Db × W) (Unit {0})
  store_summary fresh doc project_id summary =
      if postgres.accepts_jsonb summary
      then commit (insert_summary fresh doc project_id summary)
      else raise statement_error

  -- the body of the try: from the document and the project, from the started job, and all of it
  unfoldable pub ingest_from : Fresh → ℕ → ℕ → ℕ → Document → Project → Act (Db × W) (Unit {0})
  unfolding maybe_enqueue_cag_update store_summary
  ingest_from fresh now job_id project_id doc project = do
    outside (worker.index_document doc project)
    summary ← outside (worker.summarize doc project)
    store_summary fresh doc project_id summary
    maybe_enqueue_cag_update project
    commit (with_job job_id (completed now))

  unfoldable pub ingest_started : Fresh → ℕ → ℕ → ℕ → ℕ → Act (Db × W) (Unit {0})
  unfolding ingest_from
  ingest_started fresh now job_id document_id project_id = do
    doc ← reading (fetch_document document_id)
    project ← reading (fetch_project project_id)
    ingest_from fresh now job_id project_id doc project

  unfoldable pub ingest_steps : Fresh → ℕ → ℕ → ℕ → ℕ → Act (Db × W) (Unit {0})
  unfolding ingest_started
  ingest_steps fresh now job_id document_id project_id = do
    job ← reading (fetch_job job_id)
    commit (with_job job_id started)
    ingest_started fresh now job_id document_id project_id

  -- `_mark_job_failed`
  unfoldable pub mark_job_failed : ℕ → Error → Act (Db × W) (Unit {0})
  mark_job_failed job_id e = do
    job ← reading (fetch_job job_id)
    commit (with_job job_id (broken e))

  -- `except Exception as exc: ...; raise`, where an exception of the handler itself replaces it. The
  -- handler does not roll back: after a refused statement its own query is refused as well.
  unfoldable pub rescue : ℕ → Result (Unit {0}) × (Db × W) → Result (Unit {0}) × (Db × W)
  unfolding mark_job_failed
  rescue job_id (ok u, s) = (ok u, s)
  rescue job_id (err e, s) =
      if is_exception e && not (is_refused_statement e)
      then (mark_job_failed job_id e >> raise e) s
      else (err e, s)

  unfoldable pub ingest_document : Fresh → ℕ → ℕ → ℕ → ℕ → Act (Db × W) (Unit {0})
  unfolding ingest_steps rescue
  ingest_document fresh now job_id document_id project_id s =
      rescue job_id (ingest_steps fresh now job_id document_id project_id s)

-- `sweep_pending_jobs`: `enqueue` answers whether a new job was queued; `now` and the ten minutes
-- are in seconds.
abbrev pub is_pending : JobStatus → Bool
is_pending pending = true
is_pending _ = false

abbrev pub is_stale : ℕ → IngestionJob → Bool
is_stale now j = is_pending j.status && ltb (j.created_at + 600) now

module _ {W : Type 0} (enqueue : IngestionJob → Act W Bool) where
  unfoldable pub enqueue_all : List IngestionJob → Act W (ℕ × ℕ)
  enqueue_all [] = pure (0, 0)
  enqueue_all (j ∷ js) = do
    queued ← enqueue j
    counts ← enqueue_all js
    pure ((counts.0 + 1), (if queued then counts.1 + 1 else counts.1))

  -- the counts that the log line gives: jobs scanned and jobs queued
  unfoldable pub sweep_pending_jobs : ℕ → Db → Act W (ℕ × ℕ)
  unfolding enqueue_all
  sweep_pending_jobs now db = enqueue_all (filter (is_stale now) db.ingestion_jobs)
