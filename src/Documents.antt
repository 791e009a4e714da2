-- ===== src/Documents.antt =====
-- Uploads: backend/app/services/document.py and the routes of backend/app/api/documents.py. The
-- state is the tables with the outside world; `enqueue` is the job queue, which may raise after
-- the rows are committed.
pub mod Upload
use terrible_naming_conventi.Base.{
  ℕ, ◌+◌, ◌*◌, Option, none, some, Bool, true, false, ◌&&◌, not, List, [], ◌∷◌, ◌++◌, contains,
  filter, find, ltb, leb, ◌==◌, length, if◌then◌else◌, same_text, codes, map,
}
use terrible_naming_conventi.Errors.{
  Error, Result, ok, err, raise_if, or_raise, access_denied, unsupported_file_type, http_exception,
  ingestion_job_not_found,
}
use terrible_naming_conventi.Act.{Act, ◌>>=◌, ◌>>◌, pure, raise, lift}
use terrible_naming_conventi.Models.{
  Db, Document, FileType, markdown, txt, pdf, IngestionJob, pending, Fresh, Text, Postgres,
}

-- `filename.rsplit(".", 1)[1]`, none without a dot
abbrev pub after_last_dot : Text → Option Text
after_last_dot [] = none
after_last_dot (c ∷ s) = elim (after_last_dot s) [
  | some extension ↦ some extension
  | none ↦ if c == 46 then some s else none
]

-- `str.lower` on the ASCII letters. No other character becomes a letter of an extension below.
abbrev pub lower : ℕ → ℕ
lower c = if leb 65 c && leb c 90 then c + 32 else c

-- `_get_extension`
unfoldable pub get_extension : Text → Text
get_extension filename = elim (after_last_dot filename) [
  | none ↦ []
  | some extension ↦ 46 ∷ map lower extension
]

-- `EXTENSION_TO_FILE_TYPE.get`, which has the keys of `SUPPORTED_EXTENSIONS`
unfoldable pub file_type_of : Text → Option FileType
file_type_of extension =
    if same_text extension (codes ".md")
    then some markdown
    else if same_text extension (codes ".txt")
    then some txt
    else if same_text extension (codes ".pdf")
    then some pdf
    else none

abbrev pub is_supported : Option FileType → Bool
is_supported none = false
is_supported (some t) = true

abbrev pub new_document : Fresh → ℕ → Text → FileType → List ℕ → Document
new_document fresh project_id filename file_type content = record {
  id = fresh.id;
  project_id = project_id;
  filename = filename;
  file_type = file_type;
  raw_bytes = content;
  created_at = fresh.now;
}

abbrev pub new_job : Fresh → ℕ → ℕ → IngestionJob
new_job fresh project_id document_id = record {
  id = fresh.id;
  project_id = project_id;
  document_id = document_id;
  status = pending;
  error_message = none;
  created_at = fresh.now;
  completed_at = none;
}

abbrev pub with_upload : Document → IngestionJob → Db → Db
with_upload doc job db = record db {
  documents = db.documents ++ doc ∷ [];
  ingestion_jobs = db.ingestion_jobs ++ job ∷ [];
}

abbrev pub or_unknown : Text → Text
or_unknown [] = codes "unknown"
or_unknown (c ∷ s) = c ∷ s

-- `session.commit()` leaves the tables given.
abbrev pub commit : {W : Type 0} → (Db → Db) → Act (Db × W) (Unit {0})
commit change (db, w) = (ok tt, (change db, w))

abbrev pub outside : {W A : Type 0} → Act W A → Act (Db × W) A
outside call (db, w) = let (r, w') = call w in (r, (db, w'))

unfoldable pub get_job : ℕ → Db → Result IngestionJob
get_job job_id db =
    or_raise (find (λ (j : IngestionJob). j.id == job_id) db.ingestion_jobs) ingestion_job_not_found

-- `enqueue job` is `enqueue_job("ingest_document", ..., _job_id=f"ingest-{job.id}")`.
module _ {W : Type 0} (enqueue : IngestionJob → Act W (Unit {0})) where
  unfoldable pub upload :
      Fresh → Fresh → ℕ → Text → FileType → List ℕ → List ℕ → Act (Db × W) IngestionJob
  upload doc_fresh job_fresh project_id filename file_type content accessible_ids = do
    lift (raise_if (not (contains project_id accessible_ids)) access_denied)
    lift (
        raise_if (not (is_supported (file_type_of (get_extension filename)))) unsupported_file_type)
    let doc = new_document doc_fresh project_id filename file_type content
    let job = new_job job_fresh project_id doc.id
    commit (with_upload doc job)
    outside (enqueue job)
    pure job

  -- the route, with `settings.max_upload_size_mb`
  unfoldable pub upload_document :
      ℕ → Fresh → Fresh → ℕ → Text → List ℕ → List ℕ → Act (Db × W) IngestionJob
  unfolding upload
  upload_document max_upload_size_mb doc_fresh job_fresh project_id filename content
        accessible_ids =
      do
        file_type ← lift (or_raise (file_type_of (get_extension filename)) (http_exception 400))
        lift (
            raise_if (ltb (max_upload_size_mb * 1024 * 1024) (length content)) (http_exception 400))
        upload doc_fresh job_fresh project_id (or_unknown filename) file_type content accessible_ids

-- `list_documents` of the service
unfoldable pub list_documents : Postgres → ℕ → List ℕ → Db → Result (List Document)
list_documents postgres project_id accessible_ids db =
    if contains project_id accessible_ids
    then ok (
        postgres.order_by_desc Document (λ (d : Document). d.created_at)
          (filter (λ (d : Document). d.project_id == project_id) db.documents))
    else err access_denied
