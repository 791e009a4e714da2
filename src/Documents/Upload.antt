-- ===== src/Documents/Upload.antt =====
-- What an upload leaves (backend/app/api/documents.py, backend/app/services/document.py).
use terrible_naming_conventi.Base.{
  ℕ, ◌*◌, ◌≤◌, ◌<◌, ◌≡◌, refl, ap, sym, subst, ◌∙◌, none, some, Option-cases, true, false,
  Bool-cases, ◌⊎◌, inl, inr, List, [], ◌∷◌, ◌++◌, contains, ltb, length, arith,
}
use terrible_naming_conventi.Errors.{Result, ok, err, access_denied, http_exception}
use terrible_naming_conventi.Act.{Act, continue, pure}
use terrible_naming_conventi.Models.{Db, FileType, IngestionJob, pending, Fresh, Text}
use terrible_naming_conventi.Documents.{
  get_extension, file_type_of, new_document, new_job, with_upload, or_unknown, upload,
  upload_document,
}

-- The upload was accepted: what was checked, and the two rows that the tables have more. The rows
-- stand field by field: the document has the content, and the job waits for that document.
pub record IsStored {W : Type 0} (limit : ℕ) (doc_fresh job_fresh : Fresh) (pid : ℕ)
    (filename : Text) (content ids : List ℕ) (db : Db) (p : Result IngestionJob × (Db × W))
    : Type 0 where
  file_type : FileType
  supported : file_type_of (get_extension filename) ≡ some file_type
  fits : length content ≤ limit * 1024 * 1024
  accessible : contains pid ids ≡ true
  stored : p.1.0 ≡ record db {
    documents =
        db.documents
        ++ record {
          id = doc_fresh.id;
          project_id = pid;
          filename = filename;
          file_type = file_type;
          raw_bytes = content;
          created_at = doc_fresh.now;
        }
          ∷ [];
    ingestion_jobs =
        db.ingestion_jobs
        ++ record {
          id = job_fresh.id;
          project_id = pid;
          document_id = doc_fresh.id;
          status = pending;
          error_message = none;
          created_at = job_fresh.now;
          completed_at = none;
        }
          ∷ [];
  }

-- An upload is refused before any table or the queue is touched, or its document and a pending job
-- for it are in the tables.
abbrev pub IsUploaded :
    {W : Type 0}
    → ℕ
    → Fresh
    → Fresh
    → ℕ
    → Text
    → List ℕ
    → List ℕ
    → Db
    → W
    → Result IngestionJob × (Db × W)
    → Type 0
IsUploaded limit doc_fresh job_fresh pid filename content ids db w p =
    ((p ≡ (err (http_exception 400), (db, w)))
      × ((file_type_of (get_extension filename) ≡ none) ⊎ (limit * 1024 * 1024 < length content)))
    ⊎ ((p ≡ (err access_denied, (db, w))) × (contains pid ids ≡ false))
    ⊎ IsStored limit doc_fresh job_fresh pid filename content ids db p

after-outside :
    {W A B : Type 0} (p : Result A × W) (db : Db) (b : B)
    → (continue {W = Db × W} {A = A} {B = B} (p.0, (db, p.1)) (λ _. pure b)).1.0 ≡ db
after-outside (ok a, w) db b = refl
after-outside (err e, w) db b = refl

file_type_of-or_unknown :
    (filename : Text) (t : FileType)
    → file_type_of (get_extension filename) ≡ some t
    → file_type_of (get_extension (or_unknown filename)) ≡ some t
unfolding get_extension file_type_of
file_type_of-or_unknown [] t h = cc
file_type_of-or_unknown (c ∷ s) t h = h

-- A file with a supported extension has a name.
or_unknown-supported :
    (filename : Text) (t : FileType)
    → file_type_of (get_extension filename) ≡ some t
    → or_unknown filename ≡ filename
unfolding get_extension file_type_of
or_unknown-supported [] t h = cc
or_unknown-supported (c ∷ s) t h = refl

module _ {W : Type 0} (enqueue : IngestionJob → Act W (Unit {0})) where
  upload_stores :
      (doc_fresh job_fresh : Fresh) (pid : ℕ) (filename : Text) (t : FileType)
      (content ids : List ℕ) (db : Db) (w : W)
      → file_type_of (get_extension filename) ≡ some t
      → contains pid ids ≡ true
      → (upload enqueue doc_fresh job_fresh pid filename t content ids (db, w)).1.0
        ≡ with_upload
            (new_document doc_fresh pid filename t content)
            (new_job job_fresh pid doc_fresh.id)
            db
  unfolding upload
  upload_stores doc_fresh job_fresh pid filename t content ids db w supported accessible =
      let doc = new_document doc_fresh pid filename t content in
      let job = new_job job_fresh pid doc_fresh.id in
      rw (accessible, supported) (after-outside (enqueue job w) (with_upload doc job db) job)

  upload_document-checked :
      (limit : ℕ) (doc_fresh job_fresh : Fresh) (pid : ℕ) (filename : Text) (t : FileType)
      (content ids : List ℕ) (db : Db) (w : W)
      → file_type_of (get_extension filename) ≡ some t
      → ltb (limit * 1024 * 1024) (length content) ≡ false
      → IsUploaded limit doc_fresh job_fresh pid filename content ids db w
          (upload enqueue doc_fresh job_fresh pid (or_unknown filename) t content ids (db, w))
  unfolding upload
  upload_document-checked limit doc_fresh job_fresh pid filename t content ids db w supported
        small =
      elim (Bool-cases (contains pid ids)) [
        | inl accessible ↦ inr (
            inr (record {
              file_type = t;
              supported = supported;
              fits = ground arith;
              accessible = accessible;
              stored =
                  upload_stores doc_fresh job_fresh pid (or_unknown filename) t content ids db w
                    (file_type_of-or_unknown filename t supported) accessible
                  ∙ ap
                      (λ name.
                        with_upload (new_document doc_fresh pid name t content)
                          (new_job job_fresh pid doc_fresh.id) db)
                      (or_unknown-supported filename t supported);
            }))
        | inr denied ↦ inr (inl (rw denied refl, denied))
      ]

  upload_document-upload :
      (limit : ℕ) (doc_fresh job_fresh : Fresh) (pid : ℕ) (filename : Text) (t : FileType)
      (content ids : List ℕ) (db : Db) (w : W)
      → file_type_of (get_extension filename) ≡ some t
      → ltb (limit * 1024 * 1024) (length content) ≡ false
      → upload_document enqueue limit doc_fresh job_fresh pid filename content ids (db, w)
        ≡ upload enqueue doc_fresh job_fresh pid (or_unknown filename) t content ids (db, w)
  unfolding upload_document
  upload_document-upload limit doc_fresh job_fresh pid filename t content ids db w supported small =
      rw (supported, small) refl

  -- An upload is refused with status 400, for its extension or its size, or as a project that is not
  -- accessible, with the tables and the queue as they were, or the file has a supported extension and at most the configured
  -- size, the project is accessible, and the tables have just two rows more, also where the queue
  -- then raises: the document with the content given, and a pending job for it.
  pub upload_document-IsUploaded :
      (limit : ℕ) (doc_fresh job_fresh : Fresh) (pid : ℕ) (filename : Text) (content ids : List ℕ)
      (db : Db) (w : W)
      → IsUploaded limit doc_fresh job_fresh pid filename content ids db w
          (upload_document enqueue limit doc_fresh job_fresh pid filename content ids (db, w))
  unfolding upload_document
  upload_document-IsUploaded limit doc_fresh job_fresh pid filename content ids db w =
      elim (Option-cases (file_type_of (get_extension filename))) [
        | inl unsupported ↦ inl (rw unsupported refl, inl unsupported)
        | inr (t, supported) ↦ elim (Bool-cases (ltb (limit * 1024 * 1024) (length content))) [
          | inl large ↦ inl (rw (supported, large) refl, inr (ground arith))
          | inr small ↦
              subst (IsUploaded limit doc_fresh job_fresh pid filename content ids db w)
                (sym (
                  upload_document-upload limit doc_fresh job_fresh pid filename t content ids db w
                    supported small))
                (upload_document-checked limit doc_fresh job_fresh pid filename t content ids db w
                  supported small)
        ]
      ]
