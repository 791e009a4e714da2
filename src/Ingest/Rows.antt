-- ===== src/Ingest/Rows.antt =====
-- Lemmas on the rows that the ingestion worker changes (backend/app/workers/ingest.py).
use terrible_naming_conventi.Base.{
  ℕ, find-change_where, ◌≡◌, refl, ap, some, Bool, true, Bool-cases, inl, inr, List, [], ◌∷◌, ◌++◌,
  find, any, ◌==◌, arith,
}
use terrible_naming_conventi.Models.{Db, Document, DocumentSummary, IngestionJob, Fresh, Json}
use terrible_naming_conventi.Ingest.{is_job, change_job, insert_summary}

pub find-change_job :
    (id : ℕ) (change : IngestionJob → IngestionJob) (js : List IngestionJob) {j : IngestionJob}
    → ((i : IngestionJob) → (change i).id ≡ i.id)
    → find (is_job id) js ≡ some j
    → find (is_job id) (change_job id change js) ≡ some (change j)
find-change_job id change js keeps h =
    find-change_where (is_job id) change js (λ i. ap (λ n. n == id) (keeps i)) h

any-last :
    {A : Type 0} (p : A → Bool) (xs : List A) (y : A) → p y ≡ true → any p (xs ++ y ∷ []) ≡ true
any-last p [] y t = ground (arith, t)
any-last p (x ∷ xs) y t = ground (arith, any-last p xs y t)

pub any-insert_summary :
    (fresh : Fresh) (doc : Document) (pid : ℕ) (summary : Json) (db : Db)
    → any
        (λ (s : DocumentSummary). s.document_id == doc.id)
        (insert_summary fresh doc pid summary db).document_summaries
      ≡ true
any-insert_summary fresh doc pid summary db =
    let mine = λ (s : DocumentSummary). s.document_id == doc.id in
    elim (Bool-cases (any mine db.document_summaries)) [
      | inl t ↦ rw t t
      | inr t ↦ rw t (any-last mine db.document_summaries _ (ground arith))
    ]

pub insert_summary-jobs :
    (fresh : Fresh) (doc : Document) (pid : ℕ) (summary : Json) (db : Db)
    → (insert_summary fresh doc pid summary db).ingestion_jobs ≡ db.ingestion_jobs
insert_summary-jobs fresh doc pid summary db =
    let mine = λ (s : DocumentSummary). s.document_id == doc.id in
    elim (Bool-cases (any mine db.document_summaries)) [ inl t ↦ rw t refl | inr t ↦ rw t refl ]
