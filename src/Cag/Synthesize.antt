-- ===== src/Cag/Synthesize.antt =====
-- `synthesize_and_insert` of backend/app/services/cag.py: what one incremental update adds.
use terrible_naming_conventi.Base.{
  ℕ, ◌+◌, ◌<◌, ◌≡◌, refl, ◌∙◌, ap, inl, inr, Option, none, some, List, [], ◌∷◌, arith, ltb, length,
  Bool-cases,
}
use terrible_naming_conventi.Errors.{Error, Result, ok, err, >>=-inverse, value_error}
use terrible_naming_conventi.Models.{Db, BeliefState, DocumentSummary, Postgres, Fresh, incremental}
use terrible_naming_conventi.Schema.{BeliefStateContent, BeliefStateRecord, Pydantic}
use terrible_naming_conventi.Cag.{
  SynthesizeFn, watermark_of, count_of, state_of, to_record, record_of, get_latest,
  get_window_since, max_created_at, add_row, next_version, batch_of, remaining_of, consume, new_row,
  synthesize_row, commit_synthesis, synthesize_and_insert,
}

-- A row whose state validates is read back field by field.
pub to_record-ok :
    (py : Pydantic) (row : BeliefState) (c : BeliefStateContent)
    → py.model_validate row.state ≡ some c
    → to_record py row ≡ ok (record_of row c)
unfolding to_record
to_record-ok py row c h = ground arith

module _ (py : Pydantic) (pid : ℕ) (db : Db) where
  -- What the new row says of the window it was made from.
  pub record IsIncrement (f : SynthesizeFn) (bs : ℕ) (latest : Option BeliefStateRecord)
      (window : List DocumentSummary) (row : BeliefState) (k : ℕ) : Type 0 where
    pub nonempty : 0 < length window
    pub same_project : row.project_id ≡ pid
    pub numbered : row.version ≡ next_version pid db
    pub kind : row.rebuild_type ≡ incremental
    pub watermark : row.last_summary_created_at ≡ max_created_at (batch_of bs window)
    pub covered : row.summary_count_covered ≡ count_of latest + length (batch_of bs window)
    pub left : k ≡ remaining_of bs window
    pub content : BeliefStateContent
    pub folded : f (state_of latest) (batch_of bs window) ≡ ok content
    pub readable : py.model_validate row.state ≡ some content

module _ (pg : Postgres) (py : Pydantic) (pid : ℕ) (f : SynthesizeFn) (bs : ℕ) (fresh : Fresh)
    (db : Db) where
  consume-IsIncrement :
      (latest : Option BeliefStateRecord) (window : List DocumentSummary) (row : BeliefState)
      (k : ℕ)
      → consume pg py pid f bs fresh db latest window ≡ ok (some (row, k))
      → IsIncrement py pid db f bs latest window row k
  unfolding consume
  consume-IsIncrement latest [] row k h = cc
  consume-IsIncrement latest (s ∷ ss) row k h =
      let batch = batch_of bs (s ∷ ss) in
      let (content, made, e) = >>=-inverse (f (state_of latest) batch) _ h in
      let row_eq : row ≡ new_row py incremental pid fresh db (count_of latest) batch content = cc in
      record {
        nonempty = omega arith;
        same_project = ap (λ r. r.project_id) row_eq;
        numbered = ap (λ r. r.version) row_eq;
        kind = ap (λ r. r.rebuild_type) row_eq;
        watermark = ap (λ r. r.last_summary_created_at) row_eq;
        covered = ap (λ r. r.summary_count_covered) row_eq;
        left = cc;
        content = content;
        folded = made;
        readable = ap (λ r. py.model_validate r.state) row_eq ∙ py.validate-dump content;
      }

  -- A row to add comes from the latest record and the window since its watermark.
  pub synthesize_row-IsIncrement :
      (row : BeliefState) (k : ℕ)
      → synthesize_row pg py pid f bs fresh db ≡ ok (some (row, k))
      → (latest : Option BeliefStateRecord) × (get_latest pg py pid db ≡ ok latest)
        × IsIncrement py pid db f bs latest (get_window_since pg pid (watermark_of latest) db) row k
  unfolding synthesize_row
  synthesize_row-IsIncrement row k h =
      let (latest, found, e) = >>=-inverse (get_latest pg py pid db) _ h in
      (latest, found, consume-IsIncrement latest _ row k e)

  -- How a call ends: refused, failed, nothing to do, or one row added and read back.
  pub data Outcome : Result (Option BeliefStateRecord × ℕ) × Db → Type 0 where
    refused : (e : Error) → Outcome (err e, db)
    idle : Outcome (ok (none, 0), db)
    added :
        (latest : Option BeliefStateRecord) (row : BeliefState) (k : ℕ)
        → 0 < bs
        → get_latest pg py pid db ≡ ok latest
        → (inc : IsIncrement py pid db f bs latest
            (get_window_since pg pid (watermark_of latest) db)
            row
            k)
        → Outcome (ok (some (record_of row inc.content), k), add_row db row)

  commit-Outcome :
      (m : Result (Option (BeliefState × ℕ)))
      → 0 < bs
      → synthesize_row pg py pid f bs fresh db ≡ m
      → Outcome (commit_synthesis pg py db m)
  unfolding commit_synthesis
  commit-Outcome (err e) b h = refused e
  commit-Outcome (ok none) b h = idle
  commit-Outcome (ok (some (row, k))) b h =
      let (latest, found, inc) = synthesize_row-IsIncrement row k h in
      rw (to_record-ok py row inc.content inc.readable) (added latest row k b found inc)

  pub synthesize-Outcome : Outcome (synthesize_and_insert pg py pid f bs fresh db)
  unfolding synthesize_and_insert
  synthesize-Outcome = elim (Bool-cases (ltb bs 1)) [
    | inl small ↦ rw small (refused value_error)
    | inr big ↦ rw big (commit-Outcome (synthesize_row pg py pid f bs fresh db) (ground arith) refl)
  ]
