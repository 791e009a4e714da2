-- ===== src/Cag/Rebuild.antt =====
-- `rebuild` of backend/app/services/cag.py: compaction and genesis.
use terrible_naming_conventi.Base.{
  ℕ, ◌+◌, ◌<◌, ◌≡◌, refl, ◌∙◌, ap, inl, inr, Option, none, some, List, [], ◌∷◌, arith, ltb, length,
  Bool-cases, subst,
}
use terrible_naming_conventi.Errors.{Error, Result, ok, err, >>=-inverse, value_error}
use terrible_naming_conventi.Models.{Db, BeliefState, DocumentSummary, Postgres, Fresh, full}
use terrible_naming_conventi.Schema.{BeliefStateContent, BeliefStateRecord, Pydantic}
use terrible_naming_conventi.Cag.{
  SynthesizeFn, Mode, compaction, genesis, watermark_of, count_of, state_of, record_of, get_latest,
  get_latest_full, get_window_since, get_all_summaries, max_created_at, add_row, next_version,
  new_row, rebuild, rebuild_start, start_from, rebuild_from, rebuild_row, commit_rebuild, Start,
}
use terrible_naming_conventi.Cag.Synthesize.{to_record-ok}

-- What the new row of a rebuild says of the record it starts from and the summaries it folds.
pub record IsRebuilt (py : Pydantic) (pid : ℕ) (f : SynthesizeFn) (db : Db)
    (start : Option BeliefStateRecord) (window : List DocumentSummary) (row : BeliefState)
    : Type 0 where
  pub nonempty : 0 < length window
  pub same_project : row.project_id ≡ pid
  pub numbered : row.version ≡ next_version pid db
  pub kind : row.rebuild_type ≡ full
  pub watermark : row.last_summary_created_at ≡ max_created_at window
  pub covered : row.summary_count_covered ≡ count_of start + length window
  pub content : BeliefStateContent
  pub folded : f (state_of start) window ≡ ok content
  pub readable : py.model_validate row.state ≡ some content

module _ (pg : Postgres) (py : Pydantic) (pid : ℕ) (f : SynthesizeFn) (fresh : Fresh)
    (db : Db) where
  -- where a rebuild starts: at the latest full record, or at nothing
  abbrev pub start_at : Option BeliefStateRecord → Start
  start_at start = (state_of start, count_of start, get_window_since pg pid (watermark_of start) db)

  start_from-eq :
      (start : Option BeliefStateRecord) → start_from pg py pid db start ≡ start_at start
  unfolding get_all_summaries
  start_from-eq none = refl
  start_from-eq (some r) = refl

  -- what the mode starts from
  abbrev pub IsStart : Mode → Option BeliefStateRecord → Type 0
  IsStart compaction start = get_latest_full pg py pid db ≡ ok start
  IsStart genesis start = start ≡ none

  rebuild_start-eq :
      (mode : Mode) (s : Start)
      → rebuild_start pg py pid mode db ≡ ok s
      → (start : Option BeliefStateRecord) × (s ≡ start_at start) × IsStart mode start
  unfolding rebuild_start get_all_summaries
  rebuild_start-eq compaction s h =
      let (found, e, k) = >>=-inverse (get_latest_full pg py pid db) _ h in
      (found, cc (k, start_from-eq found), e)
  rebuild_start-eq genesis s h = (none, cc, refl)

  rebuild_from-IsRebuilt :
      (start : Option BeliefStateRecord) (window : List DocumentSummary) (row : BeliefState)
      → rebuild_from pg py pid f fresh db (state_of start) (count_of start) window ≡ ok (some row)
      → IsRebuilt py pid f db start window row
  unfolding rebuild_from
  rebuild_from-IsRebuilt start [] row h = cc
  rebuild_from-IsRebuilt start (s ∷ ss) row h =
      let (content, made, e) = >>=-inverse (f (state_of start) (s ∷ ss)) _ h in
      let row_eq : row ≡ new_row py full pid fresh db (count_of start) (s ∷ ss) content = cc in
      record {
        nonempty = omega arith;
        same_project = ap (λ r. r.project_id) row_eq;
        numbered = ap (λ r. r.version) row_eq;
        kind = ap (λ r. r.rebuild_type) row_eq;
        watermark = ap (λ r. r.last_summary_created_at) row_eq;
        covered = ap (λ r. r.summary_count_covered) row_eq;
        content = content;
        folded = made;
        readable = ap (λ r. py.model_validate r.state) row_eq ∙ py.validate-dump content;
      }

  -- How a call ends: refused or failed, nothing to do, or one full row added and read back.
  pub data Rebuilt (mode : Mode)
      : Result (Option (BeliefStateRecord × Option BeliefStateRecord)) × Db → Type 0 where
    refused : (e : Error) → Rebuilt mode (err e, db)
    idle : Rebuilt mode (ok none, db)
    added :
        (previous start : Option BeliefStateRecord) (row : BeliefState)
        → get_latest pg py pid db ≡ ok previous
        → IsStart mode start
        → (b : IsRebuilt py pid f db start (get_window_since pg pid (watermark_of start) db) row)
        → Rebuilt mode (ok (some (record_of row b.content, previous)), add_row db row)

  rebuild_row-added :
      (mode : Mode) (previous : Option BeliefStateRecord) (row : BeliefState)
      → rebuild_row pg py pid f mode fresh db ≡ ok (previous, some row)
      → (start : Option BeliefStateRecord) × (get_latest pg py pid db ≡ ok previous)
        × IsStart mode start
        × IsRebuilt py pid f db start (get_window_since pg pid (watermark_of start) db) row
  unfolding rebuild_row
  rebuild_row-added mode previous row h =
      let (found, e, h2) = >>=-inverse (get_latest pg py pid db) _ h in
      let (s, e2, h3) = >>=-inverse (rebuild_start pg py pid mode db) _ h2 in
      let (r, e3, h4) = >>=-inverse (rebuild_from pg py pid f fresh db s.0 s.1 s.2) _ h3 in
      let (start, s_eq, from) = rebuild_start-eq mode s e2 in
      let same : r ≡ some row = cc in
      let made : rebuild_from pg py pid f fresh db s.0 s.1 s.2 ≡ ok (some row) = e3 ∙ ap ok same in
      (
        start,
        cc,
        from,
        rebuild_from-IsRebuilt start _ row (
            subst (λ (t : Start). rebuild_from pg py pid f fresh db t.0 t.1 t.2 ≡ ok (some row))
              s_eq made),
      )

  commit-Rebuilt :
      (mode : Mode) (m : Result (Option BeliefStateRecord × Option BeliefState))
      → rebuild_row pg py pid f mode fresh db ≡ m
      → Rebuilt mode (commit_rebuild pg py db m)
  unfolding commit_rebuild
  commit-Rebuilt mode (err e) h = refused e
  commit-Rebuilt mode (ok (previous, none)) h = idle
  commit-Rebuilt mode (ok (previous, some row)) h =
      let (start, found, from, b) = rebuild_row-added mode previous row h in
      rw (to_record-ok py row b.content b.readable) (added previous start row found from b)

  pub rebuild-Rebuilt : (mode : Mode) (bs : ℕ) → Rebuilt mode (rebuild pg py pid f mode bs fresh db)
  unfolding rebuild
  rebuild-Rebuilt mode bs = elim (Bool-cases (ltb bs 1)) [
    | inl small ↦ rw small (refused value_error)
    | inr big ↦ rw big (commit-Rebuilt mode (rebuild_row pg py pid f mode fresh db) refl)
  ]
