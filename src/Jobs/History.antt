-- ===== src/Jobs/History.antt =====
-- A project over time: summaries arrive, and updates and rebuilds (backend/app/workers/cag.py) fold
-- them into belief states.
use terrible_naming_conventi.Base.{
  ℕ, ◌<◌, ◌≡◌, sym, ◌∙◌, subst, some, Bool, ◌&&◌, List, [], ◌∷◌, ◌++◌, arith, ◌==◌, count, All,
  count-append,
}
use terrible_naming_conventi.Errors.{ok}
use terrible_naming_conventi.Models.{
  Db, BeliefState, Document, DocumentSummary, Fresh, Postgres, Text,
}
use terrible_naming_conventi.Schema.{BeliefStateContent, BeliefStateRecord, Pydantic}
use terrible_naming_conventi.Cag.{SynthesizeFn, Mode, get_latest, synthesize_and_insert, rebuild}
use terrible_naming_conventi.Cag.Pending.{HasDistinctTimes, counts_for}
use terrible_naming_conventi.Reduce.Covers.{IsFaithful}
use terrible_naming_conventi.Jobs.Fold.{Llm, digest, merge, rebuild_fn}
use terrible_naming_conventi.Jobs.Covers.{covers-rebuild_fn}
use terrible_naming_conventi.Jobs.Times.{own_id, by_time, logged_by}
use terrible_naming_conventi.Jobs.Log.{
  CoversLog, RowCovers, IsFaithfulLog, IsTelling, first_CoversLog, synthesize-IsFaithfulLog,
  rebuild-IsFaithfulLog,
}

-- a new row in the table of summaries
abbrev pub with_summary : DocumentSummary → Db → Db
with_summary s db = record db { document_summaries = db.document_summaries ++ s ∷ [] }

-- The reduction of a rebuild job tells what its model's answers tell.
pub rebuild_fn-IsTelling :
    (pg : Postgres) (py : Pydantic) (covers : BeliefStateContent → List ℕ) {V : Type 0}
    (llm : Llm V) (model : Text) (documents : List Document) (v : V)
    → IsFaithful (digest py llm model documents) own_id covers
    → IsFaithful (merge py llm model documents) covers covers
    → IsTelling pg py covers (rebuild_fn py llm model documents v)
rebuild_fn-IsTelling pg py covers llm model documents v digests merges state window c h =
    covers-rebuild_fn py llm model documents own_id covers digests merges v state window h

module _ (pg : Postgres) (py : Pydantic) (covers : BeliefStateContent → List ℕ) where
  -- The tables that can be reached: without a belief state at first; a summary arrives later than
  -- every watermark; updates, while timestamps are distinct, and rebuilds have answers that cover
  -- what they are given.
  pub data History : Db → Type 0 where
    start : (db : Db) → db.belief_states ≡ [] → History db
    arrival :
        {db : Db}
        → History db
        → (s : DocumentSummary)
        → All (λ (row : BeliefState). row.last_summary_created_at < s.created_at) db.belief_states
        → History (with_summary s db)
    updated :
        {db : Db}
        → History db
        → (pid : ℕ) (f : SynthesizeFn) (bs : ℕ) (fresh : Fresh) → IsTelling pg py covers f
        → HasDistinctTimes pg pid db
        → History (synthesize_and_insert pg py pid f bs fresh db).1
    rebuilt :
        {db : Db}
        → History db
        → (pid : ℕ) (f : SynthesizeFn) (mode : Mode) (bs : ℕ) (fresh : Fresh)
        → IsTelling pg py covers f
        → History (rebuild pg py pid f mode bs fresh db).1

  arrival_lem :
      (db : Db) (s : DocumentSummary) (pid w : ℕ) (p : DocumentSummary → Bool)
      → w < s.created_at
      → logged_by pg pid (with_summary s db) w p ≡ logged_by pg pid db w p
  arrival_lem db s pid w p later =
      let test = λ (x : DocumentSummary). (counts_for pg pid db x && by_time w x) && p x in
      let absent : count test (s ∷ []) ≡ 0 = ground arith in
      omega (arith, count-append test db.document_summaries (s ∷ []), absent)

  arrived_rows :
      (db : Db) (s : DocumentSummary) (rows : List BeliefState)
      → All (λ (row : BeliefState). row.last_summary_created_at < s.created_at) rows
      → All (RowCovers pg py covers db) rows
      → All (RowCovers pg py covers (with_summary s db)) rows
  arrived_rows db s [] later told = tt
  arrived_rows db s (row ∷ rows) (late, later) (covered, told) = (
    (λ c e n.
        covered c e n
        ∙ sym (arrival_lem db s row.project_id row.last_summary_created_at (λ x. x.id == n) late)),
    arrived_rows db s rows later told,
  )

  History-IsFaithfulLog : {db : Db} → History db → IsFaithfulLog pg py covers db
  History-IsFaithfulLog (start db none_yet) =
      subst (λ rows. All (RowCovers pg py covers db) rows) (sym none_yet) tt
  History-IsFaithfulLog (arrival {db} h s later) =
      arrived_rows db s db.belief_states later (History-IsFaithfulLog h)
  History-IsFaithfulLog (updated {db} h pid f bs fresh telling distinct) =
      synthesize-IsFaithfulLog pg py covers pid f bs fresh db telling distinct
        (History-IsFaithfulLog h)
  History-IsFaithfulLog (rebuilt {db} h pid f mode bs fresh telling) =
      rebuild-IsFaithfulLog pg py covers pid f bs fresh db mode telling (History-IsFaithfulLog h)

  -- At any time the latest belief state of a project, if there is one, covers every summary of the
  -- project up to its watermark exactly as often as it stands in the log, and nothing else: where
  -- summaries arrive later than the watermarks, every answer covers what it is given, and updates
  -- find distinct timestamps, in any order of arrivals, updates and rebuilds of either mode.
  pub get_latest-CoversLog :
      {db : Db} (pid : ℕ) {r : BeliefStateRecord}
      → History db
      → get_latest pg py pid db ≡ ok (some r)
      → CoversLog pg py covers db pid r.state r.last_summary_created_at
  unfolding get_latest
  get_latest-CoversLog {db} pid {r} h found =
      first_CoversLog pg py covers pid db (λ x. x.project_id == pid) r (λ x e. ground arith)
        (History-IsFaithfulLog h) found
