-- ===== src/Cag.antt =====
-- backend/app/services/cag.py: the versioned belief states of a project. A method takes the tables
-- and returns its result and the tables that are left; what stands inside `session.begin()` either
-- adds one row or, on an exception, changes nothing. The advisory lock makes these transactions
-- run one after the other, so each is one function of the tables.
pub mod Rows
pub mod Versions
pub mod Latest
pub mod Window
pub mod Pending
pub mod Synthesize
pub mod Increment
pub mod Drain
pub mod Rebuild
pub mod Coverage
pub mod Counted
pub mod Insert
unfoldable pub use Rows.*
use terrible_naming_conventi.Base.{
  ℕ, ◌+◌, ◌-◌, Option, none, some, List, [], ◌∷◌, ◌++◌, map, length, take, filter, count, head?,
  ltb, ◌==◌, ◌&&◌, if◌then◌else◌, any,
}
use terrible_naming_conventi.Errors.{
  Result, ok, err, ◌>>=◌, or_raise, value_error, belief_state_not_found,
  belief_state_version_conflict,
}
use terrible_naming_conventi.Models.{
  Db, BeliefState, DocumentSummary, Postgres, Fresh, RebuildType, incremental, full,
}
use terrible_naming_conventi.Schema.{
  BeliefStateContent, BeliefStateRecord, BeliefStateVersionMeta, Pydantic,
}

-- What the model is asked for: the current content, if any, and the summaries to add.
abbrev pub SynthesizeFn : Type 0
SynthesizeFn = Option BeliefStateContent → List DocumentSummary → Result BeliefStateContent

pub data Mode : Type 0 where
  compaction genesis : Mode

-- `latest.last_summary_created_at if latest else None`, and the like.
abbrev pub watermark_of : Option BeliefStateRecord → Option ℕ
watermark_of none = none
watermark_of (some r) = some r.last_summary_created_at

abbrev pub count_of : Option BeliefStateRecord → ℕ
count_of none = 0
count_of (some r) = r.summary_count_covered

abbrev pub state_of : Option BeliefStateRecord → Option BeliefStateContent
state_of none = none
state_of (some r) = some r.state

-- `session.add(row)` and the commit
abbrev pub add_row : Db → BeliefState → Db
add_row db row = record db { belief_states = db.belief_states ++ row ∷ [] }

-- `(current_max or 0) + 1`, over the rows of the project
unfoldable pub next_version : ℕ → Db → ℕ
next_version project_id db =
    max_version (filter (λ r. r.project_id == project_id) db.belief_states) + 1

-- the new row, from the summaries that it consumes and the count that it starts from
abbrev pub new_row :
    Pydantic
    → RebuildType
    → ℕ
    → Fresh
    → Db
    → ℕ
    → List DocumentSummary
    → BeliefStateContent
    → BeliefState
new_row py rebuild_type project_id fresh db prior_count window content = record {
  id = fresh.id;
  project_id = project_id;
  version = next_version project_id db;
  state = py.model_dump content;
  rebuild_type = rebuild_type;
  last_summary_created_at = max_created_at window;
  summary_count_covered = prior_count + length window;
  created_at = fresh.now;
}

abbrev pub inserted_row :
    Pydantic → ℕ → BeliefStateContent → RebuildType → ℕ → ℕ → Fresh → Db → BeliefState
inserted_row py project_id content rebuild_type last_created_at count_covered fresh db = record {
  id = fresh.id;
  project_id = project_id;
  version = next_version project_id db;
  state = py.model_dump content;
  rebuild_type = rebuild_type;
  last_summary_created_at = last_created_at;
  summary_count_covered = count_covered;
  created_at = fresh.now;
}

-- `if len(window) > batch_size`: what is left for later, and what is consumed now
abbrev pub remaining_of : ℕ → List DocumentSummary → ℕ
remaining_of batch_size window =
    if ltb batch_size (length window) then length window - batch_size else 0

abbrev pub batch_of : ℕ → List DocumentSummary → List DocumentSummary
batch_of batch_size window =
    if ltb batch_size (length window) then take batch_size window else window

-- where a rebuild starts: the accumulator, the count before it, and the summaries after it
abbrev pub Start : Type 0
Start = Option BeliefStateContent × ℕ × List DocumentSummary

module _ (pg : Postgres) where
  unfoldable pub list_versions : ℕ → Db → List BeliefStateVersionMeta
  list_versions project_id db = map to_meta (
      pg.order_by_desc BeliefState version_of
        (filter (λ r. r.project_id == project_id) db.belief_states))

  unfoldable pub get_window_since : ℕ → Option ℕ → Db → List DocumentSummary
  get_window_since project_id watermark db =
      pg.order_by_asc DocumentSummary created_of
        (filter (in_window pg project_id watermark) db.document_summaries)

  unfoldable pub get_all_summaries : ℕ → Db → List DocumentSummary
  unfolding get_window_since
  get_all_summaries project_id db = get_window_since project_id none db

  unfoldable pub count_pending : ℕ → Option ℕ → Db → ℕ
  count_pending project_id watermark db =
      count (in_window pg project_id watermark) db.document_summaries

module _ (pg : Postgres) (py : Pydantic) where
  unfoldable pub get_latest : ℕ → Db → Result (Option BeliefStateRecord)
  get_latest project_id db = first_record py (
      pg.order_by_desc BeliefState version_of
        (filter (λ r. r.project_id == project_id) db.belief_states))

  unfoldable pub get_latest_full : ℕ → Db → Result (Option BeliefStateRecord)
  get_latest_full project_id db = first_record py (
      pg.order_by_desc BeliefState version_of
        (filter (λ r. r.project_id == project_id && is_full r.rebuild_type) db.belief_states))

  unfoldable pub get_version : ℕ → ℕ → Db → Result BeliefStateRecord
  get_version project_id version db = do
    row ←
        or_raise
          (head?
            (filter (λ r. r.project_id == project_id && r.version == version) db.belief_states))
          belief_state_not_found
    to_record py row

  -- the transaction of `synthesize_and_insert` after the window is read
  unfoldable pub consume :
      ℕ
      → SynthesizeFn
      → ℕ
      → Fresh
      → Db
      → Option BeliefStateRecord
      → List DocumentSummary
      → Result (Option (BeliefState × ℕ))
  unfolding next_version
  consume project_id synthesize_fn batch_size fresh db latest [] = ok none
  consume project_id synthesize_fn batch_size fresh db latest (s ∷ ss) = do
    let batch = batch_of batch_size (s ∷ ss)
    content ← synthesize_fn (state_of latest) batch
    ok (
        some (
          new_row py incremental project_id fresh db (count_of latest) batch content,
          remaining_of batch_size (s ∷ ss),
        ))

  unfoldable pub synthesize_row :
      ℕ → SynthesizeFn → ℕ → Fresh → Db → Result (Option (BeliefState × ℕ))
  synthesize_row project_id synthesize_fn batch_size fresh db = do
    latest ← get_latest project_id db
    consume project_id synthesize_fn batch_size fresh db latest
        (get_window_since pg project_id (watermark_of latest) db)

  -- leaving the transaction: an exception rolls back, a row is committed and read back
  unfoldable pub commit_synthesis :
      Db → Result (Option (BeliefState × ℕ)) → Result (Option BeliefStateRecord × ℕ) × Db
  commit_synthesis db (err e) = (err e, db)
  commit_synthesis db (ok none) = (ok (none, 0), db)
  commit_synthesis db (ok (some (row, remaining))) =
      ((do r ← to_record py row; ok (some r, remaining)), add_row db row)

  unfoldable pub synthesize_and_insert :
      ℕ → SynthesizeFn → ℕ → Fresh → Db → Result (Option BeliefStateRecord × ℕ) × Db
  unfolding commit_synthesis
  synthesize_and_insert project_id synthesize_fn batch_size fresh db =
      if ltb batch_size 1
      then (err value_error, db)
      else commit_synthesis db (synthesize_row project_id synthesize_fn batch_size fresh db)

  -- from the latest full record, or from nothing where there is none
  abbrev pub start_from : ℕ → Db → Option BeliefStateRecord → Start
  start_from project_id db none = (none, 0, get_all_summaries pg project_id db)
  start_from project_id db (some r) = (
    some r.state,
    r.summary_count_covered,
    get_window_since pg project_id (some r.last_summary_created_at) db,
  )

  -- the choice of `rebuild` between the two modes
  unfoldable pub rebuild_start : ℕ → Mode → Db → Result Start
  rebuild_start project_id compaction db = do
    latest_full ← get_latest_full project_id db
    ok (start_from project_id db latest_full)
  rebuild_start project_id genesis db = ok (none, 0, get_all_summaries pg project_id db)

  -- the transaction of `rebuild` after its start is chosen
  unfoldable pub rebuild_from :
      ℕ
      → SynthesizeFn
      → Fresh
      → Db
      → Option BeliefStateContent
      → ℕ
      → List DocumentSummary
      → Result (Option BeliefState)
  unfolding next_version
  rebuild_from project_id rebuild_fn fresh db accumulator prior_count [] = ok none
  rebuild_from project_id rebuild_fn fresh db accumulator prior_count (s ∷ ss) = do
    content ← rebuild_fn accumulator (s ∷ ss)
    ok (some (new_row py full project_id fresh db prior_count (s ∷ ss) content))

  unfoldable pub rebuild_row :
      ℕ → SynthesizeFn → Mode → Fresh → Db → Result (Option BeliefStateRecord × Option BeliefState)
  rebuild_row project_id rebuild_fn mode fresh db = do
    previous_latest ← get_latest project_id db
    start ← rebuild_start project_id mode db
    row ← rebuild_from project_id rebuild_fn fresh db start.0 start.1 start.2
    ok (previous_latest, row)

  unfoldable pub commit_rebuild :
      Db
      → Result (Option BeliefStateRecord × Option BeliefState)
      → Result (Option (BeliefStateRecord × Option BeliefStateRecord)) × Db
  commit_rebuild db (err e) = (err e, db)
  commit_rebuild db (ok (previous, none)) = (ok none, db)
  commit_rebuild db (ok (previous, some row)) =
      ((do r ← to_record py row; ok (some (r, previous))), add_row db row)

  unfoldable pub rebuild :
      ℕ
      → SynthesizeFn
      → Mode
      → ℕ
      → Fresh
      → Db
      → Result (Option (BeliefStateRecord × Option BeliefStateRecord)) × Db
  unfolding commit_rebuild
  rebuild project_id rebuild_fn mode batch_size fresh db =
      if ltb batch_size 1
      then (err value_error, db)
      else commit_rebuild db (rebuild_row project_id rebuild_fn mode fresh db)

  -- The unique constraint on the project and the version is checked by the database.
  unfoldable pub insert_version :
      ℕ → BeliefStateContent → RebuildType → ℕ → ℕ → Fresh → Db → Result BeliefStateRecord × Db
  insert_version project_id content rebuild_type last_created_at count_covered fresh db =
      let row =
        inserted_row py project_id content rebuild_type last_created_at count_covered fresh db in
      if any (λ r. r.project_id == project_id && r.version == row.version) db.belief_states
      then (err belief_state_version_conflict, db)
      else (to_record py row, add_row db row)
