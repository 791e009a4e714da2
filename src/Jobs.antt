-- ===== src/Jobs.antt =====
-- The jobs of belief states: what backend/app/workers/cag.py hands to the service, with the prompts
-- and the language model, and the jobs `cag_rebuild` and `cag_weekly_rebuild`. The model is the
-- parameter `Llm`. Within a transaction it starts in the state `v`; the state that it is left in
-- is not kept.
pub mod Fold
pub mod Covers
pub mod Times
pub mod Log
pub mod History
use terrible_naming_conventi.Base.{
  ℕ, suc, Option, none, some, Bool, List, [], ◌∷◌, ◌++◌, map, length, ◌&&◌, not, any, ltb, ◌==◌,
  same_text, codes, if◌then◌else◌, count, filter,
}
use terrible_naming_conventi.Errors.{Result, ok, err, value_error, timeout_error}
use terrible_naming_conventi.Act.{Act, ◌>>=◌, ◌>>◌, pure, lift}
use terrible_naming_conventi.Models.{Db, Project, DocumentSummary, Fresh, Text, Postgres}
use terrible_naming_conventi.Schema.{
  BeliefStateContent, BeliefStateRecord, Decision, OpenItem, Pydantic,
}
use terrible_naming_conventi.Cag.{SynthesizeFn, Mode, compaction, genesis, rebuild}
use terrible_naming_conventi.Ingest.{fetch_project}
use terrible_naming_conventi.Ingest.Update.{context_model, cag_update}
use terrible_naming_conventi.Jobs.Fold.{Llm, synthesize_fn, rebuild_fn}

-- `mode not in {"compaction", "genesis"}`
unfoldable pub mode_of : Text → Result Mode
mode_of mode =
    if same_text mode (codes "compaction")
    then ok compaction
    else if same_text mode (codes "genesis")
    then ok genesis
    else err value_error

-- an entry is known by the summary that it refers to and by its description in lower case
abbrev pub Key : Type 0
Key = Option ℕ × Text

abbrev pub same_ref : Option ℕ → Option ℕ → Bool
same_ref none none = Bool.true
same_ref (some i) (some j) = i == j
same_ref i j = Bool.false

abbrev pub same_key : Key → Key → Bool
same_key (i, s) (j, t) = same_ref i j && same_text s t

-- how many entries are new, and how many are gone
unfoldable pub delta_entries : {A : Type 0} → (A → Key) → List A → List A → ℕ × ℕ
delta_entries key previous current = (
  count (λ c. not (any (λ p. same_key (key p) (key c)) previous)) current,
  count (λ p. not (any (λ c. same_key (key c) (key p)) current)) previous,
)

-- what a rebuild logs of its record, but for the similarity of the two project summaries
pub record Drift : Type 0 where
  pub previous_version : Option ℕ
  pub current_version : ℕ
  pub decisions : ℕ × ℕ
  pub open_items : ℕ × ℕ

module _ (lower : Text → Text) where
  abbrev pub decision_key : Decision → Key
  decision_key d = (d.summary_id_ref, lower d.description)

  abbrev pub open_item_key : OpenItem → Key
  open_item_key o = (o.first_seen_summary_id, lower o.description)

  unfoldable pub rebuild_drift : Option BeliefStateRecord → BeliefStateRecord → Drift
  unfolding delta_entries
  rebuild_drift none current = record {
    previous_version = none;
    current_version = current.version;
    decisions = (length current.state.decisions, 0);
    open_items = (length current.state.open_items, 0);
  }
  rebuild_drift (some previous) current = record {
    previous_version = some previous.version;
    current_version = current.version;
    decisions = delta_entries decision_key previous.state.decisions current.state.decisions;
    open_items = delta_entries open_item_key previous.state.open_items current.state.open_items;
  }

  -- nothing for a rebuild without summaries
  abbrev pub drift_of : Option (BeliefStateRecord × Option BeliefStateRecord) → Option Drift
  drift_of none = none
  drift_of (some (current, previous)) = some (rebuild_drift previous current)

-- `cag_update` with the function that it hands to the service
unfoldable pub update_job :
    Postgres
    → Pydantic
    → Text
    → {V W : Type 0} → Llm V
    → V
    → (ℕ → Act W (Unit {0}))
    → ℕ
    → Fresh
    → Act (Db × W) (Unit {0})
update_job pg py default_model llm v enqueue project_id fresh (db, w) =
    cag_update pg py default_model (λ model. synthesize_fn py llm model db.documents v) enqueue
      project_id fresh (db, w)

-- The job's result is what it logs. `_REBUILD_BATCH_SIZE` is 40.
module _ (pg : Postgres) (py : Pydantic) (lower : Text → Text) (default_model : Text) {V : Type 0}
    (llm : Llm V) where
  abbrev pub call_rebuild :
      ℕ
      → Mode
      → Fresh
      → V
      → Project
      → Act Db (Option (BeliefStateRecord × Option BeliefStateRecord))
  call_rebuild project_id mode fresh v project db =
      rebuild pg py project_id
        (rebuild_fn py llm (context_model default_model project) db.documents v) mode 40 fresh db

  unfoldable pub cag_rebuild : ℕ → Text → Fresh → V → Act Db (Option Drift)
  unfolding rebuild_drift
  cag_rebuild project_id mode fresh v = do
    checked ← lift (mode_of mode)
    project ← (λ db. (fetch_project project_id db, db))
    result ← call_rebuild project_id checked fresh v project
    pure (drift_of lower result)

-- `select(DocumentSummary.project_id).distinct()`
unfoldable pub distinct : List ℕ → List ℕ
distinct [] = []
distinct (x ∷ xs) = x ∷ filter (λ y. not (x == y)) (distinct xs)

-- `enqueue` is `enqueue_job("cag_rebuild", project_id, "compaction", _job_id=f"cag-rebuild-{...}")`
module _ {W : Type 0} (enqueue : ℕ → Act W (Unit {0})) where
  unfoldable pub enqueue_rebuilds : List ℕ → Act W (Unit {0})
  enqueue_rebuilds [] = pure tt
  enqueue_rebuilds (p ∷ ps) = enqueue p >> enqueue_rebuilds ps

  unfoldable pub cag_weekly_rebuild : Db → Act W (Unit {0})
  unfolding enqueue_rebuilds distinct
  cag_weekly_rebuild db =
      enqueue_rebuilds
        (distinct (map (λ (s : DocumentSummary). s.project_id) db.document_summaries))
