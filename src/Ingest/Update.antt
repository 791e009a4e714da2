-- ===== src/Ingest/Update.antt =====
-- The job that updates a belief state: `cag_update` of backend/app/workers/cag.py.
use terrible_naming_conventi.Base.{ℕ, ◌≡◌, refl, ap, subst, Option, none, some, ltb, if◌then◌else◌}
use terrible_naming_conventi.Errors.{Result, ok}
use terrible_naming_conventi.Act.{Act, ◌>>=◌, pure}
use terrible_naming_conventi.Models.{Db, Project, Fresh, Text, Postgres}
use terrible_naming_conventi.Schema.{Pydantic, BeliefStateRecord}
use terrible_naming_conventi.Cag.{SynthesizeFn, get_latest, count_pending, synthesize_and_insert}
use terrible_naming_conventi.Cag.Pending.{HasDistinctTimes}
use terrible_naming_conventi.Cag.Drain.{synthesize_consumes_batch}
use terrible_naming_conventi.Documents.{outside}
use terrible_naming_conventi.Ingest.{reading, fetch_project}

-- a call of the service, which leaves the tables of its transaction
abbrev pub transact : {W A : Type 0} → (Db → Result A × Db) → Act (Db × W) A
transact call (db, w) = let (r, db') = call db in (r, (db', w))

-- `project.config.get("context_model", settings.litellm_context_model)`
abbrev pub context_model : Text → Project → Text
context_model default project = elim project.config.context_model [ none ↦ default | some m ↦ m ]

-- `synthesize_fn model` makes the prompt and asks the model; `enqueue` is
-- `enqueue_job("cag_update", project_id, _job_id=f"cag-update-{project_id}")`.
module _ (pg : Postgres) (py : Pydantic) (default_model : Text)
    (synthesize_fn : Text → SynthesizeFn) {W : Type 0} (enqueue : ℕ → Act W (Unit {0})) where
  -- the steps after the transaction
  abbrev pub after_update : ℕ → Option BeliefStateRecord × ℕ → Act (Db × W) (Unit {0})
  after_update project_id (none, remaining) = pure tt
  after_update project_id (some record', remaining) =
      if ltb 0 remaining then outside (enqueue project_id) else pure tt

  -- with `_REBUILD_BATCH_SIZE`
  unfoldable pub cag_update : ℕ → Fresh → Act (Db × W) (Unit {0})
  cag_update project_id fresh = do
    project ← reading (fetch_project project_id)
    outcome ← transact (
        synthesize_and_insert pg py project_id (synthesize_fn (context_model default_model project))
          40 fresh)
    after_update project_id outcome

  -- The tables afterwards, and the queue asked for another update if a summary is still pending.
  abbrev pub requeued : ℕ → BeliefStateRecord → Db → W → Result (Unit {0}) × (Db × W)
  requeued project_id r db w =
      (if ltb 0 (count_pending pg project_id (some r.last_summary_created_at) db)
          then outside (enqueue project_id)
          else pure tt)
        (db, w)

  updated_lem :
      (project_id : ℕ) (fresh : Fresh) (db : Db) (w : W) {project : Project} {r : BeliefStateRecord}
      {k : ℕ} {db' : Db}
      → fetch_project project_id db ≡ ok project
      → synthesize_and_insert pg py project_id
          (synthesize_fn (context_model default_model project))
          40
          fresh
          db
        ≡ (ok (some r, k), db')
      → count_pending pg project_id (some r.last_summary_created_at) db' ≡ k
      → cag_update project_id fresh (db, w) ≡ requeued project_id r db' w
  unfolding cag_update
  updated_lem project_id fresh db w found outcome left = rw (found, outcome, left) refl

  -- Where no two summaries of the project share a timestamp, an update job whose transaction adds a
  -- version leaves the tables of that transaction and asks the queue for another update exactly
  -- when a summary of the project is still pending after the new watermark.
  pub cag_update_requeues :
      (project_id : ℕ) (fresh : Fresh) (db : Db) (w : W) {project : Project}
      {latest : Option BeliefStateRecord} {r : BeliefStateRecord} {k : ℕ} {db' : Db}
      → HasDistinctTimes pg project_id db
      → get_latest pg py project_id db ≡ ok latest
      → fetch_project project_id db ≡ ok project
      → synthesize_and_insert pg py project_id
          (synthesize_fn (context_model default_model project))
          40
          fresh
          db
        ≡ (ok (some r, k), db')
      → cag_update project_id fresh (db, w) ≡ requeued project_id r db' w
  cag_update_requeues project_id fresh db w {project} {latest} {r} {k} {db'} distinct before found
        outcome =
      let f = synthesize_fn (context_model default_model project) in
      let drained =
        synthesize_consumes_batch pg py project_id f 40 fresh db latest r k distinct before
          (ap (λ o. o.0) outcome) in
      updated_lem project_id fresh db w found outcome (
        subst (λ o. count_pending pg project_id (some r.last_summary_created_at) o.1 ≡ k) outcome
          drained.0)
