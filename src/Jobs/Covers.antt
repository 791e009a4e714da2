-- ===== src/Jobs/Covers.antt =====
-- What a rebuild job stores (backend/app/workers/cag.py with backend/app/services/cag.py): the
-- content of the new record covers every summary of the window.
use terrible_naming_conventi.Base.{
  ℕ, suc, ◌≡◌, refl, ap, sym, ◌∙◌, subst, Option, none, some, List, ◌++◌, arith, length,
}
use terrible_naming_conventi.Errors.{Result, ok, err}
use terrible_naming_conventi.Act.{pure, continue, continue-eq-ok}
use terrible_naming_conventi.Models.{Db, Document, DocumentSummary, Fresh, Project, Text, Postgres}
use terrible_naming_conventi.Schema.{BeliefStateContent, BeliefStateRecord, Pydantic}
use terrible_naming_conventi.Cag.{
  Mode, compaction, genesis, watermark_of, state_of, record_of, get_latest, get_latest_full,
  get_window_since,
}
use terrible_naming_conventi.Cag.Rebuild.{IsStart, Rebuilt, refused, idle, added, rebuild-Rebuilt}
use terrible_naming_conventi.Cag.Coverage.{RebuildResult, rebuild_covers_all}
use terrible_naming_conventi.Reduce.Covers.{flat, IsFaithful, covers_of, hierarchical_reduce_covers}
use terrible_naming_conventi.Reduce.Terminates.{hierarchical_reduce_total}
use terrible_naming_conventi.Ingest.{fetch_project}
use terrible_naming_conventi.Ingest.Update.{context_model}
use terrible_naming_conventi.Jobs.Fold.{Llm, digest, merge, result_of, rebuild_fn}
use terrible_naming_conventi.Jobs.{Drift, mode_of, drift_of, call_rebuild, cag_rebuild}

-- where a rebuild of a mode starts: at nothing, or at the latest full record
abbrev pub Starts : Postgres → Pydantic → ℕ → Db → Mode → Option BeliefStateRecord → Type 0
Starts pg py pid db compaction start = get_latest_full pg py pid db ≡ ok start
Starts pg py pid db genesis start = start ≡ none

module _ (py : Pydantic) {V I : Type 0} (llm : Llm V) (model : Text) (documents : List Document)
    (src : DocumentSummary → List I) (covers : BeliefStateContent → List I)
    (digests : IsFaithful (digest py llm model documents) src covers)
    (merges : IsFaithful (merge py llm model documents) covers covers) where
  pub covers-rebuild_fn :
      (v : V) (accumulator : Option BeliefStateContent) (summaries : List DocumentSummary)
      {c : BeliefStateContent}
      → rebuild_fn py llm model documents v accumulator summaries ≡ ok c
      → covers c ≡ covers_of covers accumulator ++ flat src summaries
  unfolding rebuild_fn
  covers-rebuild_fn v accumulator summaries {c} h =
      let ((r, v'), e) =
        hierarchical_reduce_total (digest py llm model documents) (merge py llm model documents)
          (suc (length summaries)) 40 accumulator summaries v (omega arith) (omega arith) in
      let r_ok : r ≡ ok c = sym (ap result_of e) ∙ h in
      hierarchical_reduce_covers (digest py llm model documents) (merge py llm model documents) src
        covers digests merges (suc (length summaries)) 40 accumulator summaries v c v'
        (e ∙ ap (λ t. some (t, v')) r_ok)

  module _ (pg : Postgres) (pid : ℕ) (v : V) (fresh : Fresh) (db : Db) where
    Rebuilt-folds :
        (mode : Mode) {o : RebuildResult}
        → Rebuilt pg py pid (rebuild_fn py llm model documents v) fresh db mode o
        → (r : BeliefStateRecord) (previous : Option BeliefStateRecord)
        → o.0 ≡ ok (some (r, previous))
        → (start : Option BeliefStateRecord) × Starts pg py pid db mode start
          × (covers r.state
              ≡ covers_of covers (state_of start)
                ++ flat src (get_window_since pg pid (watermark_of start) db))
    Rebuilt-folds mode (refused e) r previous h = cc
    Rebuilt-folds mode idle r previous h = cc
    Rebuilt-folds mode (added before start row found from b) r previous h =
        let same : record_of row b.content ≡ r = cc in
        (
          start,
          IsStart-Starts mode start from,
          ap (λ x. covers x.state) (sym same) ∙ covers-rebuild_fn v (state_of start) _ b.folded,
        )
      where
        IsStart-Starts :
            (mode : Mode) (start : Option BeliefStateRecord)
            → IsStart pg py pid (rebuild_fn py llm model documents v) fresh db mode start
            → Starts pg py pid db mode start
        IsStart-Starts compaction start h = h
        IsStart-Starts genesis start h = h

module _ (pg : Postgres) (py : Pydantic) (lower : Text → Text) (default_model : Text) {V I : Type 0}
    (llm : Llm V) (src : DocumentSummary → List I) (covers : BeliefStateContent → List I) where
  -- What the latest record covers after a rebuild: what the start covers, then the whole window.
  abbrev pub IsFolded : ℕ → Mode → Db → Db → Type 0
  IsFolded pid mode db db' =
      (start : Option BeliefStateRecord) × (r : BeliefStateRecord) × Starts pg py pid db mode start
      × (get_latest pg py pid db' ≡ ok (some r))
      × (covers r.state
          ≡ covers_of covers (state_of start)
            ++ flat src (get_window_since pg pid (watermark_of start) db))

  -- the end of a job whose transaction is given
  abbrev logged : RebuildResult → Result (Option Drift) × Db
  logged o = continue o (λ x. pure (drift_of lower x))

  logged_lem :
      (o : RebuildResult) {drift : Drift}
      → (logged o).0 ≡ ok (some drift)
      → (r : BeliefStateRecord) × (previous : Option BeliefStateRecord) × (o.0
          ≡ ok (some (r, previous)))
        × (o.1 ≡ (logged o).1)
  logged_lem (err e, db) h = cc
  logged_lem (ok none, db) h = cc
  logged_lem (ok (some (r, previous)), db) h = (r, previous, refl, refl)

  call_rebuild_covers :
      (pid : ℕ) (m : Mode) (fresh : Fresh) (v : V) (db : Db) (project : Project) {drift : Drift}
      → IsFaithful (digest py llm (context_model default_model project) db.documents) src covers
      → IsFaithful (merge py llm (context_model default_model project) db.documents) covers covers
      → let o = logged (call_rebuild pg py lower default_model llm pid m fresh v project db) in
        o.0 ≡ ok (some drift) → IsFolded pid m db o.1
  call_rebuild_covers pid m fresh v db project digests merges h =
      let model = context_model default_model project in
      let f = rebuild_fn py llm model db.documents v in
      let (r, previous, e, same) =
        logged_lem (call_rebuild pg py lower default_model llm pid m fresh v project db) h in
      let (start, from, folded) =
        Rebuilt-folds py llm model db.documents src covers digests merges pg pid v fresh db m
          (rebuild-Rebuilt pg py pid f fresh db m 40) r previous e in
      let stored = rebuild_covers_all pg py pid f m 40 fresh db r previous e in
      (start, r, from, subst (λ d. get_latest pg py pid d ≡ ok (some r)) same stored.0, folded)

  -- If each answer of the model covers what its batch covers, a rebuild job that logs a record
  -- leaves as the latest record one whose content covers what the start of the mode covers, which
  -- is nothing for "genesis" and the latest full record for "compaction", and then every summary
  -- after the start's watermark, once and in the order of the log.
  pub cag_rebuild_covers :
      (pid : ℕ) (mode : Text) (fresh : Fresh) (v : V) (db : Db) {project : Project} {drift : Drift}
      → fetch_project pid db ≡ ok project
      → IsFaithful (digest py llm (context_model default_model project) db.documents) src covers
      → IsFaithful (merge py llm (context_model default_model project) db.documents) covers covers
      → (cag_rebuild pg py lower default_model llm pid mode fresh v db).0 ≡ ok (some drift)
      → (m : Mode) × (mode_of mode ≡ ok m)
        × IsFolded pid m db (cag_rebuild pg py lower default_model llm pid mode fresh v db).1
  unfolding cag_rebuild
  cag_rebuild_covers pid mode fresh v db {project} {drift} found digests merges h =
      let (m, is_mode, h2) = continue-eq-ok (mode_of mode, db) _ h in
      (
        m,
        is_mode,
        rw (is_mode, found)
            (call_rebuild_covers pid m fresh v db project digests merges
              (rw (is_mode, found) at h)),
      )
