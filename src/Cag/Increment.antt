-- ===== src/Cag/Increment.antt =====
-- What callers of `synthesize_and_insert` (backend/app/services/cag.py) can rely on.
use terrible_naming_conventi.Base.{ℕ, ◌≡◌, ◌≢◌, refl, sym, ◌∙◌, ap, Option, none, some, subst}
use terrible_naming_conventi.Errors.{Error, Result, ok, err}
use terrible_naming_conventi.Models.{Db, Postgres, Fresh, incremental}
use terrible_naming_conventi.Schema.{BeliefStateRecord, Pydantic}
use terrible_naming_conventi.Cag.{
  SynthesizeFn, record_of, get_latest, add_row, next_version, synthesize_and_insert,
}
use terrible_naming_conventi.Cag.Versions.{IsNumbered, add_row-IsNumbered}
use terrible_naming_conventi.Cag.Latest.{get_latest-add_row, get_latest-add_row_ne}
use terrible_naming_conventi.Cag.Synthesize.{
  to_record-ok, Outcome, refused, idle, added, synthesize-Outcome,
}

module _ (pg : Postgres) (py : Pydantic) (pid : ℕ) (f : SynthesizeFn) (bs : ℕ) (fresh : Fresh)
    (db : Db) where
  abbrev Ends : Result (Option BeliefStateRecord × ℕ) × Db → Type 0
  Ends o = Outcome pg py pid f bs fresh db o

  Outcome-IsNumbered :
      {o : Result (Option BeliefStateRecord × ℕ) × Db} → Ends o → IsNumbered db → IsNumbered o.1
  Outcome-IsNumbered (refused e) n = n
  Outcome-IsNumbered idle n = n
  Outcome-IsNumbered (added latest row k b found inc) n =
      add_row-IsNumbered db row n (rw inc.same_project inc.numbered)

  -- Whatever the model answers, an update keeps the versions of every project 1, 2, ..., n, each
  -- once.
  pub synthesize-IsNumbered :
      IsNumbered db → IsNumbered (synthesize_and_insert pg py pid f bs fresh db).1
  synthesize-IsNumbered = Outcome-IsNumbered (synthesize-Outcome pg py pid f bs fresh db)

  Outcome-latest :
      {o : Result (Option BeliefStateRecord × ℕ) × Db}
      → Ends o
      → (r : BeliefStateRecord) (k : ℕ) → o.0 ≡ ok (some r, k)
      → (get_latest pg py pid o.1 ≡ ok (some r))
        × (r.version ≡ next_version pid db)
        × (r.rebuild_type ≡ incremental)
        × (o.1.document_summaries ≡ db.document_summaries)
  Outcome-latest (refused e) r k h = cc
  Outcome-latest idle r k h = cc
  Outcome-latest (added latest row j b found inc) r k h =
      let same : record_of row inc.content ≡ r = cc in
      let read = to_record-ok py row inc.content inc.readable in
      (
        subst (λ q. get_latest pg py q (add_row db row) ≡ ok (some r)) inc.same_project
            (get_latest-add_row pg py db row (rw inc.same_project inc.numbered)
              ∙ rw read (ap (λ x. ok (some x)) same)),
        sym (ap (λ x. x.version) same) ∙ inc.numbered,
        sym (ap (λ x. x.rebuild_type) same) ∙ inc.kind,
        refl,
      )

  -- When an update returns a record, that record is the latest of the project, it has the next
  -- version and the type "incremental", and the summaries are as they were.
  synthesize_returns_latest :
      (r : BeliefStateRecord) (k : ℕ)
      → let (result, db') = synthesize_and_insert pg py pid f bs fresh db in
        result ≡ ok (some r, k)
        → (get_latest pg py pid db' ≡ ok (some r))
          × (r.version ≡ next_version pid db)
          × (r.rebuild_type ≡ incremental)
          × (db'.document_summaries ≡ db.document_summaries)
  synthesize_returns_latest = Outcome-latest (synthesize-Outcome pg py pid f bs fresh db)

  Outcome-unchanged :
      {o : Result (Option BeliefStateRecord × ℕ) × Db}
      → Ends o
      → ((e : Error) → o.0 ≡ err e → o.1 ≡ db)
        × ((k : ℕ) → o.0 ≡ ok (none, k) → (k ≡ 0) × (o.1 ≡ db))
        × ((q : ℕ) → pid ≢ q → get_latest pg py q o.1 ≡ get_latest pg py q db)
  Outcome-unchanged (refused e) = (λ e h. refl, λ k h. cc, λ q h. refl)
  Outcome-unchanged idle = (λ e h. refl, λ k h. (cc, refl), λ q h. refl)
  Outcome-unchanged (added latest row j b found inc) =
      (λ e h. cc, λ k h. cc, λ q h. get_latest-add_row_ne pg py db row q (rw inc.same_project h))

  -- An update that raises, or that returns no record, has changed no table; it never changes the
  -- latest record of another project.
  pub synthesize_atomic :
      let (result, db') = synthesize_and_insert pg py pid f bs fresh db in
      ((e : Error) → result ≡ err e → db' ≡ db)
      × ((k : ℕ) → result ≡ ok (none, k) → (k ≡ 0) × (db' ≡ db))
      × ((q : ℕ) → pid ≢ q → get_latest pg py q db' ≡ get_latest pg py q db)
  synthesize_atomic = Outcome-unchanged (synthesize-Outcome pg py pid f bs fresh db)
