-- ===== src/Cag/Counted.antt =====
-- `summary_count_covered` of backend/app/services/cag.py: what a record covers and what is pending
-- after it are together all summaries of the project.
use terrible_naming_conventi.Base.{
  ℕ, ◌+◌, ◌≡◌, refl, ◌∙◌, ap, inl, inr, Option, none, some, Bool, true, List, [], ◌∷◌, ◌&&◌, arith,
  ◌==◌, length, length-take, filter, All, Option-cases, subst, All-append, All-map, All-filter_both,
  All-permᴰ,
}
use mathlib.Core.Logic.{∥∥₁_elim}
use mathlib.Core.List.Perm
use native.Mathlib.Nat.{ℕ_set}
use terrible_naming_conventi.Errors.{Result, ok}
use terrible_naming_conventi.Models.{Db, BeliefState, Postgres, Fresh}
use terrible_naming_conventi.Schema.{BeliefStateContent, BeliefStateRecord, Pydantic}
use terrible_naming_conventi.Cag.{
  SynthesizeFn, Mode, compaction, genesis, version_of, watermark_of, count_of, record_of,
  first_record, get_latest, get_latest_full, get_window_since, count_pending, add_row, rebuild,
  synthesize_and_insert, is_full,
}
use terrible_naming_conventi.Cag.Window.{batch_of-eq-take}
use terrible_naming_conventi.Cag.Pending.{
  HasDistinctTimes, pending-add_row, count_pending-eq-length,
}
use terrible_naming_conventi.Cag.Synthesize
use terrible_naming_conventi.Cag.Synthesize.{IsIncrement, Outcome, synthesize-Outcome}
use terrible_naming_conventi.Cag.Drain.{increment_leaves}
use terrible_naming_conventi.Cag.Rebuild
use terrible_naming_conventi.Cag.Rebuild.{IsRebuilt, IsStart, Rebuilt, rebuild-Rebuilt}
use terrible_naming_conventi.Cag.Coverage.{RebuildResult, pending_none}

module _ (pg : Postgres) where
  -- A count and a watermark that together account for all summaries of the project.
  abbrev pub Accounts : Db → ℕ → ℕ → ℕ → Type 0
  Accounts db pid covered w =
      covered + count_pending pg pid (some w) db ≡ count_pending pg pid none db

  abbrev pub RowAccounts : Db → BeliefState → Type 0
  RowAccounts db r = Accounts db r.project_id r.summary_count_covered r.last_summary_created_at

  abbrev pub IsCounted : Db → Type 0
  IsCounted db = All (RowAccounts db) db.belief_states

-- The first record is read from a row.
pub first_record-some :
    (py : Pydantic) (P : BeliefState → Type 0) (xs : List BeliefState) (r : BeliefStateRecord)
    → All P xs
    → first_record py xs ≡ ok (some r)
    → (row : BeliefState) × (c : BeliefStateContent) × P row
      × (record_of row c ≡ r)
      × (py.model_validate row.state ≡ some c)
unfolding first_record
first_record-some py P [] r a h = cc
first_record-some py P (x ∷ xs) r a h = elim (Option-cases (py.model_validate x.state)) [
  | inl bad ↦ absurd (ground arith)
  | inr (c, good) ↦ (x, c, a.0, ground arith, good)
]

module _ (pg : Postgres) (py : Pydantic) (pid : ℕ) (db : Db) where
  first_counted :
      (p : BeliefState → Bool) (r : BeliefStateRecord)
      → ((x : BeliefState) → p x ≡ true → x.project_id ≡ pid)
      → IsCounted pg db
      → first_record py (pg.order_by_desc BeliefState version_of (filter p db.belief_states))
        ≡ ok (some r)
      → Accounts pg db pid r.summary_count_covered r.last_summary_created_at
  first_counted p r same c h =
      let rows = filter p db.belief_states in
      ∥∥₁_elim (Perm.symm (pg.desc_perm BeliefState version_of rows)) (ℕ_set _ _) λ q.
        let Q : BeliefState → Type 0 = λ x. (p x ≡ true) × RowAccounts pg db x in
        let (row, content, held, e, good) =
          first_record-some py Q (pg.order_by_desc BeliefState version_of rows) r
            (All-permᴰ Q q (All-filter_both (RowAccounts pg db) p db.belief_states c)) h in
        subst
          (λ (x : BeliefStateRecord).
            Accounts pg db pid x.summary_count_covered x.last_summary_created_at)
          e
          (subst (λ k. Accounts pg db k row.summary_count_covered row.last_summary_created_at)
            (same row held.0) held.1)

  -- In a counted table the latest record of a project accounts for all its summaries.
  pub get_latest-Accounts :
      (r : BeliefStateRecord)
      → IsCounted pg db
      → get_latest pg py pid db ≡ ok (some r)
      → Accounts pg db pid r.summary_count_covered r.last_summary_created_at
  unfolding get_latest
  get_latest-Accounts r c h = first_counted (λ x. x.project_id == pid) r (λ x e. ground arith) c h

  pub get_latest_full-Accounts :
      (r : BeliefStateRecord)
      → IsCounted pg db
      → get_latest_full pg py pid db ≡ ok (some r)
      → Accounts pg db pid r.summary_count_covered r.last_summary_created_at
  unfolding get_latest_full
  get_latest_full-Accounts r c h =
      first_counted (λ x. x.project_id == pid && is_full x.rebuild_type) r (λ x e. ground arith) c h

  keep-Accounts : (row r : BeliefState) → RowAccounts pg db r → RowAccounts pg (add_row db row) r
  keep-Accounts row r a = omega (
    arith,
    a,
    pending-add_row pg r.project_id db (some r.last_summary_created_at) row,
    pending-add_row pg r.project_id db none row,
  )

  add_row-IsCounted :
      (row : BeliefState) → IsCounted pg db → RowAccounts pg db row → IsCounted pg (add_row db row)
  add_row-IsCounted row c a =
      All-append (RowAccounts pg (add_row db row)) db.belief_states (row ∷ [])
        (All-map (RowAccounts pg db) (RowAccounts pg (add_row db row)) db.belief_states
          (keep-Accounts row) c)
        (keep-Accounts row row a, tt)

  -- What the starting record accounts for, and the window since it, are all summaries.
  start-Accounts :
      (start : Option BeliefStateRecord)
      → ((r : BeliefStateRecord)
          → start ≡ some r
          → Accounts pg db pid r.summary_count_covered r.last_summary_created_at)
      → count_of start + length (get_window_since pg pid (watermark_of start) db)
        ≡ count_pending pg pid none db
  start-Accounts none a = omega (arith, count_pending-eq-length pg pid db none)
  start-Accounts (some r) a =
      omega (arith, a r refl, count_pending-eq-length pg pid db (some r.last_summary_created_at))

module _ (pg : Postgres) (py : Pydantic) (pid : ℕ) (f : SynthesizeFn) (bs : ℕ) (fresh : Fresh)
    (db : Db) where
  Outcome-IsCounted :
      {o : Result (Option BeliefStateRecord × ℕ) × Db}
      → Outcome pg py pid f bs fresh db o
      → HasDistinctTimes pg pid db
      → IsCounted pg db
      → IsCounted pg o.1
  Outcome-IsCounted (Synthesize.refused e) d c = c
  Outcome-IsCounted Synthesize.idle d c = c
  Outcome-IsCounted (Synthesize.added latest row k b found inc) d c =
      let xs = get_window_since pg pid (watermark_of latest) db in
      add_row-IsCounted pg py pid db row c (
        rw inc.same_project (
          omega (
            arith,
            inc.covered,
            increment_leaves pg py pid f bs fresh db latest row k b d inc,
            ap length (batch_of-eq-take bs xs),
            length-take bs xs,
            start-Accounts pg py pid db latest
                (λ r e. get_latest-Accounts pg py pid db r c (found ∙ ap ok e)),
          )))

  -- Where no two summaries of the project share a timestamp, an update keeps every record's count
  -- exact: covered and pending are together all summaries of the record's project.
  pub synthesize-IsCounted :
      HasDistinctTimes pg pid db
      → IsCounted pg db
      → IsCounted pg (synthesize_and_insert pg py pid f bs fresh db).1
  synthesize-IsCounted = Outcome-IsCounted (synthesize-Outcome pg py pid f bs fresh db)

  Rebuilt-IsCounted :
      (mode : Mode) {o : RebuildResult}
      → Rebuilt pg py pid f fresh db mode o
      → IsCounted pg db
      → IsCounted pg o.1
  Rebuilt-IsCounted mode (Rebuild.refused e) c = c
  Rebuilt-IsCounted mode Rebuild.idle c = c
  Rebuilt-IsCounted mode (Rebuild.added previous start row found from b) c =
      add_row-IsCounted pg py pid db row c (
        rw b.same_project (
          omega (
            arith,
            b.covered,
            pending_none pg py pid db (watermark_of start) row.last_summary_created_at b.nonempty
                b.watermark,
            start-Accounts pg py pid db start (λ r e. full_accounts mode start r from e),
          )))
    where
      full_accounts :
          (mode : Mode) (start : Option BeliefStateRecord) (r : BeliefStateRecord)
          → IsStart pg py pid f fresh db mode start
          → start ≡ some r
          → Accounts pg db pid r.summary_count_covered r.last_summary_created_at
      full_accounts genesis start r e h = absurd (ground arith)
      full_accounts compaction start r e h = get_latest_full-Accounts pg py pid db r c (e ∙ ap ok h)

  -- A rebuild of either mode keeps every record's count exact, with no condition on timestamps.
  pub rebuild-IsCounted :
      (mode : Mode) → IsCounted pg db → IsCounted pg (rebuild pg py pid f mode bs fresh db).1
  rebuild-IsCounted mode = Rebuilt-IsCounted mode (rebuild-Rebuilt pg py pid f fresh db mode bs)
