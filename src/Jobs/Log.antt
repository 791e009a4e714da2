-- ===== src/Jobs/Log.antt =====
-- What the belief states of a project say over time (backend/app/services/cag.py with
-- backend/app/workers/cag.py): which summaries each content covers.
use terrible_naming_conventi.Base.{
  ℕ, ◌≤◌, ◌<◌, ◌≡◌, refl, ap, sym, ◌∙◌, subst, Option, none, some, Bool, true, ◌&&◌, List, [], ◌∷◌,
  ◌++◌, arith, ◌==◌, length, count, filter, take, All, All-append, All-filter_both, All-permᴰ,
  count-append,
}
use mathlib.Core.Logic.{∥∥₁_elim}
use mathlib.Core.List.Perm
use native.Mathlib.Nat.{ℕ_set}
use terrible_naming_conventi.Errors.{Result, ok}
use terrible_naming_conventi.Models.{Db, BeliefState, DocumentSummary, Postgres, Fresh}
use terrible_naming_conventi.Schema.{BeliefStateContent, BeliefStateRecord, Pydantic}
use terrible_naming_conventi.Cag.{
  SynthesizeFn, Mode, compaction, genesis, version_of, watermark_of, state_of, max_created_at,
  first_record, get_latest, get_latest_full, get_window_since, add_row, batch_of, is_full,
  synthesize_and_insert, rebuild,
}
use terrible_naming_conventi.Cag.Window.{batch_of-eq-take, take_all}
use terrible_naming_conventi.Cag.Pending.{HasDistinctTimes, window-IsStrict, le-max_window}
use terrible_naming_conventi.Cag.Counted.{first_record-some}
use terrible_naming_conventi.Cag.Synthesize
use terrible_naming_conventi.Cag.Synthesize.{IsIncrement, Outcome, synthesize-Outcome}
use terrible_naming_conventi.Cag.Rebuild
use terrible_naming_conventi.Cag.Rebuild.{IsRebuilt, IsStart, Rebuilt, rebuild-Rebuilt}
use terrible_naming_conventi.Cag.Coverage.{RebuildResult}
use terrible_naming_conventi.Reduce.Covers.{flat, covers_of}
use terrible_naming_conventi.Jobs.Times.{
  some-injective, own_id, by_time, count-own_id, taken_lem, whole_lem, logged_by, logged_before,
  logged_by_lem,
}

module _ (pg : Postgres) (py : Pydantic) (covers : BeliefStateContent → List ℕ) where
  -- The content covers each summary of the project up to the time, as often as it stands in the log,
  -- and nothing else.
  abbrev pub CoversLog : Db → ℕ → BeliefStateContent → ℕ → Type 0
  CoversLog db pid c w =
      (n : ℕ) → count (λ i. i == n) (covers c) ≡ logged_by pg pid db w (λ s. s.id == n)

  abbrev pub RowCovers : Db → BeliefState → Type 0
  RowCovers db row =
      (c : BeliefStateContent)
      → py.model_validate row.state ≡ some c
      → CoversLog db row.project_id c row.last_summary_created_at

  -- Every belief state that can be read covers the log up to its watermark.
  abbrev pub IsFaithfulLog : Db → Type 0
  IsFaithfulLog db = All (RowCovers db) db.belief_states

  -- An answer covers what its state covers and the summaries that it is given.
  abbrev pub IsTelling : SynthesizeFn → Type 0
  IsTelling f =
      (state : Option BeliefStateContent) (window : List DocumentSummary) (c : BeliefStateContent)
      → f state window ≡ ok c
      → covers c ≡ covers_of covers state ++ flat own_id window

  module _ (pid : ℕ) (db : Db) where
    pub first_CoversLog :
        (p : BeliefState → Bool) (r : BeliefStateRecord)
        → ((x : BeliefState) → p x ≡ true → x.project_id ≡ pid)
        → IsFaithfulLog db
        → first_record py (pg.order_by_desc BeliefState version_of (filter p db.belief_states))
          ≡ ok (some r)
        → CoversLog db pid r.state r.last_summary_created_at
    first_CoversLog p r same c h n =
        let rows = filter p db.belief_states in
        ∥∥₁_elim (Perm.symm (pg.desc_perm BeliefState version_of rows)) (ℕ_set _ _) λ q.
          let Q : BeliefState → Type 0 = λ x. (p x ≡ true) × RowCovers db x in
          let (row, content, held, e, good) =
            first_record-some py Q (pg.order_by_desc BeliefState version_of rows) r
              (All-permᴰ Q q (All-filter_both (RowCovers db) p db.belief_states c)) h in
          subst (λ (x : BeliefStateRecord). CoversLog db pid x.state x.last_summary_created_at) e
            (subst (λ k. CoversLog db k content row.last_summary_created_at) (same row held.0)
              (held.1 content good))
            n

    -- What a start covers.
    abbrev StartCovers : Option BeliefStateRecord → Type 0
    StartCovers start =
        (n : ℕ)
        → count (λ i. i == n) (covers_of covers (state_of start))
          ≡ logged_before pg pid db (watermark_of start) (λ s. s.id == n)

    start_CoversLog :
        (start : Option BeliefStateRecord)
        → ((r : BeliefStateRecord)
            → start ≡ some r
            → CoversLog db pid r.state r.last_summary_created_at)
        → StartCovers start
    start_CoversLog none h n = refl
    start_CoversLog (some r) h n = h r refl n

    -- A content made from a start and the next entries of its window covers the log up to the
    -- greatest time of these.
    folded_CoversLog :
        (start : Option BeliefStateRecord) (batch : List DocumentSummary) (c : BeliefStateContent)
        (w : ℕ)
        → StartCovers start
        → covers c ≡ covers_of covers (state_of start) ++ flat own_id batch
        → ((o : ℕ) → watermark_of start ≡ some o → o ≤ w)
        → ((p : DocumentSummary → Bool)
            → count (λ s. by_time w s && p s) (get_window_since pg pid (watermark_of start) db)
              ≡ count p batch)
        → CoversLog db pid c w
    folded_CoversLog start batch c w begun told later_than whole n = omega (
      arith,
      ap (count (λ i. i == n)) told,
      count-append (λ i. i == n) (covers_of covers (state_of start)) (flat own_id batch),
      count-own_id n batch,
      begun n,
      whole (λ s. s.id == n),
      logged_by_lem pg pid db (watermark_of start) w (λ s. s.id == n) later_than,
    )

    later_lem :
        (start : Option BeliefStateRecord) (k : ℕ)
        → 0 < k
        → 0 < length (get_window_since pg pid (watermark_of start) db)
        → (o : ℕ) → watermark_of start ≡ some o
        → o ≤ max_created_at (take k (get_window_since pg pid (watermark_of start) db))
    later_lem none k p n o e = absurd (ground arith)
    later_lem (some r) k p n o e =
        let same : r.last_summary_created_at ≡ o = some-injective e in
        omega (arith, same, le-max_window pg pid db r.last_summary_created_at k p n)

    row_CoversLog :
        (row : BeliefState) (c : BeliefStateContent)
        → row.project_id ≡ pid
        → py.model_validate row.state ≡ some c
        → CoversLog db pid c row.last_summary_created_at
        → RowCovers db row
    row_CoversLog row c same readable h d read =
        let equal : c ≡ d = some-injective (sym readable ∙ read) in
        subst (λ k. CoversLog db k d row.last_summary_created_at) (sym same)
          (subst (λ x. CoversLog db pid x row.last_summary_created_at) equal h)

    add_row-IsFaithfulLog :
        (row : BeliefState) → IsFaithfulLog db → RowCovers db row → IsFaithfulLog (add_row db row)
    add_row-IsFaithfulLog row faithful h =
        All-append (RowCovers (add_row db row)) db.belief_states (row ∷ []) faithful (h, tt)

    get_latest-CoversLog :
        (start : Option BeliefStateRecord)
        → IsFaithfulLog db
        → get_latest pg py pid db ≡ ok start
        → StartCovers start
    unfolding get_latest
    get_latest-CoversLog start faithful found = start_CoversLog start (λ r e.
        first_CoversLog (λ x. x.project_id == pid) r (λ x h. ground arith) faithful
          (found ∙ ap ok e))

    IsStart-CoversLog :
        (f : SynthesizeFn) (fresh : Fresh) (mode : Mode) (start : Option BeliefStateRecord)
        → IsFaithfulLog db
        → IsStart pg py pid f fresh db mode start
        → StartCovers start
    unfolding get_latest_full
    IsStart-CoversLog f fresh genesis start faithful from =
        start_CoversLog start (λ r e. absurd (ground arith))
    IsStart-CoversLog f fresh compaction start faithful from = start_CoversLog start (λ r e.
        first_CoversLog (λ x. x.project_id == pid && is_full x.rebuild_type) r (λ x h. ground arith)
          faithful (from ∙ ap ok e))

  module _ (pid : ℕ) (f : SynthesizeFn) (bs : ℕ) (fresh : Fresh) (db : Db) where
    Outcome-IsFaithfulLog :
        {o : Result (Option BeliefStateRecord × ℕ) × Db}
        → Outcome pg py pid f bs fresh db o
        → IsTelling f
        → HasDistinctTimes pg pid db
        → IsFaithfulLog db
        → IsFaithfulLog o.1
    Outcome-IsFaithfulLog (Synthesize.refused e) telling d faithful = faithful
    Outcome-IsFaithfulLog Synthesize.idle telling d faithful = faithful
    Outcome-IsFaithfulLog (Synthesize.added latest row k b found inc) telling d faithful =
        let win = get_window_since pg pid (watermark_of latest) db in
        let w = row.last_summary_created_at in
        let cut : batch_of bs win ≡ take bs win = batch_of-eq-take bs win in
        let highest : w ≡ max_created_at (take bs win) = inc.watermark ∙ ap max_created_at cut in
        add_row-IsFaithfulLog pid db row faithful (
          row_CoversLog pid db row inc.content inc.same_project inc.readable (
            folded_CoversLog pid db latest (batch_of bs win) inc.content w
              (get_latest-CoversLog pid db latest faithful found)
              (telling (state_of latest) (batch_of bs win) inc.content inc.folded)
              (λ o e. omega (arith, highest, later_lem pid db latest bs b inc.nonempty o e))
              (λ p.
                taken_lem p bs win w (window-IsStrict pg pid db (watermark_of latest) d) b highest
                ∙ ap (count p) (sym cut))))

    -- If each answer covers what its state covers and the summaries that it is given, and no two
    -- summaries of the project share a timestamp, an update leaves every belief state covering
    -- each summary of its project up to its watermark exactly once, if they did so before.
    pub synthesize-IsFaithfulLog :
        IsTelling f
        → HasDistinctTimes pg pid db
        → IsFaithfulLog db
        → IsFaithfulLog (synthesize_and_insert pg py pid f bs fresh db).1
    synthesize-IsFaithfulLog = Outcome-IsFaithfulLog (synthesize-Outcome pg py pid f bs fresh db)

    Rebuilt-IsFaithfulLog :
        (mode : Mode) {o : RebuildResult}
        → Rebuilt pg py pid f fresh db mode o
        → IsTelling f
        → IsFaithfulLog db
        → IsFaithfulLog o.1
    Rebuilt-IsFaithfulLog mode (Rebuild.refused e) telling faithful = faithful
    Rebuilt-IsFaithfulLog mode Rebuild.idle telling faithful = faithful
    Rebuilt-IsFaithfulLog mode (Rebuild.added previous start row found from b) telling faithful =
        let win = get_window_since pg pid (watermark_of start) db in
        let w = row.last_summary_created_at in
        let all : take (length win) win ≡ win = take_all (length win) win (omega arith) in
        add_row-IsFaithfulLog pid db row faithful (
          row_CoversLog pid db row b.content b.same_project b.readable (
            folded_CoversLog pid db start win b.content w
              (IsStart-CoversLog pid db f fresh mode start faithful from)
              (telling (state_of start) win b.content b.folded)
              (λ o e. omega (
                arith,
                b.watermark,
                ap max_created_at all,
                later_lem pid db start (length win) b.nonempty b.nonempty o e,
              ))
              (λ p. whole_lem p win w (omega (arith, b.watermark)))))

    -- With such answers a rebuild of either mode does so as well, whatever the timestamps are.
    pub rebuild-IsFaithfulLog :
        (mode : Mode)
        → IsTelling f
        → IsFaithfulLog db
        → IsFaithfulLog (rebuild pg py pid f mode bs fresh db).1
    rebuild-IsFaithfulLog mode =
        Rebuilt-IsFaithfulLog mode (rebuild-Rebuilt pg py pid f fresh db mode bs)
