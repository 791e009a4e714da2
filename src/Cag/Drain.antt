-- ===== src/Cag/Drain.antt =====
-- What `synthesize_and_insert` (backend/app/services/cag.py) leaves for the next update.
use terrible_naming_conventi.Base.{
  ℕ, ◌-◌, ◌<◌, ◌≡◌, sym, ◌∙◌, ap, Option, some, List, arith, length, get_elem?, subst,
}
use terrible_naming_conventi.Errors.{Result, ok}
use terrible_naming_conventi.Models.{Db, BeliefState, DocumentSummary, Postgres, Fresh}
use terrible_naming_conventi.Schema.{BeliefStateRecord, Pydantic}
use terrible_naming_conventi.Cag.{
  SynthesizeFn, watermark_of, record_of, get_latest, get_window_since, count_pending,
  max_created_at, add_row, synthesize_and_insert,
}
use terrible_naming_conventi.Cag.Window.{later_eq, later_lt, batch_of-eq-take, remaining_of-eq}
use terrible_naming_conventi.Cag.Pending.{
  HasDistinctTimes, next_pending, pending-add_row, count_pending-eq-length, window-IsStrict,
  window-IsAscending,
}
use terrible_naming_conventi.Cag.Synthesize.{
  IsIncrement, Outcome, refused, idle, added, synthesize-Outcome,
}

module _ (pg : Postgres) (py : Pydantic) (pid : ℕ) (f : SynthesizeFn) (bs : ℕ) (fresh : Fresh)
    (db : Db) where
  abbrev Ends : Result (Option BeliefStateRecord × ℕ) × Db → Type 0
  Ends o = Outcome pg py pid f bs fresh db o

  -- the window since a watermark
  abbrev win : Option ℕ → List DocumentSummary
  win m = get_window_since pg pid m db

  -- With distinct times a new row leaves one batch fewer pending.
  pub increment_leaves :
      (latest : Option BeliefStateRecord) (row : BeliefState) (k : ℕ)
      → 0 < bs
      → HasDistinctTimes pg pid db
      → IsIncrement py pid db f bs latest (win (watermark_of latest)) row k
      → count_pending pg pid (some row.last_summary_created_at) db
        ≡ length (win (watermark_of latest)) - bs
  increment_leaves latest row k b d inc =
      let m = watermark_of latest in
      let w = row.last_summary_created_at in
      let batch_eq = ap max_created_at (batch_of-eq-take bs (win m)) in
      next_pending pg pid db m w bs b inc.nonempty (inc.watermark ∙ batch_eq)
      ∙ later_eq bs (win m) w (window-IsStrict pg pid db m d) b (inc.watermark ∙ batch_eq)

  Outcome-drains :
      {o : Result (Option BeliefStateRecord × ℕ) × Db}
      → Ends o
      → (latest : Option BeliefStateRecord) (r : BeliefStateRecord) (k : ℕ)
      → HasDistinctTimes pg pid db
      → get_latest pg py pid db ≡ ok latest
      → o.0 ≡ ok (some r, k)
      → (count_pending pg pid (some r.last_summary_created_at) o.1 ≡ k)
        × (k ≡ count_pending pg pid (watermark_of latest) db - bs)
  Outcome-drains (refused e) latest r k d g h = cc
  Outcome-drains idle latest r k d g h = cc
  Outcome-drains (added latest' row j b found inc) latest r k d g h =
      let same : record_of row inc.content ≡ r = cc in
      let same_k : j ≡ k = cc in
      let same_latest : latest' ≡ latest = cc in
      let m = watermark_of latest' in
      let w = row.last_summary_created_at in
      let rest : k ≡ length (win m) - bs =
        omega (arith, inc.left, same_k, remaining_of-eq bs (win m)) in
      (
        subst
            (λ (x : BeliefStateRecord).
              count_pending pg pid (some x.last_summary_created_at) (add_row db row) ≡ k)
            same
            (pending-add_row pg pid db (some w) row
              ∙ increment_leaves latest' row j b d inc
              ∙ sym rest),
        subst (λ x. k ≡ count_pending pg pid (watermark_of x) db - bs) same_latest
            (omega (arith, rest, count_pending-eq-length pg pid db m)),
      )

  -- Where no two summaries of the project share a timestamp, an update that returns a record has
  -- consumed one batch: the second component counts exactly the summaries that are pending after
  -- the new watermark, which is one batch fewer than were pending before.
  pub synthesize_consumes_batch :
      (latest : Option BeliefStateRecord) (r : BeliefStateRecord) (k : ℕ)
      → let (result, db') = synthesize_and_insert pg py pid f bs fresh db in
        HasDistinctTimes pg pid db
        → get_latest pg py pid db ≡ ok latest
        → result ≡ ok (some r, k)
        → (count_pending pg pid (some r.last_summary_created_at) db' ≡ k)
          × (k ≡ count_pending pg pid (watermark_of latest) db - bs)
  synthesize_consumes_batch = Outcome-drains (synthesize-Outcome pg py pid f bs fresh db)

  Outcome-loses :
      {o : Result (Option BeliefStateRecord × ℕ) × Db}
      → Ends o
      → (latest : Option BeliefStateRecord) (r : BeliefStateRecord) (k : ℕ) (s : DocumentSummary)
      → get_latest pg py pid db ≡ ok latest
      → o.0 ≡ ok (some r, k)
      → get_elem? (win (watermark_of latest)) bs ≡ some s
      → s.created_at ≡ r.last_summary_created_at
      → count_pending pg pid (some r.last_summary_created_at) o.1 < k
  Outcome-loses (refused x) latest r k s g h e t = cc
  Outcome-loses idle latest r k s g h e t = cc
  Outcome-loses (added latest' row j b found inc) latest r k s g h e t =
      let same : record_of row inc.content ≡ r = cc in
      let same_k : j ≡ k = cc in
      let same_latest : latest ≡ latest' = cc in
      let m = watermark_of latest' in
      let w = row.last_summary_created_at in
      let batch_eq = ap max_created_at (batch_of-eq-take bs (win m)) in
      let cut : get_elem? (win m) bs ≡ some s =
        subst (λ x. get_elem? (win (watermark_of x)) bs ≡ some s) same_latest e in
      let tie : s.created_at ≡ w = t ∙ sym (ap (λ x. x.last_summary_created_at) same) in
      subst
        (λ (x : BeliefStateRecord).
          count_pending pg pid (some x.last_summary_created_at) (add_row db row) < k)
        same
        (rw
          (
            pending-add_row pg pid db (some w) row,
            next_pending pg pid db m w bs b inc.nonempty (inc.watermark ∙ batch_eq),
          )
          (omega (
            arith,
            inc.left,
            same_k,
            remaining_of-eq bs (win m),
            later_lt bs (win m) w s (window-IsAscending pg pid db m) b (inc.watermark ∙ batch_eq)
                cut tie,
          )))

  -- A summary at the cut of the batch that shares its timestamp with the new watermark is lost:
  -- fewer summaries are pending after the update than the update reports as remaining.
  pub synthesize_loses_ties :
      (latest : Option BeliefStateRecord) (r : BeliefStateRecord) (k : ℕ) (s : DocumentSummary)
      → let (result, db') = synthesize_and_insert pg py pid f bs fresh db in
        get_latest pg py pid db ≡ ok latest
        → result ≡ ok (some r, k)
        → get_elem? (get_window_since pg pid (watermark_of latest) db) bs ≡ some s
        → s.created_at ≡ r.last_summary_created_at
        → count_pending pg pid (some r.last_summary_created_at) db' < k
  synthesize_loses_ties = Outcome-loses (synthesize-Outcome pg py pid f bs fresh db)
