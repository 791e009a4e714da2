-- ===== src/Cag/Coverage.antt =====
-- What callers of `rebuild` (backend/app/services/cag.py) can rely on.
use terrible_naming_conventi.Base.{
  ℕ, ◌<◌, ◌≡◌, sym, ◌∙◌, ap, Option, some, arith, length, take, subst,
}
use terrible_naming_conventi.Errors.{Result, ok}
use terrible_naming_conventi.Models.{Db, Postgres, Fresh, full}
use terrible_naming_conventi.Schema.{BeliefStateRecord, Pydantic}
use terrible_naming_conventi.Cag.{
  SynthesizeFn, Mode, watermark_of, record_of, get_latest, get_window_since, count_pending,
  max_created_at, add_row, rebuild,
}
use terrible_naming_conventi.Cag.Versions.{IsNumbered, add_row-IsNumbered}
use terrible_naming_conventi.Cag.Latest.{get_latest-add_row}
use terrible_naming_conventi.Cag.Window.{later_le, take_all}
use terrible_naming_conventi.Cag.Pending.{next_pending, pending-add_row, window-IsAscending}
use terrible_naming_conventi.Cag.Synthesize.{to_record-ok}
use terrible_naming_conventi.Cag.Rebuild.{Rebuilt, refused, idle, added, rebuild-Rebuilt}

abbrev pub RebuildResult : Type 0
RebuildResult = Result (Option (BeliefStateRecord × Option BeliefStateRecord)) × Db

module _ (pg : Postgres) (py : Pydantic) (pid : ℕ) (db : Db) where
  -- After the greatest timestamp of a whole window nothing of it is pending.
  pub pending_none :
      (m : Option ℕ) (w : ℕ)
      → 0 < length (get_window_since pg pid m db)
      → w ≡ max_created_at (get_window_since pg pid m db)
      → count_pending pg pid (some w) db ≡ 0
  pending_none m w n e =
      let xs = get_window_since pg pid m db in
      let whole : w ≡ max_created_at (take (length xs) xs) =
        e ∙ sym (ap max_created_at (take_all (length xs) xs (omega arith))) in
      omega (
        arith,
        next_pending pg pid db m w (length xs) n n whole,
        later_le (length xs) xs w (window-IsAscending pg pid db m) n whole,
      )

module _ (pg : Postgres) (py : Pydantic) (pid : ℕ) (f : SynthesizeFn) (mode : Mode) (bs : ℕ)
    (fresh : Fresh) (db : Db) where
  Rebuilt-IsNumbered :
      {o : RebuildResult} → Rebuilt pg py pid f fresh db mode o → IsNumbered db → IsNumbered o.1
  Rebuilt-IsNumbered (refused e) n = n
  Rebuilt-IsNumbered idle n = n
  Rebuilt-IsNumbered (added previous start row found from b) n =
      add_row-IsNumbered db row n (rw b.same_project b.numbered)

  -- Whatever the model answers, a rebuild of either mode keeps the versions of every project
  -- 1, 2, ..., n, each once.
  pub rebuild-IsNumbered : IsNumbered db → IsNumbered (rebuild pg py pid f mode bs fresh db).1
  rebuild-IsNumbered = Rebuilt-IsNumbered (rebuild-Rebuilt pg py pid f fresh db mode bs)

  Rebuilt-covers :
      {o : RebuildResult}
      → Rebuilt pg py pid f fresh db mode o
      → (r : BeliefStateRecord) (previous : Option BeliefStateRecord)
      → o.0 ≡ ok (some (r, previous))
      → (get_latest pg py pid o.1 ≡ ok (some r))
        × (get_latest pg py pid db ≡ ok previous)
        × (r.rebuild_type ≡ full)
        × (count_pending pg pid (some r.last_summary_created_at) o.1 ≡ 0)
  Rebuilt-covers (refused e) r previous h = cc
  Rebuilt-covers idle r previous h = cc
  Rebuilt-covers (added before start row found from b) r previous h =
      let same : record_of row b.content ≡ r = cc in
      let w = row.last_summary_created_at in
      let read = to_record-ok py row b.content b.readable in
      (
        subst (λ q. get_latest pg py q (add_row db row) ≡ ok (some r)) b.same_project
            (get_latest-add_row pg py db row (rw b.same_project b.numbered)
              ∙ rw read (ap (λ x. ok (some x)) same)),
        cc,
        sym (ap (λ x. x.rebuild_type) same) ∙ b.kind,
        subst
            (λ (x : BeliefStateRecord).
              count_pending pg pid (some x.last_summary_created_at) (add_row db row) ≡ 0)
            same
            (pending-add_row pg pid db (some w) row
              ∙ pending_none pg py pid db (watermark_of start) w b.nonempty b.watermark),
      )

  -- When a rebuild returns a pair, its first record is the latest of the project afterwards, of
  -- type "full", the second is the latest before, and no summary is pending after the first.
  pub rebuild_covers_all :
      (r : BeliefStateRecord) (previous : Option BeliefStateRecord)
      → let (result, db') = rebuild pg py pid f mode bs fresh db in
        result ≡ ok (some (r, previous))
        → (get_latest pg py pid db' ≡ ok (some r))
          × (get_latest pg py pid db ≡ ok previous)
          × (r.rebuild_type ≡ full)
          × (count_pending pg pid (some r.last_summary_created_at) db' ≡ 0)
  rebuild_covers_all = Rebuilt-covers (rebuild-Rebuilt pg py pid f fresh db mode bs)
