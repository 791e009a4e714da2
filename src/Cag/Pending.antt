-- ===== src/Cag/Pending.antt =====
-- `get_window_since` and `count_pending` of backend/app/services/cag.py: the window in the table.
use terrible_naming_conventi.Base.{
  ℕ, zero, suc, ◌≤◌, ◌<◌, ◌≡◌, refl, sym, ◌∙◌, Option, none, some, Bool, true, List, [], ◌∷◌, ◌&&◌,
  arith, ◌==◌, length, count, filter, All, take, count-filter, count_congr, count_mono,
  length-filter, count-perm, length-perm, All-filter, All-permᴰ,
}
use mathlib.Core.Logic.{∥∥₁_elim}
use mathlib.Core.List.{Perm}
use mathlib.Core.List.Perm
use native.Mathlib.Bridge.{le_prop}
use terrible_naming_conventi.Models.{BeliefState, DocumentSummary, Db, IsAscending, Postgres}
use terrible_naming_conventi.Cag.{
  created_of, max_created_at, add_row, in_window, not_fallback, get_window_since, count_pending,
}
use terrible_naming_conventi.Cag.Window.{later, IsStrict, IsStrict-of_distinct}

module _ (pg : Postgres) (pid : ℕ) (db : Db) where
  -- the summaries of the project that count: not a fallback
  abbrev pub counts_for : DocumentSummary → Bool
  counts_for s = s.project_id == pid && not_fallback pg s

  -- No two summaries of the project were created at the same time.
  abbrev pub HasDistinctTimes : Type 0
  HasDistinctTimes =
      (t : ℕ) → count (λ s. counts_for s && s.created_at == t) db.document_summaries ≤ 1

  pub window_perm :
      (old : Option ℕ)
      → Perm (get_window_since pg pid old db) (filter (in_window pg pid old) db.document_summaries)
  unfolding get_window_since
  window_perm old = pg.asc_perm DocumentSummary created_of _

  -- `count_pending` is the length of the window that would be read.
  pub count_pending-eq-length :
      (old : Option ℕ) → count_pending pg pid old db ≡ length (get_window_since pg pid old db)
  unfolding count_pending
  count_pending-eq-length old = omega (
    arith,
    length-perm (window_perm old),
    length-filter (in_window pg pid old) db.document_summaries,
  )

  -- The next window holds what is later than the new watermark in the window before.
  pub count_pending-after :
      (o w : ℕ)
      → o ≤ w
      → count_pending pg pid (some w) db ≡ count (later w) (get_window_since pg pid (some o) db)
  unfolding count_pending
  count_pending-after o w h =
      count_congr (in_window pg pid (some w)) (λ s. in_window pg pid (some o) s && later w s)
        db.document_summaries (λ s. ground arith)
      ∙ sym (count-filter (later w) (in_window pg pid (some o)) db.document_summaries)
      ∙ sym (count-perm (later w) (window_perm (some o)))

  pub count_pending-after_none :
      (w : ℕ) → count_pending pg pid (some w) db ≡ count (later w) (get_window_since pg pid none db)
  unfolding count_pending
  count_pending-after_none w =
      count_congr (in_window pg pid (some w)) (λ s. in_window pg pid none s && later w s)
        db.document_summaries (λ s. ground arith)
      ∙ sym (count-filter (later w) (in_window pg pid none) db.document_summaries)
      ∙ sym (count-perm (later w) (window_perm none))

  le-max_of_later :
      (o n : ℕ) (xs : List DocumentSummary)
      → 0 < n
      → 0 < length xs
      → All (λ s. in_window pg pid (some o) s ≡ true) xs
      → o ≤ max_created_at (take n xs)
  le-max_of_later o zero xs h k a = absurd (omega arith)
  le-max_of_later o (suc n) [] h k a = absurd (omega arith)
  le-max_of_later o (suc n) (x ∷ xs) h k a = ground (arith, a.0)

  -- A watermark never moves back.
  pub le-max_window :
      (o n : ℕ)
      → 0 < n
      → 0 < length (get_window_since pg pid (some o) db)
      → o ≤ max_created_at (take n (get_window_since pg pid (some o) db))
  le-max_window o n h k = ∥∥₁_elim (Perm.symm (window_perm (some o))) le_prop λ q.
      le-max_of_later o n (get_window_since pg pid (some o) db) h k (
        All-permᴰ (λ s. in_window pg pid (some o) s ≡ true) q
          (All-filter (in_window pg pid (some o)) db.document_summaries))

  pub window-IsAscending :
      (old : Option ℕ) → IsAscending created_of (get_window_since pg pid old db)
  unfolding get_window_since
  window-IsAscending old = pg.asc_sorted DocumentSummary created_of _

  -- With distinct times a window is strictly ascending.
  pub window-IsStrict :
      (old : Option ℕ) → HasDistinctTimes → IsStrict (get_window_since pg pid old db)
  unfolding get_window_since
  window-IsStrict old d =
      let selected = filter (in_window pg pid old) db.document_summaries in
      IsStrict-of_distinct (pg.order_by_asc DocumentSummary created_of selected)
        (pg.asc_sorted DocumentSummary created_of selected)
        λ t. omega (
          arith,
          d t,
          count-perm (λ s. s.created_at == t) (pg.asc_perm DocumentSummary created_of selected),
          count-filter (λ s. s.created_at == t) (in_window pg pid old) db.document_summaries,
          count_mono (λ s. in_window pg pid old s && s.created_at == t)
              (λ s. counts_for s && s.created_at == t) db.document_summaries (λ s h. ground arith),
        )

  -- After a batch is consumed, the pending summaries are those of the window later than it.
  pub next_pending :
      (m : Option ℕ) (w n : ℕ)
      → 0 < n
      → 0 < length (get_window_since pg pid m db)
      → w ≡ max_created_at (take n (get_window_since pg pid m db))
      → count_pending pg pid (some w) db ≡ count (later w) (get_window_since pg pid m db)
  next_pending none w n b k e = count_pending-after_none w
  next_pending (some o) w n b k e = count_pending-after o w (omega (arith, le-max_window o n b k))

  pub pending-add_row :
      (m : Option ℕ) (row : BeliefState)
      → count_pending pg pid m (add_row db row) ≡ count_pending pg pid m db
  unfolding count_pending
  pending-add_row m row = refl
