-- ===== src/Ingest/Sweep.antt =====
-- What the sweep of pending jobs scans (backend/app/workers/ingest.py).
use terrible_naming_conventi.Base.{
  ℕ, ◌≤◌, length, length-filter, filter, count, ◌≡◌, refl, ◌∙◌, Bool, List, [], ◌∷◌, arith,
}
use terrible_naming_conventi.Errors.{ok}
use terrible_naming_conventi.Act.{Act, Returns, Returns-after, Returns-continue, Returns-ok}
use terrible_naming_conventi.Models.{Db, IngestionJob}
use terrible_naming_conventi.Ingest.{is_stale, enqueue_all, sweep_pending_jobs}

-- The scanned jobs are the pending ones that are older than ten minutes, and no more are queued.
abbrev pub IsSwept : ℕ → Db → ℕ × ℕ → Type 0
IsSwept now db counts = (counts.0 ≡ count (is_stale now) db.ingestion_jobs) × (counts.1 ≤ counts.0)

module _ {W : Type 0} (enqueue : IngestionJob → Act W Bool) where
  enqueue_all_lem :
      (js : List IngestionJob) (w : W)
      → Returns (λ (c : ℕ × ℕ). (c.0 ≡ length js) × (c.1 ≤ c.0)) (enqueue_all enqueue js w)
  unfolding enqueue_all
  enqueue_all_lem [] w = (refl, omega arith)
  enqueue_all_lem (j ∷ js) w =
      Returns-after (λ (c : ℕ × ℕ). (c.0 ≡ length (j ∷ js)) × (c.1 ≤ c.0)) (enqueue j w) _
        (λ queued w1.
          Returns-continue (λ (c : ℕ × ℕ). (c.0 ≡ length js) × (c.1 ≤ c.0))
            (λ (c : ℕ × ℕ). (c.0 ≡ length (j ∷ js)) × (c.1 ≤ c.0)) (enqueue_all enqueue js w1) _
            (enqueue_all_lem js w1) (λ c w2 h. (omega (arith, h.0), ground (arith, h.1))))

  -- The sweep, where the queue raises nothing, scans exactly the pending jobs that are older than
  -- ten minutes, and counts at most these as queued.
  pub sweep_pending_jobs-IsSwept :
      (now : ℕ) (db : Db) (w : W) {counts : ℕ × ℕ}
      → (sweep_pending_jobs enqueue now db w).0 ≡ ok counts
      → IsSwept now db counts
  unfolding sweep_pending_jobs
  sweep_pending_jobs-IsSwept now db w {counts} e =
      let h =
        Returns-ok
          (λ (c : ℕ × ℕ). (c.0 ≡ length (filter (is_stale now) db.ingestion_jobs)) × (c.1 ≤ c.0))
          (enqueue_all enqueue (filter (is_stale now) db.ingestion_jobs) w)
          (enqueue_all_lem (filter (is_stale now) db.ingestion_jobs) w) e in
      (h.0 ∙ length-filter (is_stale now) db.ingestion_jobs, h.1)
