-- ===== src/Tests/Belief.antt =====
-- Incremental updates (backend/app/services/cag.py) of a project with three summaries.
use terrible_naming_conventi.Base.{
  ℕ, ◌-◌, ◌<◌, ◌≡◌, ◌≢◌, refl, none, some, [], ◌∷◌, arith, get_elem?,
}
use terrible_naming_conventi.Errors.{Error, ok, err}
use terrible_naming_conventi.Models.{Db, DocumentSummary, Fresh, null, incremental}
use terrible_naming_conventi.Schema.{BeliefStateRecord}
use terrible_naming_conventi.Samples.Sql.{postgres, first_flag}
use terrible_naming_conventi.Sorting.{arrange}
use terrible_naming_conventi.Samples.Codec.{pydantic, content}
use terrible_naming_conventi.Cag.{
  SynthesizeFn, not_fallback, to_record, first_record, watermark_of, get_latest, get_window_since,
  count_pending, next_version, consume, synthesize_row, synthesize_and_insert,
}
use terrible_naming_conventi.Cag.Versions.{IsNumbered}
use terrible_naming_conventi.Cag.Pending.{HasDistinctTimes}
use terrible_naming_conventi.Cag.Counted.{IsCounted, synthesize-IsCounted}
use terrible_naming_conventi.Cag.Increment.{synthesize-IsNumbered, synthesize_atomic}
use terrible_naming_conventi.Cag.Drain.{synthesize_consumes_batch, synthesize_loses_ties}

abbrev pub summary_at : ℕ → ℕ → DocumentSummary
summary_at id t = record {
  id = id;
  document_id = id;
  project_id = 7;
  summary = null;
  created_at = t;
}

abbrev pub no_rows : Db
no_rows = record {
  users = [];
  teams = [];
  team_members = [];
  projects = [];
  documents = [];
  document_summaries = [];
  ingestion_jobs = [];
  belief_states = [];
}

abbrev pub three : Db
three = record no_rows {
  document_summaries = summary_at 1 10 ∷ summary_at 2 30 ∷ summary_at 3 20 ∷ [];
}

-- the second and the third summary share a timestamp
abbrev tied : Db
tied = record no_rows {
  document_summaries = summary_at 1 10 ∷ summary_at 2 20 ∷ summary_at 3 20 ∷ [];
}

abbrev pub answer : SynthesizeFn
answer state window = ok content

abbrev pub fresh : Fresh
fresh = record { id = 100; now = 50 }

abbrev first_version : BeliefStateRecord
first_version = record {
  id = 100;
  project_id = 7;
  version = 1;
  rebuild_type = incremental;
  last_summary_created_at = 20;
  summary_count_covered = 2;
  created_at = 50;
  state = content;
}

-- The first update of two summaries takes those at 10 and 20 and leaves one.
first_update :
    (synthesize_and_insert postgres pydantic 7 answer 2 fresh three).0 ≡ ok (some first_version, 1)
unfolding synthesize_and_insert synthesize_row consume get_latest get_window_since first_record
    to_record not_fallback first_flag arrange next_version
first_update = refl

no_latest : get_latest postgres pydantic 7 three ≡ ok none
unfolding get_latest first_record arrange
no_latest = refl

pub three-IsNumbered : IsNumbered three
three-IsNumbered pid v = ground arith

pub three-HasDistinctTimes : HasDistinctTimes postgres 7 three
three-HasDistinctTimes t = ground arith

synthesize-IsNumbered_example :
    IsNumbered (synthesize_and_insert postgres pydantic 7 answer 2 fresh three).1
synthesize-IsNumbered_example =
    synthesize-IsNumbered postgres pydantic 7 answer 2 fresh three three-IsNumbered

synthesize_atomic_example :
    let (result, db') = synthesize_and_insert postgres pydantic 7 answer 2 fresh three in
    ((e : Error) → result ≡ err e → db' ≡ three)
    × ((k : ℕ) → result ≡ ok (none, k) → (k ≡ 0) × (db' ≡ three))
    × ((q : ℕ) → 7 ≢ q → get_latest postgres pydantic q db' ≡ get_latest postgres pydantic q three)
synthesize_atomic_example = synthesize_atomic postgres pydantic 7 answer 2 fresh three

synthesize_consumes_batch_example :
    (count_pending postgres 7
        (some 20)
        (synthesize_and_insert postgres pydantic 7 answer 2 fresh three).1
      ≡ 1)
    × (1 ≡ count_pending postgres 7 none three - 2)
synthesize_consumes_batch_example =
    synthesize_consumes_batch postgres pydantic 7 answer 2 fresh three none first_version 1
      three-HasDistinctTimes no_latest first_update

synthesize-IsCounted_example :
    IsCounted postgres (synthesize_and_insert postgres pydantic 7 answer 2 fresh three).1
synthesize-IsCounted_example =
    synthesize-IsCounted postgres pydantic 7 answer 2 fresh three three-HasDistinctTimes tt

tied_update :
    (synthesize_and_insert postgres pydantic 7 answer 2 fresh tied).0 ≡ ok (some first_version, 1)
unfolding synthesize_and_insert synthesize_row consume get_latest get_window_since first_record
    to_record not_fallback first_flag arrange next_version
tied_update = refl

tied_latest : get_latest postgres pydantic 7 tied ≡ ok none
unfolding get_latest first_record arrange
tied_latest = refl

tied_cut :
    get_elem? (get_window_since postgres 7 (watermark_of none) tied) 2 ≡ some (summary_at 3 20)
unfolding get_window_since not_fallback first_flag arrange
tied_cut = refl

synthesize_loses_ties_example :
    count_pending postgres 7
      (some 20)
      (synthesize_and_insert postgres pydantic 7 answer 2 fresh tied).1
    < 1
synthesize_loses_ties_example =
    synthesize_loses_ties postgres pydantic 7 answer 2 fresh tied none first_version 1
      (summary_at 3 20) tied_latest tied_update tied_cut refl
