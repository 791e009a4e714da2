-- ===== src/Tests/Jobs.antt =====
-- A rebuild job (backend/app/workers/cag.py) of a project with three summaries, with a model that
-- answers with the text it is shown.
use terrible_naming_conventi.Base.{ℕ, ◌≡◌, refl, none, some, [], codes, List}
use terrible_naming_conventi.Errors.{ok}
use terrible_naming_conventi.Models.{DocumentSummary, Text}
use terrible_naming_conventi.Schema.{BeliefStateContent}
use terrible_naming_conventi.Samples.Sql.{postgres, first_flag}
use terrible_naming_conventi.Samples.Codec.{pydantic}
use terrible_naming_conventi.Samples.Echo.{
  echo, letters, printing, reply, digest-IsFaithful, merge-IsFaithful,
}
use terrible_naming_conventi.Sorting.{arrange}
use terrible_naming_conventi.Cag.{
  Mode, rebuild, rebuild_row, rebuild_start, rebuild_from, get_latest, get_all_summaries,
  get_window_since, first_record, to_record, not_fallback, next_version,
}
use terrible_naming_conventi.CagPrompts.{format_summary, format_batch_digest_prompt}
use terrible_naming_conventi.Reduce.{hierarchical_reduce, fold_batches, batches}
use terrible_naming_conventi.Reduce.Prompt.{synthesize_prompt, attempts, read_answer}
use terrible_naming_conventi.Jobs.{Drift, mode_of, cag_rebuild}
use terrible_naming_conventi.Jobs.Fold.{digest, rebuild_fn}
use terrible_naming_conventi.Jobs.Covers.{IsFolded, cag_rebuild_covers}
use terrible_naming_conventi.Tests.Belief.{fresh}
use terrible_naming_conventi.Tests.Updates.{busy}

abbrev same : Text → Text
same t = t

abbrev first_drift : Drift
first_drift = record {
  previous_version = none;
  current_version = 1;
  decisions = (0, 0);
  open_items = (0, 0);
}

abbrev printed : DocumentSummary → List ℕ
printed s = letters (format_summary printing pydantic [] s)

abbrev told : BeliefStateContent → List ℕ
told c = letters c.project_summary

rebuilt :
    (cag_rebuild postgres pydantic same (codes "m") echo 7 (codes "genesis") fresh 0 busy).0
    ≡ ok (some first_drift)
unfolding cag_rebuild mode_of rebuild rebuild_row rebuild_start rebuild_from get_latest
    get_all_summaries get_window_since first_record to_record not_fallback first_flag arrange
    next_version rebuild_fn hierarchical_reduce fold_batches batches digest synthesize_prompt
    attempts read_answer reply format_batch_digest_prompt format_summary
rebuilt = refl

cag_rebuild_covers_example :
    (m : Mode) × (mode_of (codes "genesis") ≡ ok m)
    × IsFolded postgres pydantic same
        (codes "m")
        echo
        printed
        told
        7
        m
        busy
        (cag_rebuild postgres pydantic same (codes "m") echo 7 (codes "genesis") fresh 0 busy).1
cag_rebuild_covers_example =
    cag_rebuild_covers postgres pydantic same (codes "m") echo printed told 7 (codes "genesis")
      fresh 0 busy refl (digest-IsFaithful (codes "m") []) (merge-IsFaithful (codes "m") []) rebuilt
