-- ===== src/Samples/Sql.antt =====
-- ORDER BY by insertion sort, and a cast that reads a JSON boolean.
use terrible_naming_conventi.Base.{Option, none, some, Bool}
use terrible_naming_conventi.Models.{Json, bool, obj, field, Text, Postgres}
use terrible_naming_conventi.Sorting.{
  up, down, arrange, arrange-perm, arrange-IsAscending, arrange-IsDescending,
}

-- the flag of an object whose first field is a boolean
unfoldable pub first_flag : Json → Text → Option Bool
first_flag (obj (field k (bool b) fs)) name = some b
first_flag j name = none

abbrev pub postgres : Postgres
postgres = record {
  order_by_asc = λ A key. arrange (up key);
  order_by_desc = λ A key. arrange (down key);
  as_boolean = first_flag;
  accepts_jsonb = λ j. Bool.true;
  asc_perm = λ A key rows. ∣ arrange-perm (up key) rows ∣₁;
  asc_sorted = λ A key rows. arrange-IsAscending key rows;
  desc_perm = λ A key rows. ∣ arrange-perm (down key) rows ∣₁;
  desc_sorted = λ A key rows. arrange-IsDescending key rows;
}
