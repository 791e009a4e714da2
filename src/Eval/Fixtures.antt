-- ===== src/Eval/Fixtures.antt =====
-- The documents of the evaluation: eval/fixtures.py. Reading files is not modelled.
use terrible_naming_conventi.Base.{Option, none, some, List, [], ◌∷◌, same_text, if◌then◌else◌}
use terrible_naming_conventi.Errors.{Result, ok, ◌>>=◌, or_raise, value_error}
use terrible_naming_conventi.Models.{Text}

pub record FixtureDoc : Type 0 where
  pub id : Text
  pub filename : Text
  pub text : Text

-- `by_id.get(doc_id)`: the last document with an id is kept
unfoldable pub text_of : List FixtureDoc → Text → Option Text
text_of [] doc_id = none
text_of (doc ∷ docs) doc_id = elim (text_of docs doc_id) [
  | some t ↦ some t
  | none ↦ if same_text doc.id doc_id then some doc.text else none
]

unfoldable pub corpus_text_for : List FixtureDoc → List Text → Result (List Text)
unfolding text_of
corpus_text_for corpus [] = ok []
corpus_text_for corpus (doc_id ∷ doc_ids) = do
  text ← or_raise (text_of corpus doc_id) value_error
  texts ← corpus_text_for corpus doc_ids
  ok (text ∷ texts)
