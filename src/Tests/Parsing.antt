-- ===== src/Tests/Parsing.antt =====
-- A Markdown file that is parsed (backend/app/ingestion/parser.py).
use terrible_naming_conventi.Base.{ℕ, ◌≡◌, refl, false, List, [], ◌∷◌, occurs, codes}
use terrible_naming_conventi.Errors.{Result, ok, err, unsupported_file_type}
use terrible_naming_conventi.Models.{Text}
use terrible_naming_conventi.Parser.{normalize_whitespace, parse_file}
use terrible_naming_conventi.Parser.Newlines.{parse_file-IsNormal}

-- bytes that are all ASCII, and a PDF of two pages
abbrev decode : List ℕ → Result Text
decode content = ok content

abbrev pages : List ℕ → Result (List Text)
pages content = ok (codes "one" ∷ codes "\ntwo\n" ∷ [])

abbrev content : Text
content = codes "\n# A\n\n \n\n\n\nB \n\n\n"

abbrev parsed : Text
parsed = codes "# A\n\n \n\nB"

parse_file_runs : parse_file decode pages content (codes "markdown") ≡ ok parsed
unfolding parse_file
parse_file_runs = refl

parse_file_two_pages : parse_file decode pages content (codes "pdf") ≡ ok (codes "one\n\ntwo")
unfolding parse_file
parse_file_two_pages = refl

parse_file_other : parse_file decode pages content (codes "docx") ≡ err unsupported_file_type
unfolding parse_file
parse_file_other = refl

parse_file-IsNormal_example :
    (occurs (codes "\n\n\n") parsed ≡ false) × (normalize_whitespace parsed ≡ parsed)
parse_file-IsNormal_example =
    parse_file-IsNormal decode pages content (codes "markdown") parse_file_runs
