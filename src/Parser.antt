-- ===== src/Parser.antt =====
-- The text of a file: backend/app/ingestion/parser.py. Decoding UTF-8 and reading the pages of a
-- PDF (PyMuPDF) are parameters.
pub mod Newlines
pub mod Edges
use terrible_naming_conventi.Base.{
  ℕ, zero, suc, Bool, true, false, if◌then◌else◌, List, [], ◌∷◌, ◌++◌, is_space, ◌==◌, codes,
  same_text,
}
use terrible_naming_conventi.Errors.{Result, ok, err, unsupported_file_type, ◌>>=◌}
use terrible_naming_conventi.Models.{FileType, markdown, txt, pdf, Text}

-- a run of newlines, of which two are kept, before the rest
abbrev pub emit : ℕ → Text → Text
emit zero s = s
emit (suc zero) s = 10 ∷ s
emit (suc (suc n)) s = 10 ∷ 10 ∷ s

-- `re.sub(r"\n{3,}", "\n\n", text)`, after a run of newlines
unfoldable pub collapse : ℕ → Text → Text
collapse run [] = emit run []
collapse run (c ∷ s) = elim (c == 10) [
  | true ↦ collapse (suc run) s
  | false ↦ emit run (c ∷ collapse zero s)
]

-- `text.strip()`, first on the left
unfoldable pub lstrip : Text → Text
lstrip [] = []
lstrip (c ∷ s) = elim (is_space c) [ true ↦ lstrip s | false ↦ c ∷ s ]

-- a character before a text that is stripped on the right
unfoldable pub keep : ℕ → Text → Text
keep c [] = elim (is_space c) [ true ↦ [] | false ↦ c ∷ [] ]
keep c (d ∷ s) = c ∷ d ∷ s

unfoldable pub rstrip : Text → Text
rstrip [] = []
rstrip (c ∷ s) = keep c (rstrip s)

unfoldable pub normalize_whitespace : Text → Text
unfolding collapse lstrip rstrip keep
normalize_whitespace text = rstrip (lstrip (collapse zero text))

-- `"\n\n".join(pages)`
abbrev pub join_pages : List Text → Text
join_pages [] = []
join_pages (page ∷ []) = page
join_pages (page ∷ next ∷ pages) = page ++ (10 ∷ 10 ∷ join_pages (next ∷ pages))

-- the values of the enumeration, with which a string compares
abbrev pub file_type_value : FileType → Text
file_type_value markdown = codes "markdown"
file_type_value txt = codes "txt"
file_type_value pdf = codes "pdf"

module _ (decode_utf8 : List ℕ → Result Text) (get_pages : List ℕ → Result (List Text)) where
  abbrev pub extract_pdf_text : List ℕ → Result Text
  extract_pdf_text content = do pages ← get_pages content; ok (join_pages pages)

  abbrev pub text_by_type : List ℕ → Text → Result Text
  text_by_type content file_type =
      if same_text file_type (file_type_value markdown)
      then decode_utf8 content
      else if same_text file_type (file_type_value txt)
      then decode_utf8 content
      else if same_text file_type (file_type_value pdf)
      then extract_pdf_text content
      else err unsupported_file_type

  unfoldable pub parse_file : List ℕ → Text → Result Text
  unfolding normalize_whitespace
  parse_file content file_type = do
    text ← text_by_type content file_type
    ok (normalize_whitespace text)
