-- ===== src/Chunks.antt =====
-- Cutting a text into chunks: backend/app/ingestion/chunker.py.
pub mod Windows
use terrible_naming_conventi.Base.{
  ℕ, zero, suc, ◌+◌, ◌-◌, Option, none, some, Bool, true, false, List, [], ◌∷◌, ◌++◌, is_blank,
  is_space, ltb, leb, take, drop, length, if◌then◌else◌, codes,
}
use terrible_naming_conventi.Errors.{Error, Result, ok, err, not_implemented}
use terrible_naming_conventi.Models.{Text}

pub data ChunkingStrategy : Type 0 where
  naive contextual late : ChunkingStrategy

-- The metadata is empty when a chunk is made.
pub record Chunk : Type 0 where
  pub text : Text
  pub index : ℕ

-- `text.split()`: the words between runs of whitespace; `word` is the word that is being read.
abbrev pub end_word : Text → List Text → List Text
end_word [] words = words
end_word (c ∷ word) words = (c ∷ word) ∷ words

abbrev pub split_from : Text → Text → List Text
split_from word [] = end_word word []
split_from word (c ∷ s) =
    if is_space c then end_word word (split_from [] s) else split_from (word ++ c ∷ []) s

-- `" ".join(words)`
abbrev pub join_words : List Text → Text
join_words [] = []
join_words (w ∷ []) = w
join_words (w ∷ v ∷ vs) = w ++ 32 ∷ join_words (v ∷ vs)

-- The while loop on at most `fuel` windows; none is a loop that still runs.
unfoldable pub windows : ℕ → ℕ → ℕ → ℕ → ℕ → List Text → Option (List Chunk)
windows zero chunk_size step start index words = if ltb start (length words) then none else some []
windows (suc fuel) chunk_size step start index words =
    let rest = windows fuel chunk_size step (start + step) (suc index) words in
    if ltb start (length words)
    then elim rest [
      | none ↦ none
      | some chunks ↦ some (
          record { text = join_words (take chunk_size (drop start words)); index = index } ∷ chunks)
    ]
    else some []

-- `_naive_chunk`. The step `chunk_size - overlap` stops at 0 here: a negative step of the source
-- makes `start` smaller in each round, so that the loop runs for ever as it does with the step 0.
unfoldable pub naive_chunk : ℕ → Text → ℕ → ℕ → Option (List Chunk)
unfolding windows
naive_chunk fuel text chunk_size overlap =
    let words = split_from [] text in
    if is_blank text
    then some []
    else if leb (length words) chunk_size
    then some (record { text = text; index = 0 } ∷ [])
    else windows fuel chunk_size (chunk_size - overlap) 0 0 words

unfoldable pub chunk_text : ℕ → Text → ChunkingStrategy → ℕ → ℕ → Option (Result (List Chunk))
unfolding naive_chunk
chunk_text fuel text contextual chunk_size overlap = some (err not_implemented)
chunk_text fuel text late chunk_size overlap = some (err not_implemented)
chunk_text fuel text naive chunk_size overlap = elim (naive_chunk fuel text chunk_size overlap) [
  | none ↦ none
  | some chunks ↦ some (ok chunks)
]
