-- ===== src/Chunks/Windows.antt =====
-- Which chunks the loop makes, and when it ends (backend/app/ingestion/chunker.py).
use terrible_naming_conventi.Base.{
  ℕ, zero, suc, ◌+◌, ◌-◌, ◌*◌, ◌≤◌, ◌<◌, ◌≡◌, refl, ap, ◌∙◌, Option, none, some, true, false,
  Bool-cases, inl, inr, List, [], ◌∷◌, ltb, leb, take, drop, length, get_elem?, if◌then◌else◌,
  arith, is_blank,
}
use terrible_naming_conventi.Models.{Text}
use terrible_naming_conventi.Chunks.{Chunk, join_words, split_from, windows, naive_chunk}

-- The chunk that starts at the word `at`, if there is such a word.
abbrev pub chunk_at : ℕ → List Text → ℕ → ℕ → Option Chunk
chunk_at chunk_size words at index =
    if ltb at (length words)
    then some (record { text = join_words (take chunk_size (drop at words)); index = index })
    else none

-- The loop has ended, and its k-th chunk is the one that starts k steps after the start.
abbrev pub IsCut : ℕ → ℕ → ℕ → ℕ → List Text → Option (List Chunk) → Type 0
IsCut chunk_size step start index words none = ⊥
IsCut chunk_size step start index words (some chunks) =
    (k : ℕ) → get_elem? chunks k ≡ chunk_at chunk_size words (start + k * step) (index + k)

IsCut-end :
    (size step start index : ℕ) (words : List Text)
    → ltb start (length words) ≡ false
    → IsCut size step start index words (some [])
IsCut-end size step start index words h k =
    let past : ltb (start + k * step) (length words) ≡ false = ground arith in rw past refl

IsCut-more :
    (size step start index : ℕ) (words : List Text) (rest : Option (List Chunk))
    → ltb start (length words) ≡ true
    → IsCut size step (start + step) (suc index) words rest
    → IsCut size step start index words (elim rest [
      | none ↦ none
      | some chunks ↦
          some (record { text = join_words (take size (drop start words)); index = index } ∷ chunks)
    ])
IsCut-more size step start index words none h c = c
IsCut-more size step start index words (some chunks) h c = later
  where
    later :
        (k : ℕ)
        → get_elem?
            (record { text = join_words (take size (drop start words)); index = index } ∷ chunks)
            k
          ≡ chunk_at size words (start + k * step) (index + k)
    later zero =
        let at_start : start + 0 * step ≡ start = omega arith in
        let at_index : index + 0 ≡ index = omega arith in rw (at_start, at_index, h) refl
    later (suc k) =
        let at_next : start + step + k * step ≡ start + suc k * step = omega arith in
        let at_index : suc index + k ≡ index + suc k = omega arith in
        c k
        ∙ ap (λ n. chunk_at size words n (suc index + k)) at_next
        ∙ ap (λ i. chunk_at size words (start + suc k * step) i) at_index

windows-IsCut :
    (fuel size step start index : ℕ) (words : List Text)
    → 0 < step
    → length words ≤ start + fuel
    → IsCut size step start index words (windows fuel size step start index words)
unfolding windows
windows-IsCut zero size step start index words pos enough =
    let h : ltb start (length words) ≡ false = ground arith in
    rw h (IsCut-end size step start index words h)
windows-IsCut (suc fuel) size step start index words pos enough =
    elim (Bool-cases (ltb start (length words))) [
      | inl more ↦ rw more (
          IsCut-more size step start index words
            (windows fuel size step (start + step) (suc index) words) more
            (windows-IsCut fuel size step (start + step) (suc index) words pos (omega arith)))
      | inr done ↦ rw done (IsCut-end size step start index words done)
    ]

-- Where the overlap is less than the chunk size, the loop ends within as many windows as there are
-- words: a text with more words than the chunk size is cut into the windows of that size that start
-- at the words 0, step, 2 step, ... with step the chunk size less the overlap, numbered from 0 and
-- with none left out, up to the last word.
pub naive_chunk-IsCut :
    (text : Text) (chunk_size overlap : ℕ)
    → overlap < chunk_size
    → is_blank text ≡ false
    → chunk_size < length (split_from [] text)
    → IsCut chunk_size
        (chunk_size - overlap)
        0
        0
        (split_from [] text)
        (naive_chunk (length (split_from [] text)) text chunk_size overlap)
unfolding naive_chunk
naive_chunk-IsCut text chunk_size overlap h printed long =
    let words = split_from [] text in
    let more : leb (length words) chunk_size ≡ false = ground arith in
    rw (printed, more)
      (windows-IsCut (length words) chunk_size (chunk_size - overlap) 0 0 words (omega arith)
        (omega arith))

windows_never :
    (fuel size start index : ℕ) (words : List Text)
    → start < length words
    → windows fuel size 0 start index words ≡ none
unfolding windows
windows_never zero size start index words h =
    let more : ltb start (length words) ≡ true = ground arith in rw more refl
windows_never (suc fuel) size start index words h =
    let more : ltb start (length words) ≡ true = ground arith in
    let same : start + 0 ≡ start = omega arith in
    rw (more, same, windows_never fuel size start (suc index) words h) refl

-- Where the overlap is at least the chunk size, a text with more words than the chunk size is never
-- cut: the loop runs for ever.
pub naive_chunk_never :
    (fuel : ℕ) (text : Text) (chunk_size overlap : ℕ)
    → chunk_size ≤ overlap
    → is_blank text ≡ false
    → chunk_size < length (split_from [] text)
    → naive_chunk fuel text chunk_size overlap ≡ none
unfolding naive_chunk
naive_chunk_never fuel text chunk_size overlap h printed long =
    let words = split_from [] text in
    let more : leb (length words) chunk_size ≡ false = ground arith in
    let step : chunk_size - overlap ≡ 0 = omega arith in
    rw (printed, more, step) (windows_never fuel chunk_size 0 0 words (omega arith))
