-- ===== src/Parser/Newlines.antt =====
-- What the whitespace of a parsed text is (backend/app/ingestion/parser.py).
use terrible_naming_conventi.Base.{
  ℕ, zero, suc, ◌≡◌, refl, ap, ◌∙◌, subst, is_space, Bool, true, false, ◌&&◌, List, [], ◌∷◌, arith,
  ltb, ◌==◌, occurs, codes, Bool-cases, inl, inr,
}
use terrible_naming_conventi.Errors.{Result, ok, >>=-inverse, ok-injective}
use terrible_naming_conventi.Models.{Text}
use terrible_naming_conventi.Parser.{
  emit, collapse, lstrip, rstrip, normalize_whitespace, text_by_type, parse_file,
}
use terrible_naming_conventi.Parser.Edges.{keep-cases, strip-strip}

-- After a run of newlines the text has no third newline in a row.
calm : ℕ → Text → Bool
calm run [] = true
calm run (c ∷ s) = elim (c == 10) [ true ↦ ltb run 2 && calm (suc run) s | false ↦ calm zero s ]

calm_less : (run : ℕ) (s : Text) → calm (suc run) s ≡ true → calm run s ≡ true
unfolding calm
calm_less run [] h = refl
calm_less run (c ∷ s) h = ground (arith, calm_less (suc run) s)

calm-emit :
    (run c : ℕ) (s : Text)
    → (c == 10) ≡ false
    → calm zero s ≡ true
    → calm zero (emit run (c ∷ s)) ≡ true
unfolding calm
calm-emit zero c s ne h = ground arith
calm-emit (suc zero) c s ne h = ground arith
calm-emit (suc (suc n)) c s ne h = ground arith

calm_end : (run : ℕ) → calm zero (emit run []) ≡ true
unfolding calm
calm_end zero = refl
calm_end (suc zero) = refl
calm_end (suc (suc n)) = refl

calm-collapse : (run : ℕ) (s : Text) → calm zero (collapse run s) ≡ true
unfolding collapse
calm-collapse run [] = calm_end run
calm-collapse run (c ∷ s) = elim (Bool-cases (c == 10)) [
  | inl t ↦ rw (collapse, t) (calm-collapse (suc run) s)
  | inr t ↦ rw (collapse, t) (calm-emit run c (collapse zero s) t (calm-collapse zero s))
]

calm_tail : (c : ℕ) (s : Text) → calm zero (c ∷ s) ≡ true → calm zero s ≡ true
unfolding calm
calm_tail c s h = ground (arith, calm_less zero s)

calm-lstrip : (s : Text) → calm zero s ≡ true → calm zero (lstrip s) ≡ true
unfolding lstrip
calm-lstrip [] h = h
calm-lstrip (c ∷ s) h = elim (Bool-cases (is_space c)) [
  | inl t ↦ rw (lstrip, t) (calm-lstrip s (calm_tail c s h))
  | inr t ↦ rw (lstrip, t) h
]

calm-rstrip : (run : ℕ) (s : Text) → calm run s ≡ true → calm run (rstrip s) ≡ true
unfolding rstrip calm
calm-rstrip run [] h = refl
calm-rstrip run (c ∷ s) h = elim (keep-cases c (rstrip s)) [
  | inl t ↦ rw (rstrip, t) refl
  | inr t ↦ rw (rstrip, t) (ground (arith, calm-rstrip (suc run) s, calm-rstrip zero s))
]

calm-normalize_whitespace : (s : Text) → calm zero (normalize_whitespace s) ≡ true
unfolding normalize_whitespace
calm-normalize_whitespace s =
    calm-rstrip zero (lstrip (collapse zero s))
      (calm-lstrip (collapse zero s) (calm-collapse zero s))

-- A text with no third newline in a row has no three newlines in it.
calm-occurs : (s : Text) → calm zero s ≡ true → occurs (codes "\n\n\n") s ≡ false
unfolding calm
calm-occurs [] h = refl
calm-occurs (c ∷ []) h = ground arith
calm-occurs (c ∷ d ∷ []) h = ground (arith, calm-occurs (d ∷ []) (calm_tail c (d ∷ []) h))
calm-occurs (c ∷ d ∷ e ∷ s) h = ground (arith, calm-occurs (d ∷ e ∷ s) (calm_tail c (d ∷ e ∷ s) h))

collapse_newline : (run : ℕ) (s : Text) → ltb run 2 ≡ true → emit (suc run) s ≡ emit run (10 ∷ s)
collapse_newline zero s h = refl
collapse_newline (suc zero) s h = refl
collapse_newline (suc (suc n)) s h = absurd (ground arith)

collapse_idle : (run : ℕ) (s : Text) → calm run s ≡ true → collapse run s ≡ emit run s
unfolding collapse calm
collapse_idle run [] h = refl
collapse_idle run (c ∷ s) h = elim (Bool-cases (c == 10)) [
  | inl t ↦
      rw (collapse, t)
        (collapse_idle (suc run) s (ground arith)
          ∙ collapse_newline run s (ground arith)
          ∙ ap (λ d. emit run (d ∷ s)) (ground arith))
  | inr t ↦
      rw (collapse, t)
        (ap (λ r. emit run (c ∷ r)) (collapse_idle zero s (ground (arith, calm_tail c s))))
]

normalize_whitespace-normalize_whitespace :
    (s : Text) → normalize_whitespace (normalize_whitespace s) ≡ normalize_whitespace s
unfolding normalize_whitespace
normalize_whitespace-normalize_whitespace s =
    ap (λ t. rstrip (lstrip t))
      (collapse_idle zero (normalize_whitespace s) (calm-normalize_whitespace s))
    ∙ strip-strip (collapse zero s)

module _ (decode_utf8 : List ℕ → Result Text) (get_pages : List ℕ → Result (List Text)) where
  -- A parsed text has no three newlines in a row, and normalising it again leaves it.
  pub parse_file-IsNormal :
      (content : List ℕ) (file_type : Text) {text : Text}
      → parse_file decode_utf8 get_pages content file_type ≡ ok text
      → (occurs (codes "\n\n\n") text ≡ false) × (normalize_whitespace text ≡ text)
  unfolding parse_file
  parse_file-IsNormal content file_type h =
      let (raw, read, returned) =
        >>=-inverse (text_by_type decode_utf8 get_pages content file_type)
          (λ t. ok (normalize_whitespace t)) h in
      subst (λ t. (occurs (codes "\n\n\n") t ≡ false) × (normalize_whitespace t ≡ t))
        (ok-injective returned)
        (
          calm-occurs (normalize_whitespace raw) (calm-normalize_whitespace raw),
          normalize_whitespace-normalize_whitespace raw,
        )
