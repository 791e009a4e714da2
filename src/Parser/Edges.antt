-- ===== src/Parser/Edges.antt =====
-- Stripping the edges of a text (backend/app/ingestion/parser.py).
use terrible_naming_conventi.Base.{
  ℕ, ◌≡◌, refl, ap, ◌∙◌, Bool, false, ◌⊎◌, inl, inr, [], ◌∷◌, is_space, Bool-cases,
}
use terrible_naming_conventi.Models.{Text}
use terrible_naming_conventi.Parser.{lstrip, keep, rstrip}

pub keep-cases : (c : ℕ) (r : Text) → (keep c r ≡ []) ⊎ (keep c r ≡ c ∷ r)
unfolding keep
keep-cases c [] = elim (Bool-cases (is_space c)) [
  | inl t ↦ inl (rw (keep, t) refl)
  | inr t ↦ inr (rw (keep, t) refl)
]
keep-cases c (d ∷ s) = inr refl

-- The text begins with whitespace.
starts_blank : Text → Bool
starts_blank [] = false
starts_blank (c ∷ s) = is_space c

lstrip-starts_blank : (s : Text) → starts_blank (lstrip s) ≡ false
unfolding lstrip starts_blank
lstrip-starts_blank [] = refl
lstrip-starts_blank (c ∷ s) = elim (Bool-cases (is_space c)) [
  | inl t ↦ rw (lstrip, t) (lstrip-starts_blank s)
  | inr t ↦ rw (lstrip, t) t
]

rstrip-starts_blank : (s : Text) → starts_blank s ≡ false → starts_blank (rstrip s) ≡ false
unfolding rstrip starts_blank
rstrip-starts_blank [] h = refl
rstrip-starts_blank (c ∷ s) h = elim (keep-cases c (rstrip s)) [
  | inl t ↦ rw (rstrip, t) refl
  | inr t ↦ rw (rstrip, t) h
]

lstrip_idle : (s : Text) → starts_blank s ≡ false → lstrip s ≡ s
unfolding lstrip starts_blank
lstrip_idle [] h = refl
lstrip_idle (c ∷ s) h = rw (lstrip, h) refl

rstrip-keep : (c : ℕ) (r : Text) → rstrip r ≡ r → rstrip (keep c r) ≡ keep c r
unfolding rstrip keep
rstrip-keep c [] h = elim (Bool-cases (is_space c)) [
  | inl t ↦ rw (keep, t) refl
  | inr t ↦ rw (keep, t) (rw (keep, t) refl)
]
rstrip-keep c (d ∷ s) h = ap (keep c) h

rstrip-rstrip : (s : Text) → rstrip (rstrip s) ≡ rstrip s
unfolding rstrip
rstrip-rstrip [] = refl
rstrip-rstrip (c ∷ s) = rstrip-keep c (rstrip s) (rstrip-rstrip s)

-- Stripping a stripped text leaves it.
pub strip-strip : (s : Text) → rstrip (lstrip (rstrip (lstrip s))) ≡ rstrip (lstrip s)
strip-strip s =
    ap rstrip
      (lstrip_idle (rstrip (lstrip s)) (rstrip-starts_blank (lstrip s) (lstrip-starts_blank s)))
    ∙ rstrip-rstrip (lstrip s)
