-- ===== src/Prompting/Seal.antt =====
-- Sealed text holds no closing marker (backend/app/retrieval/prompting.py).
use terrible_naming_conventi.Base.{
  ℕ, zero, suc, ◌-◌, ◌≡◌, refl, ap, subst, ◌∙◌, Bool, true, false, ◌&&◌, not, [], ◌∷◌, ◌++◌, length,
  arith, ◌==◌, starts_with, occurs, replace_from, replace, Bool-cases, inl, inr, codes,
}
use terrible_naming_conventi.Models.{Text}
use terrible_naming_conventi.Prompting.{state_end, sources_end, state_end_escaped, seal}

-- No character of the text is `a`.
abbrev pub lacks : ℕ → Text → Bool
lacks a [] = true
lacks a (c ∷ s) = not (c == a) && lacks a s

-- Wherever the first marker starts in the text, the second does.
abbrev pub IsAbout : Text → Text → Text → Type 0
IsAbout m p [] = Unit
IsAbout m p (c ∷ s) = (starts_with m (c ∷ s) ≡ true → starts_with p (c ∷ s) ≡ true) × IsAbout m p s

IsAbout-refl : (p s : Text) → IsAbout p p s
IsAbout-refl p [] = tt
IsAbout-refl p (c ∷ s) = ((λ h. h), IsAbout-refl p s)

IsAbout-absent : (m p s : Text) → occurs m s ≡ false → IsAbout m p s
IsAbout-absent m p [] h = tt
IsAbout-absent m p (c ∷ s) h = ((λ t. ground arith), IsAbout-absent m p s (ground arith))

replace_from-hit :
    (p r : Text) (c : ℕ) (s : Text)
    → starts_with p (c ∷ s) ≡ true
    → replace_from p r zero (c ∷ s) ≡ r ++ replace_from p r (length p - 1) s
replace_from-hit p r c s h = rw h refl

replace_from-miss :
    (p r : Text) (c : ℕ) (s : Text)
    → starts_with p (c ∷ s) ≡ false
    → replace_from p r zero (c ∷ s) ≡ c ∷ replace_from p r zero s
replace_from-miss p r c s h = rw h refl

-- A text without the first character of a replacement is read off the result as off the source.
starts_with-replace_from :
    (a : ℕ) (p r q s : Text)
    → lacks a q ≡ true
    → starts_with q (replace_from (a ∷ p) (a ∷ r) zero s) ≡ true
    → starts_with q s ≡ true
starts_with-replace_from a p r [] s l h = refl
starts_with-replace_from a p r (d ∷ q) [] l h = h
starts_with-replace_from a p r (d ∷ q) (c ∷ s) l h =
    elim (Bool-cases (starts_with (a ∷ p) (c ∷ s))) [
      | inl t ↦ ground arith
      | inr t ↦
          let kept : starts_with (d ∷ q) (c ∷ replace_from (a ∷ p) (a ∷ r) zero s) ≡ true =
            subst (λ x. starts_with (d ∷ q) x ≡ true) (replace_from-miss (a ∷ p) (a ∷ r) c s t) h in
          ground (arith, starts_with-replace_from a p r q s)
    ]

-- An inserted text without the first character of the marker adds no occurrence.
occurs-append :
    (a : ℕ) (m x y : Text) → lacks a x ≡ true → occurs (a ∷ m) (x ++ y) ≡ occurs (a ∷ m) y
occurs-append a m [] y l = refl
occurs-append a m (c ∷ x) y l = ground (arith, occurs-append a m x y)

cut :
    (a b d : ℕ) (m r x : Text)
    → (b == d) ≡ false
    → occurs (a ∷ d ∷ m) (a ∷ b ∷ (r ++ x)) ≡ occurs (a ∷ d ∷ m) (b ∷ (r ++ x))
cut a b d m r x ne = ground arith

-- Replacing `a p` by `a b r` leaves no occurrence of a marker `a d m` that starts only where the
-- replaced one does, where `b` is not `d` and neither `p`, `r` nor `m` holds `a`.
occurs-replace_from :
    (a b d : ℕ) (p r m s : Text) (skip : ℕ)
    → lacks a (b ∷ r) ≡ true
    → lacks a (d ∷ m) ≡ true
    → (b == d) ≡ false
    → IsAbout (a ∷ d ∷ m) (a ∷ p) s
    → occurs (a ∷ d ∷ m) (replace_from (a ∷ p) (a ∷ b ∷ r) skip s) ≡ false
occurs-replace_from a b d p r m [] skip lr lm ne h = refl
occurs-replace_from a b d p r m (c ∷ s) (suc skip) lr lm ne h =
    occurs-replace_from a b d p r m s skip lr lm ne h.1
occurs-replace_from a b d p r m (c ∷ s) zero lr lm ne h =
    elim (Bool-cases (starts_with (a ∷ p) (c ∷ s))) [
      | inl t ↦
          ap (λ x. occurs (a ∷ d ∷ m) x) (replace_from-hit (a ∷ p) (a ∷ b ∷ r) c s t)
          ∙ cut a b d m r (replace_from (a ∷ p) (a ∷ b ∷ r) (length (a ∷ p) - 1) s) ne
          ∙ occurs-append a (d ∷ m) (b ∷ r)
              (replace_from (a ∷ p) (a ∷ b ∷ r) (length (a ∷ p) - 1) s) lr
          ∙ occurs-replace_from a b d p r m s (length (a ∷ p) - 1) lr lm ne h.1
      | inr t ↦
          let absent : starts_with (a ∷ d ∷ m) (c ∷ s) ≡ false = ground arith in
          ap (λ x. occurs (a ∷ d ∷ m) x) (replace_from-miss (a ∷ p) (a ∷ b ∷ r) c s t)
          ∙ ground (
            arith,
            starts_with-replace_from a p (b ∷ r) (d ∷ m) s lm,
            occurs-replace_from a b d p r m s zero lr lm ne h.1,
          )
    ]

-- Sealed text, whatever it was, contains neither `</project_state>` nor `</sources>`, so it cannot
-- end the region of the prompt that it stands in.
pub seal_no_marker :
    (text : Text)
    → (occurs state_end (seal text) ≡ false) × (occurs sources_end (seal text) ≡ false)
unfolding seal
seal_no_marker text =
    let first : occurs state_end (replace state_end state_end_escaped text) ≡ false =
      occurs-replace_from 60 92 47 (codes "/project_state>") (codes "/project_state>")
        (codes "project_state>") text zero refl refl refl (IsAbout-refl state_end text) in
    let sealed = replace state_end state_end_escaped text in
    (
      occurs-replace_from 60 92 47 (codes "/sources>") (codes "/sources>") (codes "project_state>")
          sealed zero refl refl refl (IsAbout-absent state_end sources_end sealed first),
      occurs-replace_from 60 92 47 (codes "/sources>") (codes "/sources>") (codes "sources>") sealed
          zero refl refl refl (IsAbout-refl sources_end sealed),
    )
