-- ===== src/Base/Changes.antt =====
-- Changing the rows that pass a test, as an assignment to the row with a key does.
use mathlib.Core.Path.{◌≡◌, refl, sym, ap, ◌∙◌, subst}
use mathlib.Core.Bool.{Bool, true}
use mathlib.Core.List.{List, [], ◌∷◌, ◌++◌}
use native.Mathlib.Omega.{arith}
use mathlib.Core.Logic.{inl, inr}
use mathlib.Core.Option.{none, some}
use terrible_naming_conventi.Base.Tests.{if◌then◌else◌, Bool-cases}
use terrible_naming_conventi.Base.Lists.{find, count}

pub some-injective : {A : Type 0} {x y : A} → some x ≡ some y → x ≡ y
some-injective h = cc

pub find-passes :
    {A : Type 0} (p : A → Bool) (xs : List A) {x : A} → find p xs ≡ some x → p x ≡ true
find-passes p [] h = cc
find-passes p (y ∷ ys) {x} h = elim (Bool-cases (p y)) [
  | inl t ↦
      let found : find p (y ∷ ys) ≡ some y = rw t refl in
      let same : y ≡ x = some-injective (sym found ∙ h) in subst (λ z. p z ≡ true) same t
  | inr t ↦ let later : find p (y ∷ ys) ≡ find p ys = rw t refl in find-passes p ys (sym later ∙ h)
]

abbrev pub change_where : {A : Type 0} → (A → Bool) → (A → A) → List A → List A
change_where p change [] = []
change_where p change (x ∷ xs) = (if p x then change x else x) ∷ change_where p change xs

-- The changed row is found where the row was, if the change keeps the test.
pub find-change_where :
    {A : Type 0} (p : A → Bool) (change : A → A) (xs : List A) {x : A}
    → ((y : A) → p (change y) ≡ p y)
    → find p xs ≡ some x
    → find p (change_where p change xs) ≡ some (change x)
find-change_where p change [] keeps h = cc
find-change_where p change (y ∷ ys) {x} keeps h = elim (Bool-cases (p y)) [
  | inl t ↦
      let found : find p (y ∷ ys) ≡ some y = rw t refl in
      let same : y ≡ x = some-injective (sym found ∙ h) in
      let first : change_where p change (y ∷ ys) ≡ change y ∷ change_where p change ys =
        rw t refl in
      let here : find p (change y ∷ change_where p change ys) ≡ some (change y) =
        rw (keeps y ∙ t) refl in
      ap (λ l. find p l) first ∙ here ∙ ap (λ z. some (change z)) same
  | inr t ↦
      let later : find p (y ∷ ys) ≡ find p ys = rw t refl in
      let first : change_where p change (y ∷ ys) ≡ y ∷ change_where p change ys = rw t refl in
      let past : find p (y ∷ change_where p change ys) ≡ find p (change_where p change ys) =
        rw t refl in
      ap (λ l. find p l) first ∙ past ∙ find-change_where p change ys keeps (sym later ∙ h)
]

pub find-none : {A : Type 0} (p : A → Bool) (xs : List A) → find p xs ≡ none → count p xs ≡ 0
find-none p [] h = refl
find-none p (x ∷ xs) h = ground (arith, find-none p xs)

pub find-append :
    {A : Type 0} (p : A → Bool) (xs : List A) (y : A)
    → find p xs ≡ none
    → p y ≡ true
    → find p (xs ++ y ∷ []) ≡ some y
find-append p [] y h t = ground (arith, t)
find-append p (x ∷ xs) y h t = ground (arith, find-append p xs y, t)
