-- ===== src/Sorting.antt =====
-- Stable sorting by insertion: `list.sort`, where equal keys keep their order.
use terrible_naming_conventi.Base.{
  ℕ, zero, suc, take, ◌≤◌, refl, Bool, List, [], ◌∷◌, All, arith, leb, if◌then◌else◌, Bool-cases,
  inl, inr, All-map,
}
use mathlib.Core.List.{Permᴰ}
use terrible_naming_conventi.Models.{IsAscending, IsDescending}

Permᴰ-refl : {A : Type 0} (xs : List A) → Permᴰ xs xs
Permᴰ-refl [] = Permᴰ.nil
Permᴰ-refl (x ∷ xs) = Permᴰ.cons refl (Permᴰ-refl xs)

module _ {A : Type 0} (before : A → A → Bool) where
  unfoldable pub insert_row : A → List A → List A
  insert_row x [] = x ∷ []
  insert_row x (y ∷ ys) = if before x y then x ∷ y ∷ ys else y ∷ insert_row x ys

  unfoldable pub arrange : List A → List A
  unfolding insert_row
  arrange [] = []
  arrange (x ∷ xs) = insert_row x (arrange xs)

  insert_row-perm : (x : A) (ys : List A) → Permᴰ (insert_row x ys) (x ∷ ys)
  unfolding insert_row
  insert_row-perm x [] = Permᴰ-refl (x ∷ [])
  insert_row-perm x (y ∷ ys) = elim (Bool-cases (before x y)) [
    | inl t ↦ rw t (Permᴰ-refl (x ∷ y ∷ ys))
    | inr t ↦ rw t (Permᴰ.trans (Permᴰ.cons refl (insert_row-perm x ys)) (Permᴰ.swap refl refl))
  ]

  pub arrange-perm : (xs : List A) → Permᴰ (arrange xs) xs
  unfolding arrange
  arrange-perm [] = Permᴰ.nil
  arrange-perm (x ∷ xs) =
      Permᴰ.trans (insert_row-perm x (arrange xs)) (Permᴰ.cons refl (arrange-perm xs))

module _ {A : Type 0} (key : A → ℕ) where
  abbrev pub up : A → A → Bool
  up x y = leb (key x) (key y)

  abbrev pub down : A → A → Bool
  down x y = leb (key y) (key x)

  insert_up :
      (x : A) (n : ℕ) (ys : List A)
      → All (λ y. n ≤ key y) ys
      → n ≤ key x
      → All (λ y. n ≤ key y) (insert_row up x ys)
  unfolding insert_row
  insert_up x n [] a h = (h, tt)
  insert_up x n (y ∷ ys) a h = ground (arith, insert_up x n ys a.1 h)

  insert_down :
      (x : A) (n : ℕ) (ys : List A)
      → All (λ y. key y ≤ n) ys
      → key x ≤ n
      → All (λ y. key y ≤ n) (insert_row down x ys)
  unfolding insert_row
  insert_down x n [] a h = (h, tt)
  insert_down x n (y ∷ ys) a h = ground (arith, insert_down x n ys a.1 h)

  insert_row-IsAscending :
      (x : A) (ys : List A) → IsAscending key ys → IsAscending key (insert_row up x ys)
  unfolding insert_row
  insert_row-IsAscending x [] s = (tt, tt)
  insert_row-IsAscending x (y ∷ ys) s = elim (Bool-cases (up x y)) [
    | inl t ↦
        let le : key x ≤ key y = ground arith in
        rw t
          ((le, All-map (λ z. key y ≤ key z) (λ z. key x ≤ key z) ys (λ z h. omega arith) s.0), s)
    | inr t ↦ rw t (insert_up x (key y) ys s.0 (ground arith), insert_row-IsAscending x ys s.1)
  ]

  insert_row-IsDescending :
      (x : A) (ys : List A) → IsDescending key ys → IsDescending key (insert_row down x ys)
  unfolding insert_row
  insert_row-IsDescending x [] s = (tt, tt)
  insert_row-IsDescending x (y ∷ ys) s = elim (Bool-cases (down x y)) [
    | inl t ↦
        let le : key y ≤ key x = ground arith in
        rw t
          ((le, All-map (λ z. key z ≤ key y) (λ z. key z ≤ key x) ys (λ z h. omega arith) s.0), s)
    | inr t ↦ rw t (insert_down x (key y) ys s.0 (ground arith), insert_row-IsDescending x ys s.1)
  ]

  pub arrange-IsAscending : (xs : List A) → IsAscending key (arrange up xs)
  unfolding arrange
  arrange-IsAscending [] = tt
  arrange-IsAscending (x ∷ xs) = insert_row-IsAscending x (arrange up xs) (arrange-IsAscending xs)

  pub arrange-IsDescending : (xs : List A) → IsDescending key (arrange down xs)
  unfolding arrange
  arrange-IsDescending [] = tt
  arrange-IsDescending (x ∷ xs) =
      insert_row-IsDescending x (arrange down xs) (arrange-IsDescending xs)

module _ {A : Type 0} where
  pub All-take : (P : A → Type 0) (n : ℕ) (xs : List A) → All P xs → All P (take n xs)
  All-take P zero xs a = tt
  All-take P (suc n) [] a = tt
  All-take P (suc n) (x ∷ xs) a = (a.0, All-take P n xs a.1)

  pub take-IsDescending :
      (key : A → ℕ) (n : ℕ) (xs : List A) → IsDescending key xs → IsDescending key (take n xs)
  take-IsDescending key zero xs s = tt
  take-IsDescending key (suc n) [] s = tt
  take-IsDescending key (suc n) (x ∷ xs) s =
      (All-take (λ y. key y ≤ key x) n xs s.0, take-IsDescending key n xs s.1)
