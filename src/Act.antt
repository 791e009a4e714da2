-- ===== src/Act.antt =====
-- Awaited calls of the outside: an action may raise, and it leaves the world `W` (the language
-- model, the queue, the vector store, ...) changed, also where it raises.
use terrible_naming_conventi.Base.{◌≡◌, refl, subst, Bool, true, false, Option, some}
use terrible_naming_conventi.Errors.{Error, Result, ok, err, raise_if}

abbrev pub Act : Type 0 → Type 0 → Type 0
Act W A = W → Result A × W

module _ {W A B : Type 0} where
  abbrev pub continue : Result A × W → (A → Act W B) → Result B × W
  continue (ok a, w) f = f a w
  continue (err e, w) f = (err e, w)

  pub continue-ok :
      (p : Result A × W) (f : A → Act W B) {a : A} → p.0 ≡ ok a → continue p f ≡ f a p.1
  continue-ok (ok b, w) f h = cc
  continue-ok (err e, w) f h = cc

  pub continue-eq-ok :
      (p : Result A × W) (f : A → Act W B) {b : B}
      → (continue p f).0 ≡ ok b
      → (a : A) × (p.0 ≡ ok a) × ((f a p.1).0 ≡ ok b)
  continue-eq-ok (ok a, w) f h = (a, refl, h)
  continue-eq-ok (err e, w) f h = cc

  -- as `continue`, where the rest may run out of fuel
  abbrev pub and_then : Result A × W → (A → W → Option (Result B × W)) → Option (Result B × W)
  and_then (ok a, w) k = k a w
  and_then (err e, w) k = some (err e, w)

  pub and_then-ok :
      (p : Result A × W) (k : A → W → Option (Result B × W)) {a : A}
      → p.0 ≡ ok a
      → and_then p k ≡ k a p.1
  and_then-ok (ok b, w) k h = cc
  and_then-ok (err e, w) k h = cc

  pub and_then-err :
      (p : Result A × W) (k : A → W → Option (Result B × W)) {e : Error}
      → p.0 ≡ err e
      → and_then p k ≡ some (err e, p.1)
  and_then-err (ok b, w) k h = cc
  and_then-err (err e, w) k h = cc

infixl 5 ◌>>=◌ ◌>>◌
abbrev pub ◌>>=◌ : {W A B : Type 0} → Act W A → (A → Act W B) → Act W B
◌>>=◌ m f w = continue (m w) f

abbrev pub ◌>>◌ : {W A B : Type 0} → Act W A → Act W B → Act W B
m >> k = m >>= λ _. k

abbrev pub pure : {W A : Type 0} → A → Act W A
pure a w = (ok a, w)

abbrev pub raise : {W A : Type 0} → Error → Act W A
raise e w = (err e, w)

abbrev pub lift : {W A : Type 0} → Result A → Act W A
lift r w = (r, w)

-- What an action returns, if it returns, satisfies P.
abbrev pub Returns : {W A : Type 0} → (A → Type 0) → Result A × W → Type 0
Returns P (ok a, w) = P a
Returns P (err e, w) = Unit

module _ {W A B : Type 0} where
  pub Returns-continue :
      (Q : A → Type 0) (P : B → Type 0) (p : Result A × W) (f : A → Act W B)
      → Returns Q p
      → ((a : A) (w : W) → Q a → Returns P (f a w))
      → Returns P (continue p f)
  Returns-continue Q P (ok a, w) f h k = k a w h
  Returns-continue Q P (err e, w) f h k = tt

  -- as `Returns-continue`, where nothing is known of the first result
  pub Returns-after :
      (P : B → Type 0) (p : Result A × W) (f : A → Act W B)
      → ((a : A) (w : W) → Returns P (f a w))
      → Returns P (continue p f)
  Returns-after P (ok a, w) f k = k a w
  Returns-after P (err e, w) f k = tt

module _ {W A B : Type 0} where
  -- as `Returns-after`, for what the first action did return
  pub Returns-returned :
      (P : B → Type 0) (p : Result A × W) (f : A → Act W B)
      → ((a : A) (w : W) → p.0 ≡ ok a → Returns P (f a w))
      → Returns P (continue p f)
  Returns-returned P (ok a, w) f k = k a w refl
  Returns-returned P (err e, w) f k = tt

-- The action raises and leaves the world as it was.
abbrev pub IsRefused : {W A : Type 0} → Result A × W → W → Type 0
IsRefused p w = (e : Error) × (p ≡ (err e, w))

module _ {W B : Type 0} where
  -- after `if b: raise e`
  pub Returns-guard :
      (P : B → Type 0) (b : Bool) (e : Error) (rest : Act W B) (w : W)
      → (b ≡ false → Returns P (rest w))
      → Returns P (continue (lift (raise_if b e) w) (λ _. rest))
  Returns-guard P true e rest w h = tt
  Returns-guard P false e rest w h = h refl

  pub IsRefused-lift :
      {A : Type 0} (r : Result A) (f : A → Act W B) (w : W)
      → ((a : A) → IsRefused (f a w) w)
      → IsRefused (continue (lift r w) f) w
  IsRefused-lift (ok a) f w h = h a
  IsRefused-lift (err e) f w h = (e, refl)

module _ {W A : Type 0} where
  pub Returns-ok : (P : A → Type 0) (p : Result A × W) {a : A} → Returns P p → p.0 ≡ ok a → P a
  Returns-ok P (ok b, w) h e = subst P (cc) h
  Returns-ok P (err b, w) h e = cc

-- What an action returns and leaves, and what it leaves where it raises.
abbrev pub Ends : {W A : Type 0} → (A → W → Type 0) → (Error → W → Type 0) → Result A × W → Type 0
Ends Q E (ok a, w) = Q a w
Ends Q E (err e, w) = E e w

module _ {W A B : Type 0} where
  pub Ends-continue :
      (Q : A → W → Type 0) (R : B → W → Type 0) (E : Error → W → Type 0) (p : Result A × W)
      (f : A → Act W B)
      → Ends Q E p
      → ((a : A) (w : W) → Q a w → Ends R E (f a w))
      → Ends R E (continue p f)
  Ends-continue Q R E (ok a, w) f h k = k a w h
  Ends-continue Q R E (err e, w) f h k = h
