-- ===== src/Errors.antt =====
-- Exceptions as values: the classes of backend/app/core/exceptions.py, the built-in exceptions
-- that the code raises itself, and FastAPI's HTTPException with its status code. Messages are
-- not modelled.
use terrible_naming_conventi.Base.{
  ℕ, ◌≡◌, refl, Bool, true, false, Option, none, some, ◌⊎◌, inl, inr,
}

pub data Error : Type 0 where
  duplicate_email invalid_credentials user_not_found team_not_found project_not_found : Error
  already_member member_not_found access_denied document_not_found : Error
  ingestion_job_not_found unsupported_file_type qdrant_error llm_error : Error
  belief_state_not_found invalid_belief_state belief_state_version_conflict : Error
  invalid_query query_generation : Error
  value_error key_error not_implemented timeout_error eval_invariant_error : Error
  http_exception : ℕ → Error
  -- a statement that the database refuses, which aborts the transaction
  statement_error : Error
  -- asyncio.CancelledError, with which an ingestion job is cut off; it is no Exception. No other
  -- call is cancelled in the model.
  cancelled_error : Error

-- `except Exception` catches it.
abbrev pub is_exception : Error → Bool
is_exception cancelled_error = false
is_exception e = true

-- The transaction has been aborted, so that its next statement is refused too.
abbrev pub is_refused_statement : Error → Bool
is_refused_statement statement_error = true
is_refused_statement e = false

pub data Result {ℓ} (A : Type ℓ) : Type ℓ where
  ok : A → Result A
  err : Error → Result A

-- `if b: raise e`
abbrev pub raise_if : Bool → Error → Result (Unit {0})
raise_if true e = err e
raise_if false e = ok tt

-- `if o is None: raise e`
abbrev pub or_raise {ℓ} : {A : Type ℓ} → Option A → Error → Result A
or_raise none e = err e
or_raise (some a) e = ok a

infixl 5 ◌>>=◌ ◌>>◌
abbrev pub ◌>>=◌ {ℓ κ} : {X : Type ℓ} {Y : Type κ} → Result X → (X → Result Y) → Result Y
err raised >>= next = err raised
ok value >>= next = next value

abbrev pub ◌>>◌ {ℓ} : {Y : Type ℓ} → Result (Unit {0}) → Result Y → Result Y
test >> next = test >>= λ done. next

pub Result-cases {ℓ} :
    {X : Type ℓ} (r : Result X) → ((x : X) × (r ≡ ok x)) ⊎ ((e : Error) × (r ≡ err e))
Result-cases (err e) = inr (e, refl)
Result-cases (ok x) = inl (x, refl)

-- A chain that returns has had a first step that returned.
pub >>=-inverse {ℓ κ} :
    {X : Type ℓ} {Y : Type κ} (first : Result X) (next : X → Result Y) {y : Y}
    → (first >>= next) ≡ ok y
    → (x : X) × (first ≡ ok x) × (next x ≡ ok y)
>>=-inverse (err raised) next h = cc
>>=-inverse (ok value) next h = (value, refl, h)

pub ok-injective {ℓ} : {X : Type ℓ} {x y : X} → ok x ≡ ok y → x ≡ y
ok-injective h = cc

pub or_raise-ok {ℓ} :
    {X : Type ℓ} (o : Option X) (e : Error) {x : X} → or_raise o e ≡ ok x → o ≡ some x
or_raise-ok none e h = cc
or_raise-ok (some y) e h = cc

pub raise_if-ok : (b : Bool) (e : Error) {u : Unit {0}} → raise_if b e ≡ ok u → b ≡ false
raise_if-ok true e h = cc
raise_if-ok false e h = refl
