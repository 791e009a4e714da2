-- ===== src/Reduce/Answers.antt =====
-- What `_synthesize_prompt` returns and how often it asks (backend/app/workers/cag.py).
use terrible_naming_conventi.Base.{
  ℕ, zero, suc, ◌+◌, ◌/◌, ◌≤◌, ◌<◌, ◌≡◌, refl, ap, sym, ◌∙◌, Option, none, some, Bool-cases, ◌⊎◌,
  inl, inr, List, [], ◌∷◌, ◌++◌, append-nil, append_assoc, codes, ltb, length, arith,
}
use terrible_naming_conventi.Errors.{Result, ok, err, llm_error}
use terrible_naming_conventi.Act.{
  Act, continue, Returns, Returns-returned, Returns-guard, Returns-ok,
}
use terrible_naming_conventi.Models.{Text, Json}
use terrible_naming_conventi.Schema.{BeliefStateContent, Pydantic}
use terrible_naming_conventi.Reduce.Prompt.{
  Reading, content, violation, proceed, validated, read_answer, with_errors, attempts,
  synthesize_prompt,
}

module _ (python : Pydantic) (json_loads : Text → Option Json) where
  -- The text is parsed and validated to the content.
  abbrev pub IsParsed : Text → BeliefStateContent → Type 0
  IsParsed text c =
      (parsed : Json) × (json_loads text ≡ some parsed) × (python.model_validate parsed ≡ some c)

  -- A reading of a text, if it is a content, is what the text is parsed and validated to.
  abbrev IsRead : Text → Reading → Type 0
  IsRead text (content c) = IsParsed text c
  IsRead text (violation v) = Unit

  -- The content is parsed and validated from a text that the model answered when it was asked with
  -- the prompt, or with the prompt and something after it.
  abbrev pub IsValidated : {W : Type 0} → (Text → Act W Text) → Text → BeliefStateContent → Type 0
  IsValidated {W = W} llm_call prompt c =
      (after : Text) × (w : W) × (text : Text) × ((llm_call (prompt ++ after) w).0 ≡ ok text)
      × IsParsed text c

-- What was wrong before stands after the prompt.
with_errors-append :
    (prompt : Text) (errors : List Text)
    → (after : Text) × (with_errors prompt errors ≡ prompt ++ after)
with_errors-append prompt [] = ([], sym (append-nil prompt))
with_errors-append prompt (e ∷ es) = (_, append_assoc prompt _ _)

-- the model with a counter of its calls
abbrev pub counted : {W : Type 0} → (Text → Act W Text) → Text → Act (ℕ × W) Text
counted llm_call prompt (n, w) = let (r, w') = llm_call prompt w in (r, (suc n, w'))

-- Over the budget and refused without a question, or within it and with at most two questions.
abbrev pub IsBounded : {W : Type 0} → ℕ → Text → W → Result BeliefStateContent × (ℕ × W) → Type 0
IsBounded budget prompt w p =
    ((budget < length prompt / 4) × (p ≡ (err llm_error, (0, w))))
    ⊎ ((length prompt / 4 ≤ budget) × (p.1.0 ≤ 2))

module _ (python : Pydantic) (json_loads : Text → Option Json)
    (parse_error schema_error : Text → Text) where
  validated-IsRead :
      (text : Text) (o : Option Json)
      → json_loads text ≡ o
      → IsRead python json_loads text (validated python json_loads parse_error schema_error text o)
  validated-IsRead text none h = tt
  validated-IsRead text (some parsed) h = validate_lem (python.model_validate parsed) refl
    where
      validate_lem :
          (o : Option BeliefStateContent)
          → python.model_validate parsed ≡ o
          → IsRead python json_loads text (elim o [
            | some c ↦ content c
            | none ↦ violation (codes "Schema validation error: " ++ schema_error text)
          ])
      validate_lem none e = tt
      validate_lem (some c) e = (parsed, h, e)

  module _ {W : Type 0} (llm_call : Text → Act W Text) where
    proceed-IsValidated :
        (prompt text : Text) (errors : List Text) (r : Reading)
        (retry : List Text → Act W BeliefStateContent) (w w' : W)
        → (llm_call (with_errors prompt errors) w).0 ≡ ok text
        → ((es : List Text) → Returns (IsValidated python json_loads llm_call prompt) (retry es w'))
        → IsRead python json_loads text r
        → Returns (IsValidated python json_loads llm_call prompt) (proceed r errors retry w')
    proceed-IsValidated prompt text errors (content c) retry w w' answered rest h =
        let (after, same) = with_errors-append prompt errors in
        (after, w, text, ap (λ asked. (llm_call asked w).0) (sym same) ∙ answered, h)
    proceed-IsValidated prompt text errors (violation v) retry w w' answered rest h =
        rest (errors ++ v ∷ [])

    attempts-IsValidated :
        (n : ℕ) (prompt : Text) (errors : List Text) (w : W)
        → Returns
            (IsValidated python json_loads llm_call prompt)
            (attempts python json_loads parse_error schema_error llm_call n prompt errors w)
    unfolding attempts read_answer
    attempts-IsValidated zero prompt errors w = tt
    attempts-IsValidated (suc n) prompt errors w =
        Returns-returned (IsValidated python json_loads llm_call prompt)
          (llm_call (with_errors prompt errors) w) _
          (λ text w1 answered.
            proceed-IsValidated prompt text errors
              (read_answer python json_loads parse_error schema_error text)
              (λ es. attempts python json_loads parse_error schema_error llm_call n prompt es) w w1
              answered (λ es. attempts-IsValidated n prompt es w1)
              (validated-IsRead text (json_loads text) refl))

    -- A content that the synthesis returns is parsed and validated from a text that the model
    -- answered when it was asked with the prompt, or with the prompt and something after it.
    pub synthesize_prompt-IsValidated :
        (budget : ℕ) (prompt : Text) (w : W) {c : BeliefStateContent}
        → (synthesize_prompt python json_loads parse_error schema_error llm_call budget prompt w).0
          ≡ ok c
        → IsValidated python json_loads llm_call prompt c
    unfolding synthesize_prompt
    synthesize_prompt-IsValidated budget prompt w e =
        Returns-ok (IsValidated python json_loads llm_call prompt)
          (synthesize_prompt python json_loads parse_error schema_error llm_call budget prompt w)
          (Returns-guard (IsValidated python json_loads llm_call prompt)
            (ltb budget (length prompt / 4)) llm_error _ w
            (λ within. attempts-IsValidated 2 prompt [] w))
          e

    proceed_bound :
        (bound : ℕ) (errors : List Text) (r : Reading)
        (retry : List Text → Act (ℕ × W) BeliefStateContent) (s : ℕ × W)
        → s.0 ≤ bound
        → ((es : List Text) → (retry es s).1.0 ≤ bound)
        → (proceed r errors retry s).1.0 ≤ bound
    proceed_bound bound errors (content c) retry s h rest = h
    proceed_bound bound errors (violation v) retry s h rest = rest (errors ++ v ∷ [])

    asked_bound :
        (bound i : ℕ) (p : Result Text × W) (f : Text → Act (ℕ × W) BeliefStateContent)
        → i ≤ bound
        → ((text : Text) (w : W) → (f text (i, w)).1.0 ≤ bound)
        → (continue {W = ℕ × W} {A = Text} {B = BeliefStateContent} (p.0, (i, p.1)) f).1.0 ≤ bound
    asked_bound bound i (ok text, w) f h rest = rest text w
    asked_bound bound i (err e, w) f h rest = h

    attempts_bound :
        (n i : ℕ) (prompt : Text) (errors : List Text) (w : W)
        → (attempts python json_loads parse_error schema_error
            (counted llm_call)
            n
            prompt
            errors
            (i, w)).1.0
          ≤ i + n
    unfolding attempts
    attempts_bound zero i prompt errors w = omega arith
    attempts_bound (suc n) i prompt errors w =
        asked_bound (i + suc n) (suc i) (llm_call (with_errors prompt errors) w)
          (λ text.
            proceed (read_answer python json_loads parse_error schema_error text) errors (λ es.
              attempts python json_loads parse_error schema_error (counted llm_call) n prompt es))
          (omega arith)
          (λ text w1.
            proceed_bound (i + suc n) errors
              (read_answer python json_loads parse_error schema_error text)
              (λ es.
                attempts python json_loads parse_error schema_error (counted llm_call) n prompt es)
              (suc i, w1) (omega arith)
              (λ es. omega (arith, attempts_bound n (suc i) prompt es w1)))

    -- The synthesis asks the model at most twice, and not at all where a quarter of the prompt's
    -- length is over the token budget; it then raises the model's error.
    pub synthesize_prompt_bound :
        (budget : ℕ) (prompt : Text) (w : W)
        → IsBounded budget prompt w (
            synthesize_prompt python json_loads parse_error schema_error
              (counted llm_call)
              budget
              prompt
              (0, w))
    unfolding synthesize_prompt
    synthesize_prompt_bound budget prompt w = elim (Bool-cases (ltb budget (length prompt / 4))) [
      | inl over ↦ inl (ground arith, rw over refl)
      | inr within ↦ inr (ground arith, rw within (attempts_bound 2 0 prompt [] w))
    ]
