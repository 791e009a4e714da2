-- ===== src/Tests/Synthesis.antt =====
-- One synthesis, against a model that answers once with what is not JSON and then with a content.
use terrible_naming_conventi.Base.{ℕ, zero, suc, ◌≡◌, refl, Option, none, some, [], ◌∷◌, codes}
use terrible_naming_conventi.Errors.{ok}
use terrible_naming_conventi.Act.{Act}
use terrible_naming_conventi.Models.{Text, Json}
use terrible_naming_conventi.Samples.Codec.{pydantic, content}
use terrible_naming_conventi.Reduce.Prompt.{synthesize_prompt, attempts, read_answer}
use terrible_naming_conventi.Reduce.Answers.{
  IsValidated, IsBounded, counted, synthesize_prompt-IsValidated, synthesize_prompt_bound,
}

-- `{}` is the only text that is parsed here.
abbrev loads : Text → Option Json
loads [] = none
loads (c ∷ s) = some (pydantic.model_dump content)

abbrev no_text : Text → Text
no_text s = []

abbrev model : Text → Act ℕ Text
model prompt zero = (ok [], 1)
model prompt (suc n) = (ok (codes "{}"), suc (suc n))

answered :
    (synthesize_prompt pydantic loads no_text no_text model 60000 (codes "p") 0).0 ≡ ok content
unfolding synthesize_prompt attempts read_answer
answered = refl

synthesize_prompt-IsValidated_example : IsValidated pydantic loads model (codes "p") content
synthesize_prompt-IsValidated_example =
    synthesize_prompt-IsValidated pydantic loads no_text no_text model 60000 (codes "p") 0 answered

synthesize_prompt_bound_example :
    IsBounded 60000
      (codes "p")
      0
      (synthesize_prompt pydantic loads no_text no_text (counted model) 60000 (codes "p") (0, 0))
synthesize_prompt_bound_example =
    synthesize_prompt_bound pydantic loads no_text no_text model 60000 (codes "p") 0
