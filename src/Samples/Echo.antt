-- ===== src/Samples/Echo.antt =====
-- A language model that answers a digest or merge prompt with what stands in the prompt's field,
-- and the proof that it leaves no letter out.
use terrible_naming_conventi.Base.{
  ℕ, suc, ◌+◌, ◌-◌, ◌/◌, ◌≡◌, refl, ap, sym, ◌∙◌, some, Bool, false, inl, inr, Bool-cases,
  append-nil, append_assoc, List, [], ◌∷◌, ◌++◌, map, filter, take, drop, length, ltb, not, codes,
  ◌==◌, if◌then◌else◌, arith,
}
use terrible_naming_conventi.Errors.{ok, ok-injective}
use terrible_naming_conventi.Models.{Document, Json, str, arr, cons, Text}
use terrible_naming_conventi.Schema.{BeliefStateContent}
use terrible_naming_conventi.CagPrompts.{
  Printing, join_paragraphs, format_summary, format_batch_digest_prompt, format_digest_merge_prompt,
}
use terrible_naming_conventi.CagPrompts.Templates.{
  batch_digest_before, batch_digest_after, digest_merge_before, digest_merge_after,
}
use terrible_naming_conventi.Samples.Codec.{pydantic, to_content}
use terrible_naming_conventi.Reduce.Prompt.{synthesize_prompt, attempts, read_answer}
use terrible_naming_conventi.Reduce.Covers.{flat, IsFaithful}
use terrible_naming_conventi.Jobs.Fold.{Llm, synthesize, digest, merge}

-- all characters but line breaks
abbrev pub letters : Text → List ℕ
letters t = filter (λ c. not (c == 10)) t

abbrev pub said : Text → BeliefStateContent
said t = record {
  project_summary = t;
  decisions = [];
  open_items = [];
  key_people = [];
  recurring_themes = [];
}

-- a string is printed as it is, and a content as its summary
abbrev dumps : Json → Text
dumps (str t) = t
dumps (arr (cons (str t) js)) = t
dumps j = []

abbrev pub printing : Printing
printing = record { json_dumps = dumps; uuid_str = λ n. n ∷ []; isoformat = λ n. n ∷ [] }

-- the text between a template's two parts
abbrev field_of : Text → Text → Text → Text
field_of before after prompt =
    let rest = drop (length before) prompt in take (length rest - length after) rest

drop_all : (xs ys : Text) → drop (length xs) (xs ++ ys) ≡ ys
drop_all [] ys = refl
drop_all (x ∷ xs) ys = drop_all xs ys

length_both : (xs ys : Text) → length (xs ++ ys) ≡ length xs + length ys
length_both [] ys = omega arith
length_both (x ∷ xs) ys = omega (arith, length_both xs ys)

take_first : (xs ys : Text) → take (length xs) (xs ++ ys) ≡ xs
take_first [] ys = refl
take_first (x ∷ xs) ys = ap (λ t. x ∷ t) (take_first xs ys)

field_of_lem : (before after x : Text) → field_of before after (before ++ x ++ after) ≡ x
field_of_lem before after x =
    let size : length (x ++ after) - length after ≡ length x = omega (arith, length_both x after) in
    ap (field_of before after) (append_assoc before x after)
    ∙ ap (λ rest. take (length rest - length after) rest) (drop_all before (x ++ after))
    ∙ rw size (take_first x after)

-- "You are producing ..." or "You are merging ..."
abbrev is_digest : Text → Bool
is_digest (a ∷ b ∷ c ∷ d ∷ e ∷ f ∷ g ∷ h ∷ i ∷ t) = i == 112
is_digest t = false

unfoldable pub reply : Text → Text
reply prompt =
    if is_digest prompt
    then field_of batch_digest_before batch_digest_after prompt
    else field_of digest_merge_before digest_merge_after prompt

-- the state counts the calls
abbrev pub echo : Llm ℕ
echo = record {
  printing = printing;
  json_loads = λ t. some (to_content (said t));
  parse_error = λ t. t;
  schema_error = λ t. t;
  llm_call = λ model prompt calls. (ok (reply prompt), suc calls);
  cag_max_prompt_tokens = 60000;
}

letters_append : (s t : Text) → letters (s ++ t) ≡ letters s ++ letters t
letters_append [] t = refl
letters_append (c ∷ s) t = ground (arith, letters_append s t)

letters_paragraphs :
    {A : Type 0} (print : A → Text) (src : A → List ℕ) (xs : List A)
    → ((x : A) → letters (print x) ≡ src x)
    → letters (join_paragraphs (map print xs)) ≡ flat src xs
letters_paragraphs print src [] h = refl
letters_paragraphs print src (x ∷ []) h = h x ∙ sym (append-nil (src x))
letters_paragraphs print src (x ∷ y ∷ ys) h =
    let rest = join_paragraphs (map print (y ∷ ys)) in
    let step : letters (join_paragraphs (map print (x ∷ y ∷ ys)))
        ≡ letters (print x) ++ letters rest =
      letters_append (print x ++ codes "\n\n") rest
      ∙ ap (λ t. t ++ letters rest)
          (letters_append (print x) (codes "\n\n") ∙ append-nil (letters (print x))) in
    step
    ∙ ap (λ t. t ++ letters rest) (h x)
    ∙ ap (λ t. src x ++ t) (letters_paragraphs print src (y ∷ ys) h)

synthesize_lem :
    (model : Text) (documents : List Document) (prompt : Text) (v : ℕ) {c : BeliefStateContent}
    → (synthesize pydantic echo model documents prompt v).0 ≡ ok c
    → c ≡ said (reply prompt)
unfolding synthesize_prompt attempts read_answer
synthesize_lem model documents prompt v h = elim (Bool-cases (ltb 60000 (length prompt / 4))) [
  | inl over ↦ absurd (cc (rw over at h))
  | inr within ↦ sym (ok-injective (rw within at h))
]

-- What a digest or a merged content says is what its batch says.
pub digest-IsFaithful :
    (model : Text) (documents : List Document)
    → IsFaithful
        (digest pydantic echo model documents)
        (λ s. letters (format_summary printing pydantic documents s))
        (λ c. letters c.project_summary)
unfolding digest format_batch_digest_prompt reply
digest-IsFaithful model documents [] v c h = cc
digest-IsFaithful model documents (s ∷ ss) v c h =
    let x = join_paragraphs (map (format_summary printing pydantic documents) (s ∷ ss)) in
    ap (λ (d : BeliefStateContent). letters d.project_summary)
      (synthesize_lem model documents _ v h)
    ∙ ap letters (field_of_lem batch_digest_before batch_digest_after x)
    ∙ letters_paragraphs (format_summary printing pydantic documents)
        (λ s. letters (format_summary printing pydantic documents s)) (s ∷ ss) (λ t. refl)

pub merge-IsFaithful :
    (model : Text) (documents : List Document)
    → IsFaithful
        (merge pydantic echo model documents)
        (λ c. letters c.project_summary)
        (λ c. letters c.project_summary)
unfolding merge format_digest_merge_prompt reply
merge-IsFaithful model documents [] v c h = cc
merge-IsFaithful model documents (d ∷ ds) v c h =
    let print = λ (e : BeliefStateContent). dumps (to_content e) in
    ap (λ (d : BeliefStateContent). letters d.project_summary)
      (synthesize_lem model documents _ v h)
    ∙ ap letters
        (field_of_lem digest_merge_before digest_merge_after (join_paragraphs (map print (d ∷ ds))))
    ∙ letters_paragraphs print (λ e. letters e.project_summary) (d ∷ ds) (λ t. refl)
