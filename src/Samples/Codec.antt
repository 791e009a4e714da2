-- ===== src/Samples/Codec.antt =====
-- A JSON form of a belief state: every model is the list of its fields, in their order.
use terrible_naming_conventi.Base.{ℕ, ◌≡◌, refl, Option, none, some, List, [], ◌∷◌}
use terrible_naming_conventi.Models.{Json, null, num, str, arr, Items, nil, cons, Text}
use terrible_naming_conventi.Schema.{Decision, OpenItem, KeyPerson, BeliefStateContent, Pydantic}

infixl 5 ◌>>=◌
abbrev ◌>>=◌ : {A B : Type 0} → Option A → (A → Option B) → Option B
none >>= f = none
some a >>= f = f a

abbrev to_items : {A : Type 0} → (A → Json) → List A → Items
to_items to [] = nil
to_items to (a ∷ rest) = cons (to a) (to_items to rest)

abbrev from_items : {A : Type 0} → (Json → Option A) → Items → Option (List A)
from_items from nil = some []
from_items from (cons j js) = do a ← from j; rest ← from_items from js; some (a ∷ rest)

items_law :
    {A : Type 0} (to : A → Json) (from : Json → Option A)
    → ((a : A) → from (to a) ≡ some a)
    → (xs : List A) → from_items from (to_items to xs) ≡ some xs
items_law to from law [] = refl
items_law to from law (a ∷ rest) = rw (law a, items_law to from law rest)

abbrev to_text : Text → Json
to_text t = str t

abbrev from_text : Json → Option Text
from_text (str t) = some t
from_text j = none

abbrev to_text? : Option Text → Json
to_text? none = null
to_text? (some t) = str t

abbrev from_text? : Json → Option (Option Text)
from_text? null = some none
from_text? (str t) = some (some t)
from_text? j = none

text?_law : (t : Option Text) → from_text? (to_text? t) ≡ some t
text?_law none = refl
text?_law (some t) = refl

abbrev to_id? : Option ℕ → Json
to_id? none = null
to_id? (some n) = num (n ∷ [])

abbrev from_id? : Json → Option (Option ℕ)
from_id? null = some none
from_id? (num (n ∷ [])) = some (some n)
from_id? j = none

id?_law : (n : Option ℕ) → from_id? (to_id? n) ≡ some n
id?_law none = refl
id?_law (some n) = refl

abbrev to_decision : Decision → Json
to_decision d = arr (
    cons (str d.description)
      (cons (to_text? d.approximate_date) (cons (to_id? d.summary_id_ref) nil)))

abbrev from_decision : Json → Option Decision
from_decision (arr (cons (str t) (cons j (cons k nil)))) = do
  date ← from_text? j
  ref ← from_id? k
  some (record { description = t; approximate_date = date; summary_id_ref = ref })
from_decision j = none

decision_law : (d : Decision) → from_decision (to_decision d) ≡ some d
decision_law d = rw (text?_law d.approximate_date, id?_law d.summary_id_ref)

abbrev to_open_item : OpenItem → Json
to_open_item o = arr (cons (str o.description) (cons (to_id? o.first_seen_summary_id) nil))

abbrev from_open_item : Json → Option OpenItem
from_open_item (arr (cons (str t) (cons k nil))) = do
  ref ← from_id? k
  some (record { description = t; first_seen_summary_id = ref })
from_open_item j = none

open_item_law : (o : OpenItem) → from_open_item (to_open_item o) ≡ some o
open_item_law o = rw (id?_law o.first_seen_summary_id)

abbrev to_person : KeyPerson → Json
to_person p = arr (cons (str p.name) (cons (to_text? p.role) nil))

abbrev from_person : Json → Option KeyPerson
from_person (arr (cons (str t) (cons k nil))) = do
  role ← from_text? k
  some (record { name = t; role = role })
from_person j = none

person_law : (p : KeyPerson) → from_person (to_person p) ≡ some p
person_law p = rw (text?_law p.role)

text_law : (t : Text) → from_text (to_text t) ≡ some t
text_law t = refl

abbrev pub to_content : BeliefStateContent → Json
to_content c = arr (
    cons (str c.project_summary) (
      cons (arr (to_items to_decision c.decisions)) (
        cons (arr (to_items to_open_item c.open_items)) (
          cons (arr (to_items to_person c.key_people))
            (cons (arr (to_items to_text c.recurring_themes)) nil)))))

abbrev pub from_content : Json → Option BeliefStateContent
from_content (arr (cons (str t) (cons (arr d) (cons (arr o) (cons (arr p) (cons (arr r) nil)))))) =
    do
      decisions ← from_items from_decision d
      open_items ← from_items from_open_item o
      people ← from_items from_person p
      themes ← from_items from_text r
      some (record {
        project_summary = t;
        decisions = decisions;
        open_items = open_items;
        key_people = people;
        recurring_themes = themes;
      })
from_content j = none

pub content_law : (c : BeliefStateContent) → from_content (to_content c) ≡ some c
content_law c = rw (
  items_law to_decision from_decision decision_law c.decisions,
  items_law to_open_item from_open_item open_item_law c.open_items,
  items_law to_person from_person person_law c.key_people,
  items_law to_text from_text text_law c.recurring_themes,
)

abbrev pub pydantic : Pydantic
pydantic = record {
  model_dump = to_content;
  model_validate = from_content;
  validate-dump = content_law;
}

abbrev pub content : BeliefStateContent
content = record {
  project_summary = b'a' ∷ [];
  decisions = [];
  open_items = [];
  key_people = [];
  recurring_themes = [];
}
