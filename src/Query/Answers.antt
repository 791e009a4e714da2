-- ===== src/Query/Answers.antt =====
-- What an answer is made of (backend/app/services/query.py).
use terrible_naming_conventi.Base.{
  ℕ, suc, ◌≤◌, ◌≡◌, refl, ap, sym, ◌∙◌, Bool-cases, inl, inr, Option, none, some, Bool, true, false,
  List, [], ◌∷◌, ◌++◌, All, contains, length, codes, decimal, arith, not,
}
use terrible_naming_conventi.Errors.{Error, ok, err, raise_if, invalid_query, access_denied}
use terrible_naming_conventi.Act.{
  Act, Returns, Returns-continue, Returns-after, Returns-guard, Returns-ok, IsRefused,
  IsRefused-lift, lift, continue,
}
use terrible_naming_conventi.Models.{Text, Json, Db, Project, Postgres}
use terrible_naming_conventi.Schema.{Pydantic, BeliefStateRecord}
use terrible_naming_conventi.Cag.{get_latest}
use terrible_naming_conventi.Prompting.{RetrievedChunk}
use terrible_naming_conventi.Retrieve.{Search, Payload, retrieve}
use terrible_naming_conventi.Retrieve.Ranked.{
  ReturnsHeld, IsFrom, retrieve-IsFrom, IsRanked, retrieve_multi-IsRanked,
}
use terrible_naming_conventi.Query.{
  SourceChunk, QueryResponse, to_source_chunks, is_invalid, ignore_corrupt, is_empty, answered,
  query_model, answer_from, answer_or_none, answer_with, answer_for, get_project, query, query_by,
  answer_across, retrieve_accessible, query_cross_project, generate_answer,
}

-- A source has the document, the index, the text and the file name of a chunk that the collection of
-- the source's own project holds, and that project is one of the list.
abbrev pub IsCited : (ℕ → Payload → Type 0) → List ℕ → SourceChunk → Type 0
IsCited Held ids s =
    (contains s.project_id ids ≡ true)
    × (payload : Payload) × Held s.project_id payload
    × (payload.document_id ≡ s.document_id)
    × (payload.chunk_index ≡ s.chunk_index)
    × (payload.text ≡ s.text)
    × (payload.filename ≡ s.filename)

-- The sources are cited from projects of the list and are labelled S1, S2, ... in their order, and
-- the answer is marked grounded when there is a source.
abbrev pub IsLabelled : ℕ → List SourceChunk → Type 0
IsLabelled n [] = Unit
IsLabelled n (s ∷ ss) = (s.label ≡ codes "S" ++ decimal n) × IsLabelled (suc n) ss

abbrev pub IsSound : (ℕ → Payload → Type 0) → List ℕ → QueryResponse → Type 0
IsSound Held ids r =
    All (IsCited Held ids) r.sources
    × IsLabelled 1 r.sources
    × (r.grounded ≡ not (is_empty r.sources))

to_source_chunks-IsLabelled :
    (n : ℕ) (cs : List RetrievedChunk) → IsLabelled n (to_source_chunks n cs)
to_source_chunks-IsLabelled n [] = tt
to_source_chunks-IsLabelled n (c ∷ cs) = (refl, to_source_chunks-IsLabelled (suc n) cs)

to_source_chunks-All :
    (Held : ℕ → Payload → Type 0) (n : ℕ) (ids : List ℕ) (cs : List RetrievedChunk)
    → All (IsFrom Held ids) cs
    → All (IsCited Held ids) (to_source_chunks n cs)
to_source_chunks-All Held n ids [] h = tt
to_source_chunks-All Held n ids (c ∷ cs) h = (h.0, to_source_chunks-All Held (suc n) ids cs h.1)

answered-IsSound :
    (Held : ℕ → Payload → Type 0) (ids : List ℕ) (text : Text) (cs : List RetrievedChunk)
    (b : Option BeliefStateRecord)
    → All (IsFrom Held ids) cs
    → IsSound Held ids (answered text cs b)
answered-IsSound Held ids text [] b h = (tt, tt, refl)
answered-IsSound Held ids text (c ∷ cs) b h =
    (to_source_chunks-All Held 1 ids (c ∷ cs) h, to_source_chunks-IsLabelled 1 (c ∷ cs), refl)

-- Sound, without a belief state, and with at most k sources.
abbrev pub IsAcross : (ℕ → Payload → Type 0) → List ℕ → ℕ → QueryResponse → Type 0
IsAcross Held ids k r =
    IsSound Held ids r × (r.belief_state_version ≡ none) × (length r.sources ≤ k)

length-to_source_chunks :
    (n : ℕ) (cs : List RetrievedChunk) → length (to_source_chunks n cs) ≡ length cs
length-to_source_chunks n [] = refl
length-to_source_chunks n (c ∷ cs) = omega (arith, length-to_source_chunks (suc n) cs)

ok_not_err : {A : Type 0} {a : A} {e : Error} → ok a ≡ err e → ⊥
ok_not_err h = cc

module _ (postgres : Postgres) (python : Pydantic) (json_dumps : Json → Text) (uuid_str : ℕ → Text)
    {W Dense Sparse : Type 0} (search : Search W Dense Sparse) (default_model : Text)
    (generate : Text → Text → Act W Text) where
  answer_for_denied :
      (question : Text) (pid : ℕ) (ids : List ℕ) (k : ℕ) (db : Db) (project : Project) (w : W)
      → contains pid ids ≡ false
      → IsRefused
          (answer_for python json_dumps uuid_str default_model generate
            (retrieve search)
            (get_latest postgres python)
            question
            pid
            ids
            k
            db
            project
            w)
          w
  unfolding answer_for answer_with retrieve
  answer_for_denied question pid ids k db project w h =
      IsRefused-lift (ignore_corrupt (get_latest postgres python pid db))
        (answer_with python json_dumps uuid_str default_model generate (retrieve search)
          (get_latest postgres python) question pid ids k project)
        w (λ b. (access_denied, rw h refl))

  -- A question on a project that is not accessible is refused before any embedder, the vector store
  -- or the model is called, whatever the question and whether or not the project exists.
  pub query_denied :
      (question : Text) (pid : ℕ) (ids : List ℕ) (k : ℕ) (db : Db) (w : W)
      → contains pid ids ≡ false
      → IsRefused
          (query postgres python json_dumps uuid_str search default_model generate question pid ids
            k db w)
          w
  unfolding query query_by
  query_denied question pid ids k db w h =
      IsRefused-lift (raise_if (is_invalid question) invalid_query)
        (λ _. λ w1. continue (lift (get_project pid db) w1) (
          answer_for python json_dumps uuid_str default_model generate (retrieve search)
            (get_latest postgres python) question pid ids k db))
        w
        (λ valid.
          IsRefused-lift (get_project pid db)
            (answer_for python json_dumps uuid_str default_model generate (retrieve search)
              (get_latest postgres python) question pid ids k db)
            w (λ project. answer_for_denied question pid ids k db project w h))

module _ (postgres : Postgres) (python : Pydantic) (json_dumps : Json → Text) (uuid_str : ℕ → Text)
    {W Dense Sparse : Type 0} (search : Search W Dense Sparse) (default_model : Text)
    (generate : Text → Text → Act W Text) (Held : ℕ → Payload → Type 0)
    (held : ReturnsHeld Held search) where
  answer_from-IsSound :
      (ids : List ℕ) (model : Text) (multi : Bool) (b : Option BeliefStateRecord)
      (cs : List RetrievedChunk) (question : Text) (w : W)
      → All (IsFrom Held ids) cs
      → Returns (IsSound Held ids) (
          answer_from python json_dumps uuid_str default_model generate model multi b cs question w)
  unfolding answer_from
  answer_from-IsSound ids model multi b cs question w h =
      Returns-after (IsSound Held ids)
        (generate_answer python json_dumps uuid_str default_model generate model _ w) _
        (λ text w1. answered-IsSound Held ids text cs b h)

  answer_or_none-IsSound :
      (ids : List ℕ) (model : Text) (b : Option BeliefStateRecord) (cs : List RetrievedChunk)
      (question : Text) (w : W)
      → All (IsFrom Held ids) cs
      → Returns
          (IsSound Held ids)
          (answer_or_none python json_dumps uuid_str default_model generate model b cs question w)
  answer_or_none-IsSound ids model none [] question w h = (tt, tt, refl)
  answer_or_none-IsSound ids model (some b) [] question w h =
      answer_from-IsSound ids model false (some b) [] question w h
  answer_or_none-IsSound ids model none (c ∷ cs) question w h =
      answer_from-IsSound ids model false none (c ∷ cs) question w h
  answer_or_none-IsSound ids model (some b) (c ∷ cs) question w h =
      answer_from-IsSound ids model false (some b) (c ∷ cs) question w h

  answer_with-IsSound :
      (question : Text) (pid : ℕ) (ids : List ℕ) (k : ℕ) (project : Project)
      (b : Option BeliefStateRecord) (w : W)
      → Returns (IsSound Held (pid ∷ [])) (
          answer_with python json_dumps uuid_str default_model generate
            (retrieve search)
            (get_latest postgres python)
            question
            pid
            ids
            k
            project
            b
            w)
  unfolding answer_with
  answer_with-IsSound question pid ids k project b w =
      Returns-continue (All (IsFrom Held (pid ∷ []))) (IsSound Held (pid ∷ []))
        (retrieve search pid question ids k w) _
        (retrieve-IsFrom search Held held pid question ids k (pid ∷ []) w (λ h. ground arith))
        (λ cs w1 h.
          answer_or_none-IsSound (pid ∷ []) (query_model default_model project) b cs question w1 h)

  answer_for-IsSound :
      (question : Text) (pid : ℕ) (ids : List ℕ) (k : ℕ) (db : Db) (project : Project) (w : W)
      → Returns (IsSound Held (pid ∷ [])) (
          answer_for python json_dumps uuid_str default_model generate
            (retrieve search)
            (get_latest postgres python)
            question
            pid
            ids
            k
            db
            project
            w)
  unfolding answer_for
  answer_for-IsSound question pid ids k db project w =
      Returns-after (IsSound Held (pid ∷ []))
        (lift (ignore_corrupt (get_latest postgres python pid db)) w)
        (answer_with python json_dumps uuid_str default_model generate (retrieve search)
          (get_latest postgres python) question pid ids k project)
        (λ b w1. answer_with-IsSound question pid ids k project b w1)

  query-Returns :
      (question : Text) (pid : ℕ) (ids : List ℕ) (k : ℕ) (db : Db) (w : W)
      → Returns (IsSound Held (pid ∷ [])) (
          query postgres python json_dumps uuid_str search default_model generate question pid ids k
            db w)
  unfolding query query_by
  query-Returns question pid ids k db w =
      Returns-guard (IsSound Held (pid ∷ [])) (is_invalid question) invalid_query _ w (λ valid.
        Returns-after (IsSound Held (pid ∷ [])) (lift (get_project pid db) w)
          (answer_for python json_dumps uuid_str default_model generate (retrieve search)
            (get_latest postgres python) question pid ids k db)
          (λ project w1. answer_for-IsSound question pid ids k db project w1))

  answered_accessible :
      (question : Text) (pid : ℕ) (ids : List ℕ) (k : ℕ) (db : Db) (w : W) {r : QueryResponse}
      → (query postgres python json_dumps uuid_str search default_model generate question pid ids k
          db w).0
        ≡ ok r
      → contains pid ids ≡ true
  answered_accessible question pid ids k db w e = elim (Bool-cases (contains pid ids)) [
    | inl t ↦ t
    | inr t ↦
        let (raised, refused) =
          query_denied postgres python json_dumps uuid_str search default_model generate question
            pid ids k db w t in
        absurd (ok_not_err (sym e ∙ ap (λ p. p.0) refused))
  ]

  -- Where a query of a collection returns only points that the collection holds: an answer to a
  -- question on one project is given only if the project is accessible; each of its sources is a
  -- chunk that the collection of that very project holds; the sources are labelled S1, S2, ... in
  -- their order, and the answer is marked grounded exactly when it has a source.
  pub query-IsSound :
      (question : Text) (pid : ℕ) (ids : List ℕ) (k : ℕ) (db : Db) (w : W) {r : QueryResponse}
      → (query postgres python json_dumps uuid_str search default_model generate question pid ids k
          db w).0
        ≡ ok r
      → (contains pid ids ≡ true) × IsSound Held (pid ∷ []) r
  query-IsSound question pid ids k db w e = (
    answered_accessible question pid ids k db w e,
    Returns-ok (IsSound Held (pid ∷ []))
        (query postgres python json_dumps uuid_str search default_model generate question pid ids k
          db w)
        (query-Returns question pid ids k db w) e,
  )

  answer_across-IsAcross :
      (ids : List ℕ) (k : ℕ) (cs : List RetrievedChunk) (question : Text) (w : W)
      → IsRanked Held ids k cs
      → Returns
          (IsAcross Held ids k)
          (answer_across python json_dumps uuid_str default_model generate cs question w)
  unfolding answer_from IsRanked
  answer_across-IsAcross ids k [] question w h = ((tt, tt, refl), refl, h.0)
  answer_across-IsAcross ids k (c ∷ cs) question w h =
      Returns-after (IsAcross Held ids k)
        (generate_answer python json_dumps uuid_str default_model generate default_model _ w) _
        (λ text w1. (
          answered-IsSound Held ids text (c ∷ cs) none h.2,
          refl,
          omega (arith, length-to_source_chunks 1 (c ∷ cs), h.0),
        ))

  retrieve_accessible-IsRanked :
      (question : Text) (ids : List ℕ) (k : ℕ) (w : W)
      → Returns (IsRanked Held ids k) (
          retrieve_accessible postgres python json_dumps uuid_str search default_model generate
            question ids k w)
  unfolding IsRanked
  retrieve_accessible-IsRanked question [] k w = (omega arith, tt, tt)
  retrieve_accessible-IsRanked question (p ∷ ps) k w =
      retrieve_multi-IsRanked search Held held (p ∷ ps) question (p ∷ ps) k w

  -- Where a query of a collection returns only points that the collection holds: an answer to a
  -- question across projects cites at most `top_k` chunks, each of an accessible project and held by
  -- that project's own collection, labels them S1, S2, ... in their order, names no belief state,
  -- and is marked grounded exactly when it has a source.
  pub query_cross_project-IsAcross :
      (question : Text) (ids : List ℕ) (k : ℕ) (w : W) {r : QueryResponse}
      → (query_cross_project postgres python json_dumps uuid_str search default_model generate
          question ids k w).0
        ≡ ok r
      → IsAcross Held ids k r
  unfolding query_cross_project
  query_cross_project-IsAcross question ids k w e =
      Returns-ok (IsAcross Held ids k)
        (query_cross_project postgres python json_dumps uuid_str search default_model generate
          question ids k w)
        (Returns-guard (IsAcross Held ids k) (is_invalid question) invalid_query _ w (λ valid.
          Returns-continue (IsRanked Held ids k) (IsAcross Held ids k)
            (retrieve_accessible postgres python json_dumps uuid_str search default_model generate
              question ids k w)
            (λ cs. answer_across python json_dumps uuid_str default_model generate cs question)
            (retrieve_accessible-IsRanked question ids k w)
            (λ cs w1 h. answer_across-IsAcross ids k cs question w1 h)))
        e
