-- ===== src/Eval/Pinned.antt =====
-- Both arms of the evaluation (eval/run_eval.py) are given the same chunks.
use terrible_naming_conventi.Base.{
  ℕ, ◌≡◌, refl, ap, sym, ◌∙◌, subst, Option, none, some, true, false, List, [], ◌∷◌, map,
  same_text_refl, arith,
}
use terrible_naming_conventi.Errors.{Result, ok-injective, ok, err, invalid_query, raise_if}
use terrible_naming_conventi.Act.{Act, Ends, Ends-continue, continue, pure, lift}
use terrible_naming_conventi.Models.{Text, Json, Db, Postgres, Project}
use terrible_naming_conventi.Schema.{Pydantic, BeliefStateRecord}
use terrible_naming_conventi.Cag.{get_latest}
use terrible_naming_conventi.Prompting.{RetrievedChunk}
use terrible_naming_conventi.Retrieve.{Search, retrieve}
use terrible_naming_conventi.Query.{
  SourceChunk, QueryResponse, to_source_chunks, answered, as_query_generation, query_by, answer_for,
  answer_with, answer_or_none, answer_from, is_invalid, ignore_corrupt, get_project, query_model,
}
use terrible_naming_conventi.Eval.{Question}
use terrible_naming_conventi.Eval.Arms.{
  Cache, cached_for, beside, remember, retrieve_once, deterministic_retrieve, chunk_keys, same_keys,
  to_arm_result, no_latest, ask, run_two_arms,
}

-- What an action that returns has returned and left.
abbrev Gave : {W A : Type 0} → (A → W → Type 0) → Result A × W → Type 0
Gave P p = Ends P (λ e w. Unit) p

Gave-mono :
    {W A : Type 0} (P Q : A → W → Type 0) (p : Result A × W)
    → ((a : A) (w : W) → P a w → Q a w)
    → Gave P p
    → Gave Q p
Gave-mono P Q (ok a, w) f h = f a w h
Gave-mono P Q (err e, w) f h = tt

Gave-lift :
    {W A B : Type 0} (P : B → W → Type 0) (r : Result A) (f : A → Act W B) (w : W)
    → ((a : A) → r ≡ ok a → Gave P (f a w))
    → Gave P (continue (lift r w) f)
Gave-lift P (ok a) f w h = h a refl
Gave-lift P (err e) f w h = tt

-- The retrieval for the key is remembered in the state.
abbrev pub IsCached : {W : Type 0} → ℕ → Text → ℕ → List RetrievedChunk → Cache × W → Type 0
IsCached pid q k cs state = cached_for pid q k state.0 ≡ some cs

module _ {W : Type 0} (real_retrieve : ℕ → Text → List ℕ → ℕ → Act W (List RetrievedChunk))
    (pid : ℕ) (q : Text) (ids : List ℕ) (k : ℕ) where
  remember-IsCached :
      (p : Result (List RetrievedChunk) × (Cache × W))
      → Gave (IsCached pid q k) (remember real_retrieve pid q k p)
  unfolding cached_for
  remember-IsCached (err e, s) = tt
  remember-IsCached (ok cs, s) = ground (arith, same_text_refl q)

  retrieve_once-IsCached :
      (s : Cache × W) (o : Option (List RetrievedChunk))
      → cached_for pid q k s.0 ≡ o
      → Gave (IsCached pid q k) (retrieve_once real_retrieve pid q ids k o s)
  retrieve_once-IsCached s none h = remember-IsCached (beside (real_retrieve pid q ids k) s)
  retrieve_once-IsCached s (some cs) h = h

  retrieve-IsCached :
      (s : Cache × W) → Gave (IsCached pid q k) (deterministic_retrieve real_retrieve pid q ids k s)
  unfolding deterministic_retrieve
  retrieve-IsCached s = retrieve_once-IsCached s (cached_for pid q k s.0) refl

  retrieve_again :
      (s : Cache × W) (cs : List RetrievedChunk)
      → IsCached pid q k cs s
      → deterministic_retrieve real_retrieve pid q ids k s ≡ (ok cs, s)
  unfolding deterministic_retrieve
  retrieve_again s cs h = rw h refl

module _ (python : Pydantic) (json_dumps : Json → Text) (uuid_str : ℕ → Text) {W : Type 0}
    (default_model : Text) (generate : Text → Text → Act W Text)
    (Q : List RetrievedChunk → Cache × W → Type 0)
    (kept : (cs : List RetrievedChunk) (cache : Cache) (w w' : W)
      → Q cs (cache, w)
      → Q cs (cache, w')) where
  abbrev model_call : Text → Text → Act (Cache × W) Text
  model_call model prompt = beside (generate model prompt)

  -- The sources are made of chunks of which Q holds, and without a belief state none is named.
  abbrev pub Cites : Option BeliefStateRecord → QueryResponse → Cache × W → Type 0
  Cites b r s =
      (cs : List RetrievedChunk) × (r.sources ≡ to_source_chunks 1 cs)
      × Q cs s
      × (b ≡ none → r.belief_state_version ≡ none)

  asked_Cites :
      (b : Option BeliefStateRecord) (cs : List RetrievedChunk) (cache : Cache) (w : W)
      (p : Result Text × W)
      → Q cs (cache, w)
      → Gave
          (Cites b)
          (continue (as_query_generation (p.0, (cache, p.1))) (λ text. pure (answered text cs b)))
  asked_Cites b cs cache w (ok text, w') h = (cs, refl, kept cs cache w w' h, λ e. rw e refl)
  asked_Cites b cs cache w (err e, w') h = tt

  answer_from-Cites :
      (model : Text) (b : Option BeliefStateRecord) (cs : List RetrievedChunk) (question : Text)
      (s : Cache × W)
      → Q cs s
      → Gave (Cites b) (
          answer_from python json_dumps uuid_str default_model model_call model false b cs question
            s)
  unfolding answer_from
  answer_from-Cites model b cs question s h = asked_Cites b cs s.0 s.1 (generate model _ s.1) h

  answer_or_none-Cites :
      (model : Text) (b : Option BeliefStateRecord) (cs : List RetrievedChunk) (question : Text)
      (s : Cache × W)
      → Q cs s
      → Gave
          (Cites b)
          (answer_or_none python json_dumps uuid_str default_model model_call model b cs question s)
  answer_or_none-Cites model none [] question s h = ([], refl, h, λ e. refl)
  answer_or_none-Cites model (some b) [] question s h =
      answer_from-Cites model (some b) [] question s h
  answer_or_none-Cites model none (c ∷ cs) question s h =
      answer_from-Cites model none (c ∷ cs) question s h
  answer_or_none-Cites model (some b) (c ∷ cs) question s h =
      answer_from-Cites model (some b) (c ∷ cs) question s h

  module _ (retrieve_fn : ℕ → Text → List ℕ → ℕ → Act (Cache × W) (List RetrievedChunk))
      (latest : ℕ → Db → Result (Option BeliefStateRecord)) (q : Text) (pid : ℕ) (ids : List ℕ)
      (k : ℕ) (s : Cache × W) (found : Gave Q (retrieve_fn pid q ids k s)) where
    answer_with-Cites :
        (project : Project) (b : Option BeliefStateRecord)
        → Gave (Cites b) (
            answer_with python json_dumps uuid_str default_model model_call retrieve_fn latest q pid
              ids k project b s)
    unfolding answer_with
    answer_with-Cites project b =
        Ends-continue Q (Cites b) (λ e w. Unit) (retrieve_fn pid q ids k s)
          (λ cs.
            answer_or_none python json_dumps uuid_str default_model model_call
              (query_model default_model project) b cs q)
          found (λ cs s1 h. answer_or_none-Cites (query_model default_model project) b cs q s1 h)

    -- What a question cites; without a belief state none is named.
    abbrev pub CitesFor : Db → QueryResponse → Cache × W → Type 0
    CitesFor db r s' =
        (b : Option BeliefStateRecord) × (ignore_corrupt (latest pid db) ≡ ok b) × Cites b r s'

    query_by-Cites :
        (db : Db)
        → Gave (CitesFor db) (
            query_by python json_dumps uuid_str default_model model_call retrieve_fn latest q pid
              ids k db s)
    unfolding query_by answer_for
    query_by-Cites db =
        let service =
          answer_for python json_dumps uuid_str default_model model_call retrieve_fn latest q pid
            ids k db in
        Gave-lift (CitesFor db) (raise_if (is_invalid q) invalid_query)
          (λ valid s1. continue (lift (get_project pid db) s1) service) s
          (λ valid v. Gave-lift (CitesFor db) (get_project pid db) service s (λ project f.
            Gave-lift (CitesFor db) (ignore_corrupt (latest pid db))
              (answer_with python json_dumps uuid_str default_model model_call retrieve_fn latest q
                pid ids k project)
              s
              (λ b e.
                Gave-mono (Cites b) (CitesFor db)
                  (answer_with python json_dumps uuid_str default_model model_call retrieve_fn
                    latest q pid ids k project b s)
                  (λ r s' h. (b, e, h)) (answer_with-Cites project b))))

same_keys_refl : (ks : List (ℕ × ℕ)) → same_keys ks ks ≡ true
same_keys_refl [] = refl
same_keys_refl ((d, i) ∷ ks) = ground (arith, same_keys_refl ks)

module _ (postgres : Postgres) (python : Pydantic) (json_dumps : Json → Text) (uuid_str : ℕ → Text)
    {W Dense Sparse : Type 0} (search : Search W Dense Sparse) (default_model : Text)
    (generate : Text → Text → Act W Text) where
  -- An answered question of an arm cites chunks of which Q holds.
  ask-Cites :
      (Q : List RetrievedChunk → Cache × W → Type 0)
      (kept : (cs : List RetrievedChunk) (cache : Cache) (w w' : W)
        → Q cs (cache, w)
        → Q cs (cache, w'))
      (latest : ℕ → Db → Result (Option BeliefStateRecord)) (q : Text) (pid : ℕ) (ids : List ℕ)
      (k : ℕ) (db : Db) (s s1 : Cache × W) {r : QueryResponse}
      → Gave Q (deterministic_retrieve (retrieve search) pid q ids k s)
      → ask postgres python json_dumps uuid_str search default_model generate latest q pid ids k db
          s
        ≡ (ok r, s1)
      → (b : Option BeliefStateRecord) × (ignore_corrupt (latest pid db) ≡ ok b)
        × Cites python json_dumps uuid_str default_model generate Q kept b r s1
  unfolding ask
  ask-Cites Q kept latest q pid ids k db s s1 found h =
      let rf = deterministic_retrieve (retrieve search) in
      subst
        (Gave (
          CitesFor python json_dumps uuid_str default_model generate Q kept rf latest q pid ids k s
            found db))
        h
        (query_by-Cites python json_dumps uuid_str default_model generate Q kept rf latest q pid ids
          k s found db)

  -- Where both arms are answered, they are compared: the result of the question has both answers,
  -- with the same chunks, and the second arm names no belief state.
  pub run_two_arms_agree :
      (question : Question) (pid : ℕ) (ids : List ℕ) (k : ℕ) (db : Db) (s s1 s2 : Cache × W)
      {c r : QueryResponse}
      → ask postgres python json_dumps uuid_str search default_model generate
          (get_latest postgres python)
          question.question_text
          pid
          ids
          k
          db
          s
        ≡ (ok c, s1)
      → ask postgres python json_dumps uuid_str search default_model generate no_latest
          question.question_text pid ids k db s1
        ≡ (ok r, s2)
      → (run_two_arms postgres python json_dumps uuid_str search default_model generate question pid
            ids k db s
          ≡ (ok (to_arm_result c, (to_arm_result r, true)), s2))
        × ((to_arm_result c).chunks ≡ (to_arm_result r).chunks)
        × (r.belief_state_version ≡ none)
  unfolding run_two_arms
  run_two_arms_agree question pid ids k db s s1 s2 {c} {r} first second =
      let q = question.question_text in
      let (b, e, (cs, cites, held, named)) =
        ask-Cites (IsCached pid q k) (λ cs cache w w' h. h) (get_latest postgres python) q pid ids k
          db s s1 (retrieve-IsCached (retrieve search) pid q ids k s) first in
      let again = retrieve_again (retrieve search) pid q ids k s1 cs held in
      let (b', e', (ds, cites', same, unnamed)) =
        ask-Cites (λ ds s'. ds ≡ cs) (λ ds cache w w' h. h) no_latest q pid ids k db s1 s2
          (rw again refl) second in
      let equal : c.sources ≡ r.sources = cites ∙ ap (to_source_chunks 1) (sym same) ∙ sym cites' in
      let keys : same_keys (chunk_keys c) (chunk_keys r) ≡ true =
        subst
          (λ ss.
            same_keys (chunk_keys c) (map (λ (x : SourceChunk). (x.document_id, x.chunk_index)) ss)
            ≡ true)
          equal (same_keys_refl (chunk_keys c)) in
      (
        rw (first, second, keys) refl,
        ap
            (λ ss.
              map
                (λ (x : SourceChunk). record {
                  document_id = x.document_id;
                  chunk_index = x.chunk_index;
                  filename = x.filename;
                })
                ss)
            equal,
        unnamed (ok-injective (sym e')),
      )
