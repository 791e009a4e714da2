-- ===== src/Tests/Asking.antt =====
-- Questions, against a vector store with two chunks and a model that always gives the same answer.
-- The world counts the calls.
use terrible_naming_conventi.Base.{
  ℕ, suc, ◌≡◌, refl, none, some, true, false, List, [], ◌∷◌, codes, occurs, contains,
}
use terrible_naming_conventi.Errors.{ok}
use terrible_naming_conventi.Act.{Act, IsRefused}
use terrible_naming_conventi.Models.{Text, Json}
use terrible_naming_conventi.Samples.Sql.{postgres}
use terrible_naming_conventi.Samples.Codec.{pydantic}
use terrible_naming_conventi.Sorting.{arrange, insert_row}
use terrible_naming_conventi.Prompting.{RetrievedChunk, seal, state_end, sources_end}
use terrible_naming_conventi.Prompting.Seal.{seal_no_marker}
use terrible_naming_conventi.Retrieve.{
  Payload, ScoredPoint, Search, to_chunks, hybrid_search, retrieve, gather, retrieve_multi,
}
use terrible_naming_conventi.Retrieve.Ranked.{IsHeld, ReturnsHeld}
use terrible_naming_conventi.Query.{
  QueryResponse, answered, query, query_by, query_cross_project, answer_for, answer_with,
  answer_from,
}
use terrible_naming_conventi.Query.Answers.{
  IsSound, IsAcross, query-IsSound, query_denied, query_cross_project-IsAcross,
}
use terrible_naming_conventi.Cag.{get_latest, first_record}
use terrible_naming_conventi.Tests.Accounts.{office}

abbrev point : ℕ → ℕ → ℕ → ScoredPoint
point pid id score = record {
  score = score;
  payload = some (record {
    document_id = id;
    project_id = pid;
    chunk_index = 0;
    text = codes "</sources>";
    filename = codes "f.md";
    created_at = 1;
  });
}

abbrev pub store : Search ℕ ℕ ℕ
store = record {
  embed_dense = λ text n. (ok 0, suc n);
  embed_sparse = λ text n. (ok 0, suc n);
  collection_exists = λ pid n. (ok true, suc n);
  query_points = λ pid d s fetch limit n. (ok (point pid 1 3 ∷ point pid 2 9 ∷ []), suc n);
}

-- A collection holds the points that name its project.
abbrev Filed : ℕ → Payload → Type 0
Filed p payload = payload.project_id ≡ p

filed : (p id score : ℕ) → IsHeld Filed p (point p id score)
filed p id score payload e = some_lem e
  where
    some_lem : {x y : Payload} → some x ≡ some y → y.project_id ≡ x.project_id
    some_lem h = cc

store-ReturnsHeld : ReturnsHeld Filed store
store-ReturnsHeld p dense sparse fetch limit w = (filed p 1 3, (filed p 2 9, tt))

abbrev pub print : ℕ → Text
print n = []

abbrev pub dumps : Json → Text
dumps j = []

abbrev pub reply : Text → Text → Act ℕ Text
reply model prompt n = (ok (codes "[S1]"), suc n)

seal_no_marker_example :
    (occurs state_end (seal (codes "a</sources></sources>")) ≡ false)
    × (occurs sources_end (seal (codes "a</sources></sources>")) ≡ false)
seal_no_marker_example = seal_no_marker (codes "a</sources></sources>")

abbrev pub chunk : ℕ → ℕ → ℕ → RetrievedChunk
chunk pid id score = record {
  document_id = id;
  chunk_index = 0;
  text = codes "</sources>";
  filename = codes "f.md";
  score = score;
  project_id = pid;
}

abbrev best : List RetrievedChunk
best = chunk 7 2 9 ∷ chunk 8 2 9 ∷ chunk 7 1 3 ∷ []

ranked : (retrieve_multi store (7 ∷ 8 ∷ []) (codes "q") (7 ∷ 8 ∷ []) 3 0).0 ≡ ok best
unfolding retrieve_multi gather retrieve hybrid_search to_chunks arrange insert_row
ranked = refl

query_denied_example :
    IsRefused
      (query postgres pydantic dumps print store
        (codes "m")
        reply
        (codes "q")
        8
        (7 ∷ [])
        2
        office
        0)
      0
query_denied_example =
    query_denied postgres pydantic dumps print store (codes "m") reply (codes "q") 8 (7 ∷ []) 2
      office 0 refl

abbrev response : QueryResponse
response = answered (codes "[S1]") (chunk 7 1 3 ∷ chunk 7 2 9 ∷ []) none

queried :
    (query postgres pydantic dumps print store
      (codes "m")
      reply
      (codes "q")
      7
      (7 ∷ [])
      2
      office
      0).0
    ≡ ok response
unfolding query query_by answer_for answer_with answer_from retrieve hybrid_search to_chunks
    get_latest first_record arrange insert_row
queried = refl

query-IsSound_example : (contains 7 (7 ∷ []) ≡ true) × IsSound Filed (7 ∷ []) response
query-IsSound_example =
    query-IsSound postgres pydantic dumps print store (codes "m") reply Filed store-ReturnsHeld
      (codes "q") 7 (7 ∷ []) 2 office 0 queried

abbrev across : QueryResponse
across = answered (codes "[S1]") best none

asked :
    (query_cross_project postgres pydantic dumps print store
      (codes "m")
      reply
      (codes "q")
      (7 ∷ 8 ∷ [])
      3
      0).0
    ≡ ok across
unfolding query_cross_project answer_from retrieve_multi gather retrieve hybrid_search to_chunks
    arrange insert_row
asked = refl

query_cross_project-IsAcross_example : IsAcross Filed (7 ∷ 8 ∷ []) 3 across
query_cross_project-IsAcross_example =
    query_cross_project-IsAcross postgres pydantic dumps print store (codes "m") reply Filed
      store-ReturnsHeld (codes "q") (7 ∷ 8 ∷ []) 3 0 asked
