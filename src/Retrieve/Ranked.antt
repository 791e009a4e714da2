-- ===== src/Retrieve/Ranked.antt =====
-- What the retrieval returns (backend/app/retrieval/retriever.py).
use terrible_naming_conventi.Base.{
  ℕ, ◌≡◌, ◌≤◌, Option, none, some, Bool, true, false, refl, not, ◌*◌, List, [], ◌∷◌, All,
  All-append, All-permᴰ, contains, take, length, length-take, arith,
}
use terrible_naming_conventi.Errors.{Result, ok, err, access_denied}
use terrible_naming_conventi.Act.{Returns, Returns-continue, Returns-after, Returns-guard}
use terrible_naming_conventi.Models.{Text, IsDescending}
use terrible_naming_conventi.Prompting.{RetrievedChunk}
use terrible_naming_conventi.Sorting.{
  arrange, arrange-perm, arrange-IsDescending, take-IsDescending, All-take, down,
}
use terrible_naming_conventi.Retrieve.{
  ScoredPoint, Payload, chunk_of, to_chunk, to_chunks, is_denied, Search, as_qdrant_error,
  query_existing, hybrid_search, retrieve, gather, retrieve_multi,
}
use mathlib.Core.List.Permᴰ

-- `Held p payload` says that the collection of the project p holds a point with the payload. What
-- the model relies on: a query of a collection returns points that the collection holds.
abbrev pub IsHeld : (ℕ → Payload → Type 0) → ℕ → ScoredPoint → Type 0
IsHeld Held p point = (payload : Payload) → point.payload ≡ some payload → Held p payload

abbrev pub ReturnsHeld :
    {W Dense Sparse : Type 0} → (ℕ → Payload → Type 0) → Search W Dense Sparse → Type 0
ReturnsHeld {W = W} {Dense = Dense} {Sparse = Sparse} Held search =
    (p : ℕ) (dense : Dense) (sparse : Sparse) (fetch limit : ℕ) (w : W)
    → Returns (All (IsHeld Held p)) (search.query_points p dense sparse fetch limit w)

-- The chunk is of one of the projects, and that project's own collection holds it.
abbrev pub IsFrom : (ℕ → Payload → Type 0) → List ℕ → RetrievedChunk → Type 0
IsFrom Held ids c =
    (contains c.project_id ids ≡ true)
    × (payload : Payload) × Held c.project_id payload
    × (payload.document_id ≡ c.document_id)
    × (payload.chunk_index ≡ c.chunk_index)
    × (payload.text ≡ c.text)
    × (payload.filename ≡ c.filename)

module _ {W : Type 0} (Held : ℕ → Payload → Type 0) where
  chunk_of-IsFrom :
      (pid score : ℕ) (ids : List ℕ) (payload : Option Payload) (w : W)
      → contains pid ids ≡ true
      → ((p : Payload) → payload ≡ some p → Held pid p)
      → Returns (IsFrom Held ids) (chunk_of pid score payload w)
  chunk_of-IsFrom pid score ids none w h held = tt
  chunk_of-IsFrom pid score ids (some p) w h held = (h, p, held p refl, refl, refl, refl, refl)

  to_chunks-IsFrom :
      (pid : ℕ) (ids : List ℕ) (points : List ScoredPoint) (w : W)
      → contains pid ids ≡ true
      → All (IsHeld Held pid) points
      → Returns (All (IsFrom Held ids)) (to_chunks pid points w)
  unfolding to_chunks
  to_chunks-IsFrom pid ids [] w h held = tt
  to_chunks-IsFrom pid ids (point ∷ points) w h held =
      Returns-continue (IsFrom Held ids) (All (IsFrom Held ids)) (to_chunk pid point w) _
        (chunk_of-IsFrom pid point.score ids point.payload w h held.0)
        (λ c w' hc.
          Returns-continue (All (IsFrom Held ids)) (All (IsFrom Held ids)) (to_chunks pid points w')
            _ (to_chunks-IsFrom pid ids points w' h held.1) (λ cs w'' hs. (hc, hs)))

as_qdrant_error-Returns :
    {W A : Type 0} (P : A → Type 0) (p : Result A × W) → Returns P p → Returns P (as_qdrant_error p)
as_qdrant_error-Returns P (ok a, w) h = h
as_qdrant_error-Returns P (err e, w) h = tt

-- At most k chunks, each held by the collection of one of the projects, by descending score.
unfoldable pub IsRanked : (ℕ → Payload → Type 0) → List ℕ → ℕ → List RetrievedChunk → Type 0
IsRanked Held ids k cs =
    (length cs ≤ k) × IsDescending (λ (c : RetrievedChunk). c.score) cs × All (IsFrom Held ids) cs

best-IsRanked :
    (Held : ℕ → Payload → Type 0) (ids : List ℕ) (k : ℕ) (cs : List RetrievedChunk)
    → All (IsFrom Held ids) cs
    → IsRanked Held ids k (take k (arrange (down (λ (c : RetrievedChunk). c.score)) cs))
unfolding IsRanked
best-IsRanked Held ids k cs h =
    let key = λ (c : RetrievedChunk). c.score in
    let sorted = arrange (down key) cs in
    (
      omega (arith, length-take k sorted),
      take-IsDescending key k sorted (arrange-IsDescending key cs),
      All-take (IsFrom Held ids) k sorted
          (All-permᴰ (IsFrom Held ids) (Permᴰ.symm (arrange-perm (down key) cs)) h),
    )

module _ {W Dense Sparse : Type 0} (search : Search W Dense Sparse) (Held : ℕ → Payload → Type 0)
    (held : ReturnsHeld Held search) where
  hybrid_search-IsHeld :
      (pid : ℕ) (dense : Dense) (sparse : Sparse) (k : ℕ) (w : W)
      → Returns (All (IsHeld Held pid)) (hybrid_search search pid dense sparse k w)
  unfolding hybrid_search
  hybrid_search-IsHeld pid dense sparse k w =
      as_qdrant_error-Returns (All (IsHeld Held pid)) _
        (Returns-after (All (IsHeld Held pid)) (search.collection_exists pid w) _ searched)
    where
      searched :
          (exists : Bool) (w' : W)
          → Returns (All (IsHeld Held pid)) (query_existing search pid dense sparse k exists w')
      searched true w' = held pid dense sparse (k * 3) k w'
      searched false w' = tt

  -- The chunks are of the project asked for, which is accessible, so of any projects with that one.
  pub retrieve-IsFrom :
      (pid : ℕ) (q : Text) (ids : List ℕ) (k : ℕ) (within : List ℕ) (w : W)
      → (contains pid ids ≡ true → contains pid within ≡ true)
      → Returns (All (IsFrom Held within)) (retrieve search pid q ids k w)
  unfolding retrieve
  retrieve-IsFrom pid q ids k within w inside =
      Returns-guard (All (IsFrom Held within)) (not (contains pid ids)) access_denied _ w (λ t.
        Returns-after (All (IsFrom Held within)) (search.embed_dense q w) _ (λ dense w1.
          Returns-after (All (IsFrom Held within)) (search.embed_sparse q w1) _ (λ sparse w2.
            Returns-continue (All (IsHeld Held pid)) (All (IsFrom Held within))
              (hybrid_search search pid dense sparse k w2) _
              (hybrid_search-IsHeld pid dense sparse k w2)
              (λ points w3 hs.
                to_chunks-IsFrom Held pid within points w3 (inside (ground arith)) hs))))

  gather-IsFrom :
      (pids : List ℕ) (q : Text) (ids : List ℕ) (k : ℕ) (w : W)
      → Returns (All (IsFrom Held ids)) (gather search pids q ids k w)
  unfolding gather
  gather-IsFrom [] q ids k w = tt
  gather-IsFrom (p ∷ ps) q ids k w =
      Returns-continue (All (IsFrom Held ids)) (All (IsFrom Held ids)) (retrieve search p q ids k w)
        _ (retrieve-IsFrom p q ids k ids w (λ h. h))
        (λ xs w1 hx.
          Returns-continue (All (IsFrom Held ids)) (All (IsFrom Held ids))
            (gather search ps q ids k w1) _ (gather-IsFrom ps q ids k w1)
            (λ ys w2 hy. All-append (IsFrom Held ids) xs ys hx hy))

  pub retrieve_multi-IsRanked :
      (pids : List ℕ) (q : Text) (ids : List ℕ) (k : ℕ) (w : W)
      → Returns (IsRanked Held ids k) (retrieve_multi search pids q ids k w)
  unfolding retrieve_multi
  retrieve_multi-IsRanked pids q ids k w =
      Returns-guard (IsRanked Held ids k) (is_denied pids ids) access_denied _ w (λ t.
        Returns-continue (All (IsFrom Held ids)) (IsRanked Held ids k)
          (gather search pids q ids k w) _ (gather-IsFrom pids q ids k w)
          (λ cs w1 h. best-IsRanked Held ids k cs h))
