-- ===== src/Vectors/Owners.antt =====
-- Of which documents the points of a collection are (backend/app/workers/maintenance.py).
use terrible_naming_conventi.Base.{
  ℕ, ◌≡◌, true, Bool-cases, inl, inr, List, [], ◌∷◌, map, filter, contains, ◌==◌, Some, arith,
}
use terrible_naming_conventi.Models.{Db, Document}
use terrible_naming_conventi.Vectors.{PointStruct}

-- The point is of a document that the tables have in the project, and has its identifier.
abbrev pub IsOf : {Dense Sparse : Type 0} → ℕ → Db → PointStruct Dense Sparse → Type 0
IsOf project_id db x =
    Some (λ (d : Document). (d.id ≡ x.payload.document_id) × (d.project_id ≡ project_id))
      db.documents
    × (x.payload.project_id ≡ project_id)
    × (x.id ≡ (x.payload.document_id, x.payload.chunk_index))

pub owner_exists :
    (project_id k : ℕ) (documents : List Document)
    → contains k (
        map
          (λ (d : Document). d.id)
          (filter (λ (d : Document). d.project_id == project_id) documents))
      ≡ true
    → Some (λ (d : Document). (d.id ≡ k) × (d.project_id ≡ project_id)) documents
owner_exists project_id k [] h = absurd (ground (arith, h))
owner_exists project_id k (d ∷ ds) h = elim (Bool-cases (d.project_id == project_id)) [
  | inl mine ↦
      let here = rw mine at h in
      elim (Bool-cases (k == d.id)) [
        | inl same ↦ inl (ground arith, ground arith)
        | inr other ↦ inr (owner_exists project_id k ds (rw other at here))
      ]
  | inr foreign ↦ inr (owner_exists project_id k ds (rw foreign at h))
]
