-- ===== src/Samples/Collection.antt =====
-- A Qdrant with one collection, which is the world: a point replaces the point of its identifier,
-- and a collection with no points counts as missing. A vector is the length of a text.
use terrible_naming_conventi.Base.{
  ℕ, ◌≡◌, refl, Bool, true, false, not, ◌&&◌, List, [], ◌∷◌, ◌++◌, map, any, filter, length, ◌==◌,
  All, All-append, All-filter_both, All-map, codes,
}
use terrible_naming_conventi.Errors.{ok}
use terrible_naming_conventi.Vectors.{PointStruct, Qdrant, Indexer, NamedChunk, EmbeddingResult}
use terrible_naming_conventi.Vectors.Owned.{IsStore}

abbrev pub Points : Type 0
Points = List (PointStruct ℕ ℕ)

abbrev is_present : Points → Bool
is_present [] = false
is_present (x ∷ xs) = true

abbrev has_same_id : PointStruct ℕ ℕ → PointStruct ℕ ℕ → Bool
has_same_id x y = x.id.0 == y.id.0 && x.id.1 == y.id.1

abbrev put : Points → Points → Points
put new old = new ++ filter (λ x. not (any (has_same_id x) new)) old

abbrev pub collection : Qdrant Points ℕ ℕ
collection = record {
  client = record {
    collection_exists = λ p w. (ok (is_present w), w);
    delete_collection = λ p w. (ok tt, []);
  };
  create_collection = λ p w. (ok tt, w);
  upsert_points = λ p new w. (ok tt, put new w);
  query_dense = λ p v k w. (ok [], w);
}

abbrev pub embedded : NamedChunk → EmbeddingResult ℕ
embedded c = record { chunk = c; vector = length c.chunk.text }

abbrev pub indexer : Indexer Points ℕ ℕ
indexer = record {
  embed = λ cs w. (ok (map embedded cs), w);
  embed_sparse = λ cs w. (ok (map embedded cs), w);
  decode_utf8 = λ content. ok content;
  get_pages = λ content. ok (content ∷ []);
  default_chunk_size = 2;
  default_chunk_overlap = 1;
  default_chunking_strategy = codes "naive";
}

absent : (w : Points) → ok (is_present w) ≡ ok false → w ≡ []
absent [] h = refl
absent (x ∷ xs) h = cc

put-All :
    (P : PointStruct ℕ ℕ → Type 0) (new old : Points) → All P old → All P new → All P (put new old)
put-All P new old h k = All-append P new _ k (
    All-map _ P _ (λ x both. both.1) (All-filter_both P (λ x. not (any (has_same_id x) new)) old h))

pub collection-IsStore : IsStore collection indexer (λ w p. w)
collection-IsStore = record {
  asked = λ p w. refl;
  missing = λ p w h. absent w h;
  deleted = λ p w h. refl;
  created = λ p w. refl;
  upserted = λ P p new w h k. put-All P new w h k;
  embedded = λ p cs w. refl;
  embedded_sparse = λ p cs w. refl;
}
