-- ===== src/Tests/Values.antt =====
-- Names, float vectors, distances and index parameters.
use vector_db.Prelude.{
  ℕ, ◌≤◌, ◌<◌, ◌≡◌, ◌≢◌, ◌↔◌, ◌⊎◌, refl, [], ◌∷◌, ◌++◌, none, some, done, undefined, Bool, true,
  Bytes, length, All, arith,
}
use vector_db.Status.{success, collection_name_cant_be_empty, collection_name_invalid_characters}
use vector_db.Name.{is_collection_name_valid}
use vector_db.Name.Validity.{NameChar, is_collection_name_valid_iff}
use vector_db.Stream.{put_u8}
use vector_db.FloatVector.{serialize, copy_assign, equals}
use vector_db.FloatVector.Reading.{deserialize as read_vector}
use vector_db.FloatVector.Values.{copy_assign_iff, equals_iff}
use vector_db.FloatVector.RoundTrip.{IsStorable, deserialize-serialize}
use vector_db.Distance.{cosine, euclidean, inner_product, compute}
use vector_db.Distance.Laws.{compute_defined, compute_symm}
use vector_db.Distance.Whole.{whole, whole-IsSymmetric}
use vector_db.Index.{of_hnsw, put_params}
use vector_db.Index.Reading.{deserialize as read_index}
use vector_db.Index.RoundTrip.{deserialize-put_params}
use vector_db.Tests.Fixtures.{pair, tagged, docs, layered}

names_run :
    (is_collection_name_valid docs ≡ success)
    × (is_collection_name_valid [] ≡ collection_name_cant_be_empty)
    × (is_collection_name_valid (b'a' ∷ b'-' ∷ []) ≡ collection_name_invalid_characters)
unfolding is_collection_name_valid
names_run = (refl, refl, refl)

is_collection_name_valid_iff_example :
    (is_collection_name_valid docs ≡ success)
    ↔ ((1 ≤ length docs) × (length docs ≤ 128) × All NameChar docs)
is_collection_name_valid_iff_example = (is_collection_name_valid_iff docs).0

tagged-IsStorable : IsStorable tagged
tagged-IsStorable = omega arith

deserialize-serialize_example :
    (bs : Bytes) × (serialize tagged ≡ done bs)
    × ((rest : Bytes) → read_vector (bs ++ rest) ≡ done (tagged, rest))
deserialize-serialize_example = deserialize-serialize tagged tagged-IsStorable

vector_runs : (bs : Bytes) × (serialize tagged ≡ done bs) × (read_vector bs ≡ done (tagged, []))
unfolding serialize read_vector
vector_runs = (
  2 ∷ 0 ∷ 0 ∷ 0 ∷ 3 ∷ 0 ∷ 0 ∷ 0 ∷ 4 ∷ 0 ∷ 0 ∷ 0 ∷ 1 ∷ 1 ∷ 0 ∷ 0 ∷ 0 ∷ 1 ∷ 0 ∷ 0 ∷ 0 ∷ b'k' ∷ 2 ∷ 0
      ∷ 0 ∷ 0 ∷ b'v' ∷ b'w' ∷ [],
  refl,
  refl,
)

copy_assign_iff_example :
    (copy_assign tagged (pair 1 2) ≡ done (pair 1 2))
    ↔ (((pair 1 2).metadata ≢ none) ⊎ (tagged.metadata ≡ none))
copy_assign_iff_example = copy_assign_iff tagged (pair 1 2) (omega arith)

copy_assign_keeps :
    copy_assign tagged (pair 1 2) ≡ done (record (pair 1 2) { metadata = tagged.metadata })
unfolding copy_assign
copy_assign_keeps = refl

equals_iff_example :
    (b : Bool) × (equals (pair 3 4) tagged ≡ done b)
    × ((b ≡ true)
        ↔ (((pair 3 4).dimension ≡ tagged.dimension) × ((pair 3 4).elements ≡ tagged.elements)))
equals_iff_example = equals_iff (pair 3 4) tagged (omega arith) (omega arith)

distances_run :
    (compute {D = ℕ} euclidean (pair 1 2) (pair 4 6) ≡ done 25)
    × (compute {D = ℕ} inner_product (pair 1 2) (pair 4 6) ≡ done 16)
unfolding compute
distances_run = (refl, refl)

compute_defined_example :
    ((2 ≤ 2) → (2 ≤ 2) → (r : ℕ) × (compute cosine (pair 1 2) (pair 4 6) ≡ done r))
    × ((2 < 2) → compute {D = ℕ} cosine (pair 1 2) (pair 4 6) ≡ undefined)
compute_defined_example = compute_defined cosine (pair 1 2) (pair 4 6) (λ e. cc)

compute_symm_example :
    compute {D = ℕ} cosine (pair 1 2) (pair 4 6) ≡ compute cosine (pair 4 6) (pair 1 2)
compute_symm_example = compute_symm whole-IsSymmetric cosine (pair 1 2) (pair 4 6) refl

deserialize-put_params_example :
    read_index ((put_u8 1 ++ put_params (of_hnsw layered)) ++ (5 ∷ []))
    ≡ done (some (of_hnsw layered), 5 ∷ [])
deserialize-put_params_example = deserialize-put_params (of_hnsw layered) (ground arith) (5 ∷ [])
