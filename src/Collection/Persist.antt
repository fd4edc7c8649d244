-- ===== src/Collection/Persist.antt =====
-- src/impl/core/collection.cpp: serialize and deserialize.
pub mod RoundTrip
use vector_db.Prelude.{
  ℕ, zero, suc, ◌+◌, List, [], ◌∷◌, ◌++◌, Option, none, some, Outcome, done, thrown, undefined,
  ◌>>=◌ as bind, Bytes, nat_key, bytes_key, length,
}
use vector_db.Stream.{
  Reader, ◌>>=◌, pure, get_u32, get_u64, get_string, put_u8, put_u32, put_u64, put_string, put_all,
}
use vector_db.Stream
use vector_db.Assoc.{emplace, assign}
use vector_db.FloatVector.{FloatVector, serialize as serialize_vector}
use vector_db.FloatVector.Reading.{deserialize as read_vector}
use vector_db.Vectors.{Vectors}
use vector_db.Index.{Params, type_of, index_type_code, put_params}
use vector_db.Index.Reading.{deserialize as read_index}
use vector_db.Index.Interface.{IndexClass}
use vector_db.Collection.{Collection, new_collection}

pub put_vectors : Vectors → Outcome Bytes
put_vectors [] = done []
put_vectors ((id, v) ∷ rest) =
    bind (serialize_vector v)
      λ bytes. bind (put_vectors rest) λ more. done (put_u64 id ++ (bytes ++ more))

pub get_vectors : ℕ → Vectors → Reader Vectors
get_vectors zero m = pure m
get_vectors (suc n) m = do id ← get_u64; v ← read_vector; get_vectors n (emplace id v m)

module _ {D : Type 0} (C : IndexClass D) where
  open C use {Index, make, init, get_params}

  -- No index is of unknown type, so none is passed over.
  abbrev pub put_indices : List (Bytes × Index) → Bytes
  put_indices [] = []
  put_indices ((name, i) ∷ rest) =
      put_string name
      ++ ((put_u8 (index_type_code (type_of (get_params i))) ++ put_params (get_params i))
          ++ put_indices rest)

  unfoldable pub serialize : Collection C → Outcome Bytes
  unfolding put_vectors
  serialize c = bind (put_vectors c.vectors) λ vectors. done (
      put_string c.name
      ++ (put_u32 c.dimension
          ++ (put_u32 (length c.vectors)
              ++ (vectors ++ (put_u32 (length c.indices) ++ put_indices c.indices)))))

  -- `init` takes no bytes.
  abbrev pub lift : Outcome Index → Reader Index
  lift o bs = bind o λ i. done (i, bs)

  -- The body of the loop once the name is read: a null pointer is passed over.
  abbrev pub next_index {κ} :
      {R : Type κ}
      → (Params → Outcome Index)
      → (Index → Reader R)
      → Reader R
      → Option Params
      → Reader R
  next_index build put skip none = skip
  next_index build put skip (some p) = lift (build p) >>= put

  -- `draws n` are the levels for the index that is read when `n` more are to come.
  pub get_indices : (ℕ → ℕ → ℕ) → ℕ → Vectors → List (Bytes × Index) → Reader (List (Bytes × Index))
  get_indices draws zero vectors m = pure m
  get_indices draws (suc n) vectors m = do
    name ← get_string
    read ← read_index
    next_index (λ p. init vectors (make (draws n) p))
        (λ i. get_indices draws n vectors (assign name i m)) (get_indices draws n vectors m) read

  unfoldable pub deserialize : (ℕ → ℕ → ℕ) → Reader (Collection C)
  unfolding get_vectors get_indices
  deserialize draws = do
    name ← get_string
    dimension ← get_u32
    vec_count ← get_u32
    vectors ← get_vectors vec_count []
    idx_count ← get_u32
    indices ← get_indices draws idx_count vectors []
    pure (record { dimension = dimension; name = name; vectors = vectors; indices = indices })
