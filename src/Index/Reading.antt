-- ===== src/Index/Reading.antt =====
-- src/impl/core/indices/index.cpp: index_t::deserialize, with the two `params::deserialize`. The index that
-- it makes from the parameters is left to the caller.
use vector_db.Prelude.{
  ℕ, Option, none, some, Outcome, done, thrown, undefined, if◌then◌else◌, nat_eq,
}
use vector_db.Stream.{Reader, ◌>>=◌, pure, get_u8, get_u32, get_u64}
use vector_db.Stream
use vector_db.Distance.{DistType, cosine, euclidean, inner_product, unknown}
use vector_db.Index.{
  IndexType, ivf_flat, hnsw, unknown_index, Params, of_hnsw, of_ivf, HnswParams, hnsw_params,
}

-- The byte as a `dist_type`. A byte that names no enumerator has no instance either.
abbrev pub dist_type_of : ℕ → DistType
dist_type_of b =
    if nat_eq b 0
    then cosine
    else if nat_eq b 1
    then euclidean
    else if nat_eq b 2
    then inner_product
    else unknown

abbrev pub get_dist_type : Reader DistType
get_dist_type = do b ← get_u8; pure (dist_type_of b)

abbrev pub index_type_of : ℕ → IndexType
index_type_of b = if nat_eq b 1 then hnsw else if nat_eq b 0 then ivf_flat else unknown_index

abbrev pub get_index_type : Reader IndexType
get_index_type = do b ← get_u8; pure (index_type_of b)

-- The constructor may throw.
abbrev pub construct : Outcome HnswParams → Reader Params
construct (done p) = pure (of_hnsw p)
construct thrown = λ bs. thrown
construct undefined = λ bs. undefined

abbrev pub get_hnsw_params : Reader Params
get_hnsw_params = do
  dist_type ← get_dist_type
  m ← get_u32
  ef_construction ← get_u32
  ef_search ← get_u32
  construct (hnsw_params dist_type m ef_construction ef_search)

abbrev pub get_ivf_params : Reader Params
get_ivf_params = do
  dist_type ← get_dist_type
  k ← get_u32
  n_probe ← get_u32
  rebuild_threshold ← get_u64
  pure (
      of_ivf (record {
        dist_type = dist_type;
        k = k;
        n_probe = n_probe;
        rebuild_threshold = rebuild_threshold;
      }))

abbrev pub get_params : IndexType → Reader (Option Params)
get_params hnsw = do p ← get_hnsw_params; pure (some p)
get_params ivf_flat = do p ← get_ivf_params; pure (some p)
get_params unknown_index = pure none

-- `none` is the null pointer.
unfoldable pub deserialize : Reader (Option Params)
unfolding Stream.get_le hnsw_params
deserialize = do t ← get_index_type; get_params t
