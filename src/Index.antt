-- ===== src/Index.antt =====
-- src/include/core/indices/index.h, and the parameter records of hnsw.h and ivfflat.h.
pub mod Interface
pub mod Reading
pub mod RoundTrip
use vector_db.Prelude.{
  ℕ, ◌+◌, ◌*◌, ◌%◌, ◌^◌, List, [], ◌∷◌, ◌++◌, Bytes, Bool, Option, none, some, Outcome, done,
  thrown, undefined,
}
use vector_db.Stream.{put_u8, put_u32, put_u64}
use vector_db.Distance.{DistType, cosine, euclidean, inner_product, unknown}

pub data IndexType : Type 0 where
  ivf_flat : IndexType
  hnsw : IndexType
  unknown_index : IndexType

-- The underlying values of the two enumerations.
abbrev pub index_type_code : IndexType → ℕ
index_type_code ivf_flat = 0
index_type_code hnsw = 1
index_type_code unknown_index = 255

abbrev pub dist_type_code : DistType → ℕ
dist_type_code cosine = 0
dist_type_code euclidean = 1
dist_type_code inner_product = 2
dist_type_code unknown = 255

pub record HnswParams : Type 0 where
  pub dist_type : DistType
  pub m : ℕ
  pub m0 : ℕ
  pub ef_construction : ℕ
  pub ef_search : ℕ

-- `distance_` is the instance for `dist_type_`, and `ml_` is `1 / log(M_)`, which only the draws of
-- node levels use. The constructor throws where there is no such instance.
unfoldable pub hnsw_params : DistType → ℕ → ℕ → ℕ → Outcome HnswParams
hnsw_params unknown m ef_construction ef_search = thrown
hnsw_params dist_type m ef_construction ef_search = done (record {
  dist_type = dist_type;
  m = m;
  m0 = 2 * m % 2 ^ 32;
  ef_construction = ef_construction;
  ef_search = ef_search;
})

pub record IvfParams : Type 0 where
  pub dist_type : DistType
  pub k : ℕ
  pub n_probe : ℕ
  pub rebuild_threshold : ℕ

-- What a `params_t*` points to.
pub data Params : Type 0 where
  of_hnsw : HnswParams → Params
  of_ivf : IvfParams → Params

abbrev pub type_of : Params → IndexType
type_of (of_hnsw p) = hnsw
type_of (of_ivf p) = ivf_flat

-- `params::serialize`
unfoldable pub put_params : Params → Bytes
put_params (of_hnsw p) =
    put_u8 (dist_type_code p.dist_type)
    ++ (put_u32 p.m ++ (put_u32 p.ef_construction ++ put_u32 p.ef_search))
put_params (of_ivf p) =
    put_u8 (dist_type_code p.dist_type)
    ++ (put_u32 p.k ++ (put_u32 p.n_probe ++ put_u64 p.rebuild_threshold))
