-- ===== src/Index/RoundTrip.antt =====
-- `index_t::deserialize` reads back the type and the parameters that a collection writes.
use vector_db.Prelude.{ℕ, ◌*◌, ◌%◌, ◌^◌, ◌<◌, ◌≡◌, ◌≢◌, refl, ap, ◌++◌, Bytes, some, done, arith}
use vector_db.Stream.{Reader, ◌>>=◌, pure, get_u8, get_u32, get_u64, put_u8, put_u32, put_u64}
use vector_db.Stream
use vector_db.Stream.RoundTrip.{Reads, Reads-bind, Reads-last, Reads-end, le_bytes-Reads}
use vector_db.Distance.{DistType, cosine, euclidean, inner_product, unknown}
use vector_db.Index.{
  Params, of_hnsw, of_ivf, HnswParams, IvfParams, hnsw_params, type_of, index_type_code,
  dist_type_code, put_params,
}
use vector_db.Index.Reading.{
  deserialize, get_params, get_dist_type, get_index_type, get_hnsw_params, get_ivf_params,
  construct,
}

-- Parameters as their constructors make them, in the range of their C++ types.
pub record HnswFits (p : HnswParams) : Type 0 where
  pub known : p.dist_type ≢ unknown
  pub doubled : p.m0 ≡ 2 * p.m % 2 ^ 32
  pub m_fits : p.m < 2 ^ 32
  pub ef_construction_fits : p.ef_construction < 2 ^ 32
  pub ef_search_fits : p.ef_search < 2 ^ 32

pub record IvfFits (p : IvfParams) : Type 0 where
  pub k_fits : p.k < 2 ^ 32
  pub n_probe_fits : p.n_probe < 2 ^ 32
  pub threshold_fits : p.rebuild_threshold < 2 ^ 64

abbrev pub ParamsFit : Params → Type 0
ParamsFit (of_hnsw p) = HnswFits p
ParamsFit (of_ivf p) = IvfFits p

dist_type-Reads : (t : DistType) → Reads get_dist_type (put_u8 (dist_type_code t)) t
unfolding Stream.le_bytes Stream.get_le
dist_type-Reads cosine = λ rest. refl
dist_type-Reads euclidean = λ rest. refl
dist_type-Reads inner_product = λ rest. refl
dist_type-Reads unknown = λ rest. refl

index_type-Reads :
    (p : Params) → Reads get_index_type (put_u8 (index_type_code (type_of p))) (type_of p)
unfolding Stream.le_bytes Stream.get_le
index_type-Reads (of_hnsw p) = λ rest. refl
index_type-Reads (of_ivf p) = λ rest. refl

hnsw_params_fit :
    (p : HnswParams)
    → HnswFits p
    → hnsw_params p.dist_type p.m p.ef_construction p.ef_search ≡ done p
unfolding hnsw_params
hnsw_params_fit p h = ground (arith, h.known, h.doubled)

u32-Reads : (x : ℕ) → x < 2 ^ 32 → Reads get_u32 (put_u32 x) x
u32-Reads = le_bytes-Reads 4

hnsw-Reads :
    (p : HnswParams) → HnswFits p → Reads get_hnsw_params (put_params (of_hnsw p)) (of_hnsw p)
unfolding put_params
hnsw-Reads p h =
    Reads-bind get_dist_type
      (λ t. get_u32 >>= λ m. get_u32 >>= λ e. get_u32 >>= λ s. construct (hnsw_params t m e s))
      (put_u8 (dist_type_code p.dist_type))
      (put_u32 p.m ++ (put_u32 p.ef_construction ++ put_u32 p.ef_search)) p.dist_type (of_hnsw p)
      (dist_type-Reads p.dist_type)
      (Reads-bind get_u32
        (λ m. get_u32 >>= λ e. get_u32 >>= λ s. construct (hnsw_params p.dist_type m e s))
        (put_u32 p.m) (put_u32 p.ef_construction ++ put_u32 p.ef_search) p.m (of_hnsw p)
        (u32-Reads p.m h.m_fits)
        (Reads-bind get_u32 (λ e. get_u32 >>= λ s. construct (hnsw_params p.dist_type p.m e s))
          (put_u32 p.ef_construction) (put_u32 p.ef_search) p.ef_construction (of_hnsw p)
          (u32-Reads p.ef_construction h.ef_construction_fits)
          (Reads-end get_u32 (λ s. construct (hnsw_params p.dist_type p.m p.ef_construction s))
            (put_u32 p.ef_search) p.ef_search (of_hnsw p) (u32-Reads p.ef_search h.ef_search_fits)
            (λ rest. ap (λ o. construct o rest) (hnsw_params_fit p h)))))

abbrev ivf : DistType → ℕ → ℕ → ℕ → Params
ivf t k n r = of_ivf (record { dist_type = t; k = k; n_probe = n; rebuild_threshold = r })

ivf-Reads : (p : IvfParams) → IvfFits p → Reads get_ivf_params (put_params (of_ivf p)) (of_ivf p)
unfolding put_params
ivf-Reads p h =
    Reads-bind get_dist_type
      (λ t. get_u32 >>= λ k. get_u32 >>= λ n. get_u64 >>= λ r. pure (ivf t k n r))
      (put_u8 (dist_type_code p.dist_type))
      (put_u32 p.k ++ (put_u32 p.n_probe ++ put_u64 p.rebuild_threshold)) p.dist_type (of_ivf p)
      (dist_type-Reads p.dist_type)
      (Reads-bind get_u32 (λ k. get_u32 >>= λ n. get_u64 >>= λ r. pure (ivf p.dist_type k n r))
        (put_u32 p.k) (put_u32 p.n_probe ++ put_u64 p.rebuild_threshold) p.k (of_ivf p)
        (u32-Reads p.k h.k_fits)
        (Reads-bind get_u32 (λ n. get_u64 >>= λ r. pure (ivf p.dist_type p.k n r))
          (put_u32 p.n_probe) (put_u64 p.rebuild_threshold) p.n_probe (of_ivf p)
          (u32-Reads p.n_probe h.n_probe_fits)
          (Reads-last get_u64 (ivf p.dist_type p.k p.n_probe) (put_u64 p.rebuild_threshold)
            p.rebuild_threshold (le_bytes-Reads 8 p.rebuild_threshold h.threshold_fits))))

params-Reads : (p : Params) → ParamsFit p → Reads (get_params (type_of p)) (put_params p) (some p)
params-Reads (of_hnsw p) h =
    Reads-last get_hnsw_params some (put_params (of_hnsw p)) (of_hnsw p) (hnsw-Reads p h)
params-Reads (of_ivf p) h =
    Reads-last get_ivf_params some (put_params (of_ivf p)) (of_ivf p) (ivf-Reads p h)

-- What a collection writes of an index reads back as the same parameters, if each fits its type
-- and an HNSW index has a known distance.
pub deserialize-put_params :
    (p : Params)
    → ParamsFit p
    → (rest : Bytes)
    → deserialize ((put_u8 (index_type_code (type_of p)) ++ put_params p) ++ rest)
      ≡ done (some p, rest)
unfolding deserialize
deserialize-put_params p h =
    Reads-bind get_index_type get_params (put_u8 (index_type_code (type_of p))) (put_params p)
      (type_of p) (some p) (index_type-Reads p) (params-Reads p h)
