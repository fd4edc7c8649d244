-- ===== src/Collection/Persist/RoundTrip.antt =====
-- A collection reads back from what it writes; its indices are built anew.
use vector_db.Prelude.{
  ℕ, ◌^◌, ◌<◌, ◌≡◌, refl, sym, ◌∙◌, List, map, [], ◌∷◌, ◌++◌, some, done, ◌>>=◌ as bind, Bytes,
  nat_key, bytes_key, length, All, arith,
}
use vector_db.Stream.{
  Reader, ◌>>=◌, pure, get_u32, get_u64, get_string, put_u8, put_u32, put_u64, put_string,
}
use vector_db.Stream.RoundTrip.{Reads, Reads-bind, Reads-last, le_bytes-Reads, put_string-Reads}
use vector_db.Assoc.{emplace, assign, emplace_all, assign_all, keys}
use vector_db.Assoc.Laws.{DistinctKeys, DistinctKeys-keys, emplace_all_lem, assign_all_lem}
use vector_db.FloatVector.{FloatVector}
use vector_db.FloatVector.Reading.{deserialize as read_vector}
use vector_db.FloatVector.RoundTrip.{IsStorable, encode-Reads, encode, serialize-encode}
use vector_db.Vectors.{Vectors}
use vector_db.Index.{Params, type_of, index_type_code, put_params}
use vector_db.Index.Reading.{deserialize as read_index}
use vector_db.Index.RoundTrip.{ParamsFit, deserialize-put_params}
use vector_db.Index.Interface.{IndexClass, KeepsParams}
use vector_db.Collection.{Collection}
use vector_db.Collection.Persist.{
  put_vectors, get_vectors, put_indices, serialize, get_indices, deserialize, next_index,
}

abbrev pub EntryStorable : ℕ × FloatVector → Type 0
EntryStorable (id, v) = (id < 2 ^ 64) × IsStorable v

abbrev encode_vectors : Vectors → Bytes
encode_vectors [] = []
encode_vectors ((id, v) ∷ vs) = put_u64 id ++ (encode v ++ encode_vectors vs)

put_vectors_lem : (vs : Vectors) → All EntryStorable vs → put_vectors vs ≡ done (encode_vectors vs)
unfolding put_vectors
put_vectors_lem [] s = refl
put_vectors_lem ((id, v) ∷ vs) (s, ss) =
    rw (serialize-encode v s.1, put_vectors_lem vs ss, bind) refl

get_vectors-Reads :
    (vs m : Vectors)
    → All EntryStorable vs
    → Reads (get_vectors (length vs) m) (encode_vectors vs) (emplace_all vs m)
unfolding get_vectors
get_vectors-Reads [] m s = λ rest. refl
get_vectors-Reads ((id, v) ∷ vs) m (s, ss) =
    Reads-bind get_u64 (λ k. read_vector >>= λ w. get_vectors (length vs) (emplace k w m))
      (put_u64 id) (encode v ++ encode_vectors vs) id (emplace_all vs (emplace id v m))
      (le_bytes-Reads 8 id s.0)
      (Reads-bind read_vector (λ w. get_vectors (length vs) (emplace id w m)) (encode v)
        (encode_vectors vs) v (emplace_all vs (emplace id v m)) (encode-Reads v s.1)
        (get_vectors-Reads vs (emplace id v m) ss))

module _ {D : Type 0} (C : IndexClass D) where
  open C use {Index, make, init, get_params}

  -- A new index with the parameters of this one can be built from the vectors, whatever levels are drawn.
  abbrev pub IsRebuildable : Vectors → Bytes × Index → Type 0
  IsRebuildable vectors (name, i) =
      (draws : ℕ → ℕ) → (j : Index) × (init vectors (make draws (get_params i)) ≡ done j)

  abbrev pub IndexStorable : Bytes × Index → Type 0
  IndexStorable (name, i) = (length name < 2 ^ 32) × ParamsFit (get_params i)

  -- The names and parameters of the indices.
  abbrev pub described : List (Bytes × Index) → List (Bytes × Params)
  described = map λ (name, i). (name, get_params i)

  described-keys : (js is : List (Bytes × Index)) → described js ≡ described is → keys js ≡ keys is
  described-keys [] [] h = refl
  described-keys [] (i ∷ is) h = cc
  described-keys (j ∷ js) [] h = cc
  described-keys ((m, j) ∷ js) ((n, i) ∷ is) h =
      let rest : described js ≡ described is = cc in
      let ih = described-keys js is rest in let first : m ≡ n = ground arith in cc

  get_indices-Reads :
      (laws : KeepsParams C) (draws : ℕ → ℕ → ℕ) (vectors : Vectors) (is : List (Bytes × Index))
      → All (IsRebuildable vectors) is
      → All IndexStorable is
      → (js : List (Bytes × Index)) × (described js ≡ described is)
        × ((m : List (Bytes × Index))
            → Reads
                (get_indices C draws (length is) vectors m)
                (put_indices C is)
                (assign_all js m))
  unfolding get_indices
  get_indices-Reads laws draws vectors [] ready s = ([], refl, λ m rest. refl)
  get_indices-Reads laws draws vectors ((name, i) ∷ is) (r, ready) (s, ss) =
      let (j, e) = r (draws (length is)) in
      let (js, same, reads) = get_indices-Reads laws draws vectors is ready ss in
      let kept : get_params j ≡ get_params i =
        laws.init_params vectors (make (draws (length is)) (get_params i)) j e
        ∙ laws.make_params (draws (length is)) (get_params i) in
      (
        (name, j) ∷ js,
        cc (kept, same),
        λ m.
            let build = λ (p : Params). init vectors (make (draws (length is)) p) in
            let skip = get_indices C draws (length is) vectors m in
            let put =
              λ (k : Bytes) (x : Index). get_indices C draws (length is) vectors (assign k x m) in
            Reads-bind get_string (λ k. read_index >>= next_index C build (put k) skip)
              (put_string name)
              ((put_u8 (index_type_code (type_of (get_params i))) ++ put_params (get_params i))
                ++ put_indices C is)
              name (assign_all js (assign name j m)) (put_string-Reads name s.0)
              (Reads-bind read_index (next_index C build (put name) skip)
                (put_u8 (index_type_code (type_of (get_params i))) ++ put_params (get_params i))
                (put_indices C is) (some (get_params i)) (assign_all js (assign name j m))
                (deserialize-put_params (get_params i) s.1)
                (λ rest. rw (e, ◌>>=◌) (reads (assign name j m) rest))),
      )

  -- What a collection must be to be stored: lengths, counts and ids fit their fields.
  pub record CollectionStorable (c : Collection C) : Type 0 where
    pub name_fits : length c.name < 2 ^ 32
    pub dimension_fits : c.dimension < 2 ^ 32
    pub vectors_fit : length c.vectors < 2 ^ 32
    pub indices_fit : length c.indices < 2 ^ 32
    pub all_vectors : All EntryStorable c.vectors
    pub all_indices : All IndexStorable c.indices
    pub distinct_ids : DistinctKeys c.vectors
    pub distinct_names : DistinctKeys c.indices

  abbrev build : Bytes → ℕ → Vectors → List (Bytes × Index) → Collection C
  build name dimension vectors indices = record {
    dimension = dimension;
    name = name;
    vectors = vectors;
    indices = indices;
  }

  vectors_lem : (c : Collection C) → CollectionStorable c → emplace_all c.vectors [] ≡ c.vectors
  vectors_lem c s = emplace_all_lem c.vectors [] s.distinct_ids

  indices_lem :
      (c : Collection C) (js : List (Bytes × Index))
      → CollectionStorable c
      → described js ≡ described c.indices
      → assign_all js [] ≡ js
  indices_lem c js s same =
      assign_all_lem js []
        (DistinctKeys-keys c.indices js (sym (described-keys js c.indices same)) s.distinct_names)

  -- What stands behind the number of vectors, and how it is read.
  abbrev encode_contents : Collection C → Bytes
  encode_contents c =
      encode_vectors c.vectors ++ (put_u32 (length c.indices) ++ put_indices C c.indices)

  abbrev contents : (ℕ → ℕ → ℕ) → Bytes → ℕ → Vectors → Reader (Collection C)
  contents draws name dimension vectors = do
    n ← get_u32
    indices ← get_indices C draws n vectors []
    pure (build name dimension vectors indices)

  contents-Reads :
      (draws : ℕ → ℕ → ℕ) (c : Collection C) (js : List (Bytes × Index))
      → CollectionStorable c
      → described js ≡ described c.indices
      → ((m : List (Bytes × Index))
          → Reads
              (get_indices C draws (length c.indices) c.vectors m)
              (put_indices C c.indices)
              (assign_all js m))
      → Reads
          (get_vectors (length c.vectors) [] >>= contents draws c.name c.dimension)
          (encode_contents c)
          (record c { indices = js })
  contents-Reads draws c js s same reads =
      let read = get_vectors-Reads c.vectors [] s.all_vectors in
      let put = put_u32 (length c.indices) ++ put_indices C c.indices in
      Reads-bind (get_vectors (length c.vectors) []) (contents draws c.name c.dimension)
        (encode_vectors c.vectors) put c.vectors (record c { indices = js })
        (rw (vectors_lem c s) at read)
        (Reads-bind get_u32
          (λ n. get_indices C draws n c.vectors [] >>= λ is.
            pure (build c.name c.dimension c.vectors is))
          (put_u32 (length c.indices)) (put_indices C c.indices) (length c.indices)
          (record c { indices = js }) (le_bytes-Reads 4 (length c.indices) s.indices_fit)
          (Reads-last (get_indices C draws (length c.indices) c.vectors [])
            (build c.name c.dimension c.vectors) (put_indices C c.indices) js
            (let r = reads [] in rw (indices_lem c js s same) at r)))

  -- From what `serialize` writes of a storable collection `deserialize` reads a collection with the
  -- same name, dimension and vectors, and with indices of the same names and parameters, newly built;
  -- what stands behind the bytes is left. It is assumed that from these vectors an index with the
  -- parameters of each index of the collection can be built.
  pub deserialize-serialize_collection :
      KeepsParams C
      → (draws : ℕ → ℕ → ℕ) (c : Collection C) → CollectionStorable c
      → All (IsRebuildable c.vectors) c.indices
      → (bs : Bytes) × (indices : List (Bytes × Index)) × (serialize C c ≡ done bs)
        × (described indices ≡ described c.indices)
        × ((rest : Bytes)
            → deserialize C draws (bs ++ rest) ≡ done (record c { indices = indices }, rest))
  unfolding serialize deserialize
  deserialize-serialize_collection laws draws c s ready =
      let (js, same, reads) =
        get_indices-Reads laws draws c.vectors c.indices ready s.all_indices in
      (
        put_string c.name
            ++ (put_u32 c.dimension ++ (put_u32 (length c.vectors) ++ encode_contents c)),
        js,
        rw (put_vectors_lem c.vectors s.all_vectors, bind) refl,
        same,
        Reads-bind get_string
            (λ n. get_u32 >>= λ d. get_u32 >>= λ k. get_vectors k [] >>= contents draws n d)
            (put_string c.name)
            (put_u32 c.dimension ++ (put_u32 (length c.vectors) ++ encode_contents c)) c.name
            (record c { indices = js }) (put_string-Reads c.name s.name_fits)
            (Reads-bind get_u32 (λ d. get_u32 >>= λ k. get_vectors k [] >>= contents draws c.name d)
              (put_u32 c.dimension) (put_u32 (length c.vectors) ++ encode_contents c) c.dimension
              (record c { indices = js }) (le_bytes-Reads 4 c.dimension s.dimension_fits)
              (Reads-bind get_u32 (λ k. get_vectors k [] >>= contents draws c.name c.dimension)
                (put_u32 (length c.vectors)) (encode_contents c) (length c.vectors)
                (record c { indices = js }) (le_bytes-Reads 4 (length c.vectors) s.vectors_fit)
                (contents-Reads draws c js s same reads))),
      )
