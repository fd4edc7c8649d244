-- ===== src/Hnsw/Knn/Answers.antt =====
-- `search_knn` answers from a graph without pending changes.
use mathlib.Core.List.{append-nil}
use vector_db.Prelude.{
  ℕ, suc, ◌⊎◌, ◌-◌, ◌<◌, ◌≡◌, refl, sym, ap, ◌∙◌, List, [], ◌∷◌, ◌++◌, append_assoc, true, false,
  ◌||◌, length, length-append, leb, All, All-map, arith, inl, inr, Bool-cases, nat_eq, Outcome,
  done, ◌>>=◌, min, max, map, take, take-all, some, get_elem?-below,
}
use vector_db.FloatVector.{FloatVector}
use vector_db.Vectors.{Vectors, get_vector_by_id}
use vector_db.Distance.{Double}
use vector_db.Distance.Order.{IsOrdered}
use vector_db.Index.Interface.{Score, Answer, answered}
use vector_db.Scan.Nearest.{rank}
use vector_db.Ids.{mem_id}
use vector_db.IvfFlat.{is_empty_list}
use vector_db.Hnsw.{HnswIndex}
use vector_db.Hnsw.Candidates.{CandSet}
use vector_db.Hnsw.Candidates.Select.{IsIncreasing}
use vector_db.Hnsw.LayerSearch.{search_layer}
use vector_db.Hnsw.LayerSearch.Kept.{Measurable, Fine}
use vector_db.Hnsw.Insert.{descend}
use vector_db.Hnsw.Insert.Connected.{Among, search_scored, descend-lem}
use vector_db.Hnsw.Insert.Grown.{IsGraph}
use vector_db.Hnsw.Pending.Built.{IsSettled, All-mem}
use vector_db.Hnsw.Knn.{settle, fill, search_graph, search_for_top_k}

-- The id has a vector in the collection.
abbrev pub HasVector : Vectors → ℕ → Type 0
HasVector vectors id = (v : FloatVector) × (get_vector_by_id id vectors ≡ done (some v))

-- The score carries the vector of its id.
abbrev pub Carries : {D : Type 0} → Vectors → Score D → Type 0
Carries vectors (x, id, v) = get_vector_by_id id vectors ≡ done (some v)

module _ {D : Type 0} ⦃d : Double D⦄ where
  fill-lem :
      (k : ℕ) (vectors : Vectors) (cs : CandSet D) (result : List (Score D))
      → All (λ c. HasVector vectors c.1) cs
      → (r : List (Score D)) × (fill D k vectors cs result ≡ done (answered true (result ++ r)))
        × (map rank r ≡ take (k - length result) cs)
        × All (Carries vectors) r
  unfolding fill
  fill-lem k vectors [] result hs = (
    [],
    ap (λ l. done (answered true l)) (sym (append-nil result)),
    sym (take-all (k - length result) [] (omega arith)),
    tt,
  )
  fill-lem k vectors ((x, id) ∷ cs) result ((v, found), hs) =
      elim (Bool-cases (leb k (length result))) [
        | inl full ↦
            let no_room : k - length result ≡ 0 = ground arith in
            (
              [],
              rw full (ap (λ l. done (answered true l)) (sym (append-nil result))),
              rw no_room refl,
              tt,
            )
        | inr more ↦
            let result' = result ++ ((x, id, v) ∷ []) in
            let room : k - length result ≡ suc (k - length result') =
              ground (arith, length-append result ((x, id, v) ∷ [])) in
            let (r, e, ranks, cs') = fill-lem k vectors cs result' hs in
            (
              (x, id, v) ∷ r,
              rw (more, found, ◌>>=◌)
                  (e ∙ ap (λ l. done (answered true l)) (append_assoc result ((x, id, v) ∷ []) r)),
              rw room (ap (◌∷◌ (x, id)) ranks),
              (found, cs'),
            )
      ]

module _ {D : Type 0} ⦃d : Double D⦄ (order : IsOrdered d) (query : FloatVector)
    (vectors : Vectors) where
  settle-settled : (i : HnswIndex) → IsSettled i → settle D vectors i ≡ done i
  unfolding settle
  settle-settled i (none_in, none_out) = rw (none_in, none_out) refl

  search_graph-empty :
      (i : HnswIndex) (k : ℕ)
      → (is_empty_list i.inserted || nat_eq k 0) ≡ true
      → search_graph D query k vectors i ≡ done (answered true [])
  unfolding search_graph
  search_graph-empty i k e = rw e refl

  search_graph-some :
      (i : HnswIndex) (k : ℕ) (ep : List ℕ) (found : CandSet D) (a : Answer D)
      → (is_empty_list i.inserted || nat_eq k 0) ≡ false
      → descend D i.params.dist_type query vectors i.neighbours 0 i.top (i.entry_point ∷ [])
        ≡ done ep
      → search_layer i.params.dist_type query ep
          (max (min k (length i.inserted)) i.params.ef_search)
          0
          vectors
          i.neighbours
        ≡ done found
      → fill D (min k (length i.inserted)) vectors found [] ≡ done a
      → search_graph D query k vectors i ≡ done a
  unfolding search_graph
  search_graph-some i k ep found a some_in e e' e'' =
      let t = i.params.dist_type in
      let fill_it : CandSet D → Outcome (Answer D) =
        λ cs. fill D (min k (length i.inserted)) vectors cs [] in
      rw some_in (
        ap
          (λ o. o >>= λ ep.
            search_layer t query ep (max (min k (length i.inserted)) i.params.ef_search) 0 vectors
              i.neighbours
            >>= fill_it)
          e
        ∙ ap (λ o. o >>= fill_it) e'
        ∙ e'')

  some-not-empty {ℓ} :
      {A : Type ℓ} (ids : List ℕ)
      → ids ≡ []
      → (k : ℕ) → (is_empty_list ids || nat_eq k 0) ≡ false
      → A
  some-not-empty [] e k h = cc
  some-not-empty (id ∷ ids) e k h = cc

  not_empty : (cs : CandSet D) → 0 < length cs → is_empty_list cs ≡ false
  not_empty [] h = absurd (omega arith)
  not_empty (c ∷ cs) h = refl

  positive :
      (k : ℕ) (ids : List ℕ) → (is_empty_list ids || nat_eq k 0) ≡ false → 0 < min k (length ids)
  positive k [] h = cc
  positive k (id ∷ ids) h = ground arith

  entry_held :
      (i : HnswIndex) (g : IsGraph i) (k : ℕ)
      → (is_empty_list i.inserted || nat_eq k 0) ≡ false
      → (mem_id i.entry_point i.inserted ≡ true) × (0 < i.top)
  entry_held i g k h = elim g.entry [
    | inl (no_top, none_in) ↦ some-not-empty i.inserted none_in k h
    | inr (held, at_top) ↦ (held, omega (arith, at_top))
  ]

  -- What the search of layer 0 finds, and the scores made of it.
  pub record Found (i : HnswIndex) (k : ℕ) (found : CandSet D) (r : List (Score D)) : Type 0 where
    -- Nothing, or what the search of layer 0, as wide as `k'` or `ef_search`, finds from where the
    -- descent through the layers above it ends.
    pub searched :
        (((is_empty_list i.inserted || nat_eq k 0) ≡ true) × (found ≡ []))
        ⊎ ((ep : List ℕ) × (descend D i.params.dist_type query vectors i.neighbours 0 i.top
                (i.entry_point ∷ [])
              ≡ done ep)
            × (search_layer i.params.dist_type query ep
                  (max (min k (length i.inserted)) i.params.ef_search)
                  0
                  vectors
                  i.neighbours
                ≡ done found))
    -- Inserted ids, with their distances, in increasing order.
    pub fine : All (Fine order i.params.dist_type query vectors (Among i.inserted)) found
    pub sorted : IsIncreasing found
    pub is_empty : is_empty_list found ≡ (is_empty_list i.inserted || nat_eq k 0)
    -- The first of them, with their vectors.
    pub ranks : map rank r ≡ take (min k (length i.inserted)) found
    pub carried : All (Carries vectors) r

  search_graph-answers :
      (i : HnswIndex) (k : ℕ)
      → Measurable order i.params.dist_type query vectors
      → IsGraph i
      → All (HasVector vectors) i.inserted
      → (found : CandSet D) × (r : List (Score D)) × (search_graph D query k vectors i
          ≡ done (answered true r))
        × Found i k found r
  search_graph-answers i k m g hs = elim (Bool-cases (is_empty_list i.inserted || nat_eq k 0)) [
    | inl trivial ↦ (
      [],
      [],
      search_graph-empty i k trivial,
      record {
        searched = inl (trivial, refl);
        fine = tt;
        sorted = tt;
        is_empty = sym trivial;
        ranks = sym (take-all (min k (length i.inserted)) [] (omega arith));
        carried = tt;
      },
    )
    | inr proper ↦
        let t = i.params.dist_type in
        let k' = min k (length i.inserted) in
        let some_k : 0 < k' = positive k i.inserted proper in
        let (held, at_top) = entry_held i g k proper in
        let (ep, e, start, nonempty) =
          descend-lem order t query vectors m i.inserted i.neighbours
            (λ lc l at. (g.layered lc l at).0) 0 i.top (omega (arith, g.sized)) (i.entry_point ∷ [])
            (held, tt) (omega arith) in
        let (layer, there) = get_elem?-below i.neighbours 0 (omega (arith, g.sized, at_top)) in
        let (found, e', inside, sorted, more) =
          search_scored order t query vectors m i.inserted 0 (max k' i.params.ef_search)
            i.neighbours layer ep (g.layered 0 layer there).0 start nonempty (omega (arith, some_k))
            there in
        let (r, e'', ranks, carried) =
          fill-lem k' vectors found []
            (All-map (λ c h. All-mem (HasVector vectors) c.1 i.inserted h.2 hs) found inside) in
        (
          found,
          r,
          search_graph-some i k ep found (answered true r) proper e e' e'',
          record {
            searched = inr (ep, e, e');
            fine = inside;
            sorted = sorted;
            is_empty = not_empty found more ∙ sym proper;
            ranks = ranks ∙ ap (λ n. take n found) (omega arith);
            carried = carried;
          },
        )
  ]

  -- A search of a graph without pending changes leaves it as it is and returns true. Unless the graph is
  -- empty or `k` is 0, it searches layer 0, from where the descent ends, for as many nodes as the larger of
  -- `ef_search` and of `k`, or of the number of ids if that is less. That search finds ids of the graph, at least
  -- one, in increasing order of distance and id; the call returns the first `k` of them, or as many as the graph has ids, each with its vector. Every id
  -- has a distance to the query that is a number, and every id in the graph has a vector.
  pub search_for_top_k-answers :
      (i : HnswIndex) (k : ℕ) (results : List (Score D))
      → Measurable order i.params.dist_type query vectors
      → IsGraph i
      → IsSettled i
      → All (HasVector vectors) i.inserted
      → (found : CandSet D) × (r : List (Score D)) × (search_for_top_k D query k results vectors i
          ≡ done (i, answered true r))
        × Found i k found r
  unfolding search_for_top_k
  search_for_top_k-answers i k results m g idle hs =
      let (found, r, e, f) = search_graph-answers i k m g hs in
      (found, r, rw (settle-settled i idle, ◌>>=◌, e) refl, f)
