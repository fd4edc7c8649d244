-- ===== src/Hnsw/Insert/Connected.antt =====
-- A node is connected in one layer, and in all layers from its level down.
use vector_db.Prelude.{
  ℕ, zero, suc, ◌≤◌, ◌<◌, ◌≡◌, refl, ap, ◌∙◌, subst, List, [], ◌∷◌, true, false, length, leb, take,
  All, All-map, All-take, length-take, length-map, arith, inl, inr, Bool-cases, nat_eq, nat_eq_iff,
  Outcome, done, ◌>>=◌, some, get_elem?, get_elem?-below, or_undefined,
}
use vector_db.FloatVector.{FloatVector}
use vector_db.Vectors.{Vectors, get_vector_by_id}
use vector_db.Index.{HnswParams}
use vector_db.Distance.{Double, DistType}
use vector_db.Distance.Order.{IsOrdered, IsNumber}
use vector_db.Ids.{mem_id, put_id, put_ids}
use vector_db.Ids.Laws.{mem_id-put_id, mem_id-put_ids}
use vector_db.Hnsw.Candidates.{CandSet, select_neighbors_heuristic}
use vector_db.Hnsw.Candidates.Select.{IsIncreasing, select_neighbors_heuristic_lem}
use vector_db.Hnsw.Graph.{Layer, links, layer_at, set_layer}
use vector_db.Hnsw.Graph.Links.{Joins, Joins-put_id, links-outside}
use vector_db.Hnsw.Graph.Layers.{get_elem?-set_layer, length-set_layer}
use vector_db.Hnsw.LayerSearch.{distance_to, distance_between, search_layer, first}
use vector_db.Hnsw.LayerSearch.Kept.{Measurable, Fine, All-mem_id}
use vector_db.Hnsw.LayerSearch.Returns.{search_layer-Kept}
use vector_db.Hnsw.Insert.{
  cand_ids, layer_m, link_both, shrink_all, descend, connect_layer, connect,
}
use vector_db.Hnsw.Insert.Linked.{Sizes, Linkable, link_both-Joins, link_both-Sizes}
use vector_db.Hnsw.Insert.Shrunk.{IsIn, cand_ids-IsIn, shrink_all-lem}

-- The id is in the list.
abbrev pub Among : List ℕ → ℕ → Type 0
Among ids id = mem_id id ids ≡ true

-- Every layer joins ids of the list, with as many links of each as the parameters allow.
abbrev pub IsLayered : HnswParams → List ℕ → List Layer → Type 0
IsLayered p ids ls =
    (lc : ℕ) (l : Layer) → get_elem? ls lc ≡ some l → Joins ids l × Sizes (layer_m p lc) [] l

pub All-Among :
    (ids js : List ℕ) → ((y : ℕ) → mem_id y js ≡ true → mem_id y ids ≡ true) → All (Among ids) js
All-Among ids js h = All-map h js (All-mem_id js)

mem_id-some : (y : ℕ) (ids : List ℕ) → mem_id y ids ≡ true → 0 < length ids
mem_id-some y [] h = cc
mem_id-some y (id ∷ ids) h = omega arith

module _ {D : Type 0} ⦃d : Double D⦄ (order : IsOrdered d) (t : DistType) (query : FloatVector)
    (vectors : Vectors) (m : Measurable order t query vectors) where
  IsIn-Fine :
      (ids : List ℕ) (cs : CandSet D)
      → All (Fine order t query vectors (Among ids)) cs
      → All (IsIn ids) cs
  IsIn-Fine ids cs = All-map (λ c h. h.2) cs

  -- The search among ids that the layer joins.
  pub search_scored :
      (ids : List ℕ) (level ef : ℕ) (neighbours : List Layer) (layer : Layer) (from : List ℕ)
      → Joins ids layer
      → All (Among ids) from
      → 0 < length from
      → 0 < ef
      → get_elem? neighbours level ≡ some layer
      → (r : CandSet D) × (search_layer t query from ef level vectors neighbours ≡ done r)
        × All (Fine order t query vectors (Among ids)) r
        × IsIncreasing r
        × (0 < length r)
  search_scored ids level ef neighbours layer [] j start nonempty some_ef there =
      absurd (omega arith)
  search_scored ids level ef neighbours layer (ep ∷ eps) j start nonempty some_ef there =
      let (r, e, fine, sorted, more, short) =
        search_layer-Kept order t query vectors (Among ids) m level ef neighbours layer ep eps
          (λ id h. All-Among ids (links id layer) (λ y l. (j id y l).1)) start some_ef
          (rw there refl) in
      (r, e, fine, sorted, more)

  pub search_inside :
      (ids : List ℕ) (level ef : ℕ) (neighbours : List Layer) (layer : Layer) (from : List ℕ)
      → Joins ids layer
      → All (Among ids) from
      → 0 < length from
      → 0 < ef
      → get_elem? neighbours level ≡ some layer
      → (r : CandSet D) × (search_layer t query from ef level vectors neighbours ≡ done r)
        × All (IsIn ids) r
        × IsIncreasing r
        × (0 < length r)
  search_inside ids level ef neighbours layer from j start nonempty some_ef there =
      let (r, e, fine, sorted, more) =
        search_scored ids level ef neighbours layer from j start nonempty some_ef there in
      (r, e, IsIn-Fine ids r fine, sorted, more)

  first_id :
      (ids : List ℕ) (r : CandSet D)
      → 0 < length r
      → All (IsIn ids) r
      → (c : D × ℕ) × (first r ≡ done c)
        × (mem_id c.1 ids ≡ true)
        × (mem_id c.1 (cand_ids r) ≡ true)
  first_id ids [] h p = absurd (omega arith)
  first_id ids ((x, id) ∷ cs) h (p, ps) = ((x, id), refl, p, ground (arith, nat_eq_iff id id))

  -- The way down to the node's level returns one of the ids, or the entry points as they were.
  pub descend-lem :
      (ids : List ℕ) (neighbours : List Layer)
      → ((lc : ℕ) (l : Layer) → get_elem? neighbours lc ≡ some l → Joins ids l)
      → (level n : ℕ) → n ≤ length neighbours
      → (from : List ℕ) → All (Among ids) from
      → 0 < length from
      → (ep : List ℕ) × (descend D t query vectors neighbours level n from ≡ done ep)
        × All (Among ids) ep
        × (0 < length ep)
  unfolding descend
  descend-lem ids neighbours j level zero le from start nonempty = (from, refl, start, nonempty)
  descend-lem ids neighbours j level (suc lc) le from start nonempty =
      elim (Bool-cases (leb lc level)) [
        | inl reached ↦ rw reached (from, refl, start, nonempty)
        | inr above ↦
            let (layer, there) = get_elem?-below neighbours lc (omega arith) in
            let (r, e, p, sorted, more) =
              search_inside ids lc 1 neighbours layer from (j lc layer there) start nonempty
                (omega arith) there in
            let (c, e', q, q') = first_id ids r more p in
            let (ep, e'', a, s) =
              descend-lem ids neighbours j level lc (omega arith) (c.1 ∷ []) (q, tt)
                (omega arith) in
            (
              ep,
              rw above (
                  ap
                    (λ o. o >>= λ cs.
                      first cs >>= λ c. descend D t query vectors neighbours level lc (c.1 ∷ []))
                    e
                  ∙ ap (λ o. o >>= λ c. descend D t query vectors neighbours level lc (c.1 ∷ [])) e'
                  ∙ e''),
              a,
              s,
            )
      ]

-- What `insert` knows of the node: its vector has distances to all, and it is not among the ids yet.
module _ {D : Type 0} ⦃d : Double D⦄ (order : IsOrdered d) (p : HnswParams)
    (some_ef : 0 < p.ef_construction) (vectors : Vectors) (id : ℕ) (query : FloatVector)
    (found : get_vector_by_id id vectors ≡ done (some query))
    (m : Measurable order p.dist_type query vectors) (ids : List ℕ)
    (new : mem_id id ids ≡ false) where
  pub between :
      (nb : ℕ)
      → (x : D) × (distance_between p.dist_type id nb vectors ≡ done x) × IsNumber order (x, id)
  unfolding distance_between distance_to
  between nb = let (x, e, n) = m nb in (x, rw (found, ◌>>=◌) e, n)

  choice :
      (n : ℕ) (r : CandSet D)
      → IsIncreasing r
      → All (IsIn ids) r
      → (length (cand_ids (select_neighbors_heuristic r n)) ≤ n)
        × All (Linkable id (put_id id ids)) (cand_ids (select_neighbors_heuristic r n))
  choice n r sorted inside = rw (select_neighbors_heuristic_lem n r sorted) (
    omega (arith, length-map (λ c. c.1) (take n r), length-take n r),
    All-map (λ y h. (ground (arith, mem_id-put_id y id ids), ground (arith, nat_eq_iff id y)))
        (cand_ids (take n r))
        (All-Among ids (cand_ids (take n r))
          (cand_ids-IsIn ids (take n r) (All-take (IsIn ids) n r inside))),
  )

  put_ids-Among : (r : CandSet D) → All (IsIn ids) r → All (Among ids) (put_ids (cand_ids r) [])
  put_ids-Among r inside =
      All-Among ids (put_ids (cand_ids r) [])
        (λ y h. cand_ids-IsIn ids r inside y (ground (arith, mem_id-put_ids y (cand_ids r) [])))

  put_ids-some : (r : CandSet D) → 0 < length r → 0 < length (put_ids (cand_ids r) [])
  put_ids-some [] h = absurd (omega arith)
  put_ids-some ((x, y) ∷ cs) h =
      mem_id-some y (put_ids (cand_ids ((x, y) ∷ cs)) [])
        (ground (arith, mem_id-put_ids y (cand_ids ((x, y) ∷ cs)) [], nat_eq_iff y y))

  connect_layer-runs :
      (lc : ℕ) (layer shrunk : Layer) (ls : List Layer) (from : List ℕ) (r : CandSet D)
      → search_layer p.dist_type query from p.ef_construction lc vectors ls ≡ done r
      → get_elem? ls lc ≡ some layer
      → (let linked = link_both id (cand_ids (select_neighbors_heuristic r (layer_m p lc))) layer in
          shrink_all D p.dist_type (layer_m p lc) id vectors (links id linked) linked ≡ done shrunk)
      → connect_layer D p id query vectors lc from ls
        ≡ done (put_ids (cand_ids r) [], set_layer lc shrunk ls)
  unfolding connect_layer
  connect_layer-runs lc layer shrunk ls from r e there e' =
      let finish : CandSet D → Outcome Layer → Outcome (List ℕ × List Layer) =
        λ cs o. o >>= λ l. done (put_ids (cand_ids cs) [], set_layer lc l ls) in
      let linked : CandSet D → Layer → Layer =
        λ cs l. link_both id (cand_ids (select_neighbors_heuristic cs (layer_m p lc))) l in
      let go : CandSet D → Layer → Outcome (List ℕ × List Layer) = λ cs l. finish cs (
        shrink_all D p.dist_type (layer_m p lc) id vectors (links id (linked cs l))
          (linked cs l)) in
      ap (λ o. o >>= λ cs. layer_at lc ls >>= λ l. go cs l) e
      ∙ ap (λ o. or_undefined o >>= λ l. go r l) there
      ∙ ap (finish r) e'

  pub connect_layer-lem :
      (lc : ℕ) (layer : Layer) (ls : List Layer) (from : List ℕ)
      → All (Among ids) from
      → 0 < length from
      → get_elem? ls lc ≡ some layer
      → Joins ids layer
      → Sizes (layer_m p lc) [] layer
      → (ep : List ℕ) × (l : Layer) × (connect_layer D p id query vectors lc from ls
          ≡ done (ep, set_layer lc l ls))
        × All (Among ids) ep
        × (0 < length ep)
        × Joins (put_id id ids) l
        × Sizes (layer_m p lc) [] l
  connect_layer-lem lc layer ls from start nonempty there j s =
      let (r, e, inside, sorted, more) =
        search_inside order p.dist_type query vectors m ids lc p.ef_construction ls layer from j
          start nonempty some_ef there in
      let nbs = cand_ids (select_neighbors_heuristic r (layer_m p lc)) in
      let (few, linkable) = choice (layer_m p lc) r sorted inside in
      let own : mem_id id (put_id id ids) ≡ true =
        ground (arith, mem_id-put_id id id ids, nat_eq_iff id id) in
      let linked = link_both id nbs layer in
      let j' =
        link_both-Joins id (put_id id ids) nbs layer own linkable (Joins-put_id id ids layer j) in
      let s' =
        link_both-Sizes (layer_m p lc) id (put_id id ids) nbs layer linkable s
          (links-outside id ids layer new j) few in
      let others : All (λ nb. nat_eq nb id ≡ false) (links id linked) =
        All-map (λ y h. ground (arith, (j' id y h).2, nat_eq_iff y id, nat_eq_iff id y))
          (links id linked) (All-mem_id (links id linked)) in
      let (l, e', j'', s'') =
        shrink_all-lem order p.dist_type id vectors between (layer_m p lc) (put_id id ids)
          (links id linked) linked others s' j' in
      (
        put_ids (cand_ids r) [],
        l,
        connect_layer-runs lc layer l ls from r e there e',
        put_ids-Among r inside,
        put_ids-some r more,
        j'',
        s'',
      )

  -- The layers below `n` join only the old ids.
  abbrev pub IsFresh : ℕ → List Layer → Type 0
  IsFresh n ls = (lc : ℕ) (l : Layer) → lc < n → get_elem? ls lc ≡ some l → Joins ids l

  set_layer-IsLayered :
      (lc : ℕ) (l : Layer) (ls : List Layer) (js : List ℕ)
      → IsLayered p js ls
      → Joins js l
      → Sizes (layer_m p lc) [] l
      → IsLayered p js (set_layer lc l ls)
  set_layer-IsLayered lc l ls js h j s i k e = elim (Bool-cases (nat_eq lc i)) [
    | inl same ↦
        let at_i : lc ≡ i = (nat_eq_iff lc i).0 same in
        let written : l ≡ k = ground (arith, get_elem?-set_layer i lc l ls) in
        subst (λ n. Joins js k × Sizes (layer_m p n) [] k) at_i
          (subst (λ k. Joins js k × Sizes (layer_m p lc) [] k) written (j, s))
    | inr other ↦ h i k (ground (arith, get_elem?-set_layer i lc l ls))
  ]

  set_layer-IsFresh :
      (lc : ℕ) (l : Layer) (ls : List Layer) → IsFresh (suc lc) ls → IsFresh lc (set_layer lc l ls)
  set_layer-IsFresh lc l ls h i k below e =
      h i k (omega arith) (ground (arith, get_elem?-set_layer i lc l ls, nat_eq_iff lc i))

  pub connect-lem :
      (n : ℕ) (from : List ℕ) (ls : List Layer)
      → n ≤ length ls
      → All (Among ids) from
      → 0 < length from
      → IsFresh n ls
      → IsLayered p (put_id id ids) ls
      → (r : List Layer) × (connect D p id query vectors n from ls ≡ done r)
        × IsLayered p (put_id id ids) r
        × (length r ≡ length ls)
  unfolding connect
  connect-lem zero from ls le start nonempty fresh h = (ls, refl, h, refl)
  connect-lem (suc lc) from ls le start nonempty fresh h =
      let (layer, there) = get_elem?-below ls lc (omega arith) in
      let (ep, l, e, start', nonempty', j, s) =
        connect_layer-lem lc layer ls from start nonempty there (fresh lc layer (omega arith) there)
          (h lc layer there).1 in
      let same = length-set_layer lc l ls in
      let (r, e', h', len) =
        connect-lem lc ep (set_layer lc l ls) (omega (arith, same)) start' nonempty'
          (set_layer-IsFresh lc l ls fresh) (set_layer-IsLayered lc l ls (put_id id ids) h j s) in
      (
        r,
        ap (λ o. o >>= λ (ep', ls'). connect D p id query vectors lc ep' ls') e ∙ e',
        h',
        len ∙ same,
      )
