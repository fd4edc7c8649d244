-- ===== src/Hnsw/Insert/Shrunk.antt =====
-- "shrink connections" brings every list of links back to its bound.
use vector_db.Prelude.{
  ℕ, ◌≤◌, ◌≡◌, refl, ap, ◌∙◌, List, [], ◌∷◌, true, false, length, ltb, take, All, All-take,
  length-take, arith, inl, inr, Bool-cases, nat_eq, nat_eq_iff, done, ◌>>=◌, nat_key, length-map,
}
use vector_db.Assoc.{assign}
use vector_db.Vectors.{Vectors}
use vector_db.Distance.{Double, DistType}
use vector_db.Distance.Order.{IsOrdered, IsNumber}
use vector_db.Ids.{mem_id}
use vector_db.Ids.Laws.{mem_id-put_ids, length-put_ids}
use vector_db.Hnsw.Candidates.{CandSet, insert_cand, select_neighbors_heuristic}
use vector_db.Hnsw.Candidates.Select.{IsIncreasing, select_neighbors_heuristic_lem}
use vector_db.Hnsw.Candidates.Order.{All-insert_cand, IsIncreasing-insert_cand}
use vector_db.Hnsw.Graph.{Layer, links}
use vector_db.Hnsw.Graph.Links.{links-assign, Joins}
use vector_db.Hnsw.LayerSearch.{distance_between}
use vector_db.Hnsw.LayerSearch.Kept.{All-mem_id}
use vector_db.Hnsw.Insert.{cand_ids, create_cand_set, create_neighbour_set, shrink, shrink_all}
use vector_db.Hnsw.Insert.Linked.{Sizes}

abbrev pub IsIn : {D : Type 0} → List ℕ → D × ℕ → Type 0
IsIn ids (x, id) = mem_id id ids ≡ true

pub cand_ids-IsIn :
    {D : Type 0} (ids : List ℕ) (cs : CandSet D)
    → All (IsIn ids) cs
    → (y : ℕ) → mem_id y (cand_ids cs) ≡ true
    → mem_id y ids ≡ true
cand_ids-IsIn ids [] h y e = cc
cand_ids-IsIn ids ((x, id) ∷ cs) (h, hs) y e =
    ground (arith, nat_eq_iff id y, cand_ids-IsIn ids cs hs y)

module _ {D : Type 0} ⦃d : Double D⦄ (order : IsOrdered d) where
  create_neighbour_set-IsIn :
      (ids : List ℕ) (cs : CandSet D)
      → All (IsIn ids) cs
      → (y : ℕ) → mem_id y (create_neighbour_set D cs) ≡ true
      → mem_id y ids ≡ true
  unfolding create_neighbour_set
  create_neighbour_set-IsIn ids cs h y e =
      cand_ids-IsIn ids cs h y (ground (arith, mem_id-put_ids y (cand_ids cs) []))

  length-create_neighbour_set : (cs : CandSet D) → length (create_neighbour_set D cs) ≤ length cs
  unfolding create_neighbour_set
  length-create_neighbour_set cs =
      omega (arith, length-put_ids (cand_ids cs) [], length-map (λ c. c.1) cs)

  kept-lem :
      (m : ℕ) (own : List ℕ) (cands : CandSet D)
      → All (IsIn own) cands
      → IsIncreasing cands
      → (length (create_neighbour_set D (select_neighbors_heuristic cands m)) ≤ m)
        × ((y : ℕ)
            → mem_id y (create_neighbour_set D (select_neighbors_heuristic cands m)) ≡ true
            → mem_id y own ≡ true)
  kept-lem m own cands p i = rw (select_neighbors_heuristic_lem m cands i) (
    omega (arith, length-create_neighbour_set (take m cands), length-take m cands),
    create_neighbour_set-IsIn own (take m cands) (All-take (IsIn own) m cands p),
  )

  module _ (t : DistType) (id : ℕ) (vectors : Vectors)
      (between : (nb : ℕ)
        → (x : D) × (distance_between t id nb vectors ≡ done x) × IsNumber order (x, id)) where
    create_cand_set-lem :
        (nb : ℕ) (ids nbs : List ℕ) (cs : CandSet D)
        → All (λ y. mem_id y ids ≡ true) nbs
        → All (IsIn ids) cs
        → All (IsNumber order) cs
        → IsIncreasing cs
        → (r : CandSet D) × (create_cand_set D t id nb vectors nbs cs ≡ done r)
          × All (IsIn ids) r
          × IsIncreasing r
    unfolding create_cand_set
    create_cand_set-lem nb ids [] cs h p n i = (cs, refl, p, i)
    create_cand_set-lem nb ids (y ∷ nbs) cs (h, hs) p n i =
        let (x, e, num) = between nb in
        let (r, e', p', i') =
          create_cand_set-lem nb ids nbs (insert_cand (x, y) cs) hs
            (All-insert_cand (IsIn ids) (x, y) cs h p)
            (All-insert_cand (IsNumber order) (x, y) cs num n)
            (IsIncreasing-insert_cand order (x, y) cs num n i) in
        (r, rw (e, ◌>>=◌) e', p', i')

    shrink-long :
        (m nb : ℕ) (layer : Layer) (cands : CandSet D)
        → nat_eq nb id ≡ false
        → ltb m (length (links nb layer)) ≡ true
        → create_cand_set D t id nb vectors (links nb layer) [] ≡ done cands
        → shrink D t m id vectors nb layer
          ≡ done (assign nb (create_neighbour_set D (select_neighbors_heuristic cands m)) layer)
    unfolding shrink
    shrink-long m nb layer cands ne long e =
        rw (long, ne)
          (ap
            (λ o. o >>= λ cs.
              done (assign nb (create_neighbour_set D (select_neighbors_heuristic cs m)) layer))
            e)

    shrink-short :
        (m nb : ℕ) (layer : Layer)
        → ltb m (length (links nb layer)) ≡ false
        → shrink D t m id vectors nb layer ≡ done layer
    unfolding shrink
    shrink-short m nb layer short = rw short refl

    -- Some links of the neighbour may go, and then `m` stay.
    pub shrink-lem :
        (m nb : ℕ) (over : List ℕ) (layer : Layer)
        → nat_eq nb id ≡ false
        → Sizes m (nb ∷ over) layer
        → (l : Layer) × (shrink D t m id vectors nb layer ≡ done l)
          × ((x y : ℕ) → mem_id y (links x l) ≡ true → mem_id y (links x layer) ≡ true)
          × Sizes m over l
    shrink-lem m nb over layer ne s = elim (Bool-cases (ltb m (length (links nb layer)))) [
      | inr fits ↦ (
        layer,
        shrink-short m nb layer fits,
        λ x y h. h,
        λ x. ground (arith, s x, nat_eq_iff nb x),
      )
      | inl long ↦
          let own = links nb layer in
          let (cands, e, p, i) = create_cand_set-lem nb own own [] (All-mem_id own) tt tt tt in
          let (small, sub) = kept-lem m own cands p i in
          let kept = create_neighbour_set D (select_neighbors_heuristic cands m) in
          (
            assign nb kept layer,
            shrink-long m nb layer cands ne long e,
            λ x y h. ground (arith, links-assign x nb kept layer, nat_eq_iff nb x, sub y),
            λ x. ground (arith, links-assign x nb kept layer, nat_eq_iff nb x, small, s x),
          )
    ]

    -- The loop over the links of the inserted node returns, and then no node has more than `m` links in
    -- the layer; the links still join different ids of the list. Only neighbours in the loop have more
    -- links before it, none of them is the node itself, and the distance from the node to each id is a
    -- number.
    pub shrink_all-lem :
        (m : ℕ) (ids nbs : List ℕ) (layer : Layer)
        → All (λ nb. nat_eq nb id ≡ false) nbs
        → Sizes m nbs layer
        → Joins ids layer
        → (l : Layer) × (shrink_all D t m id vectors nbs layer ≡ done l)
          × Joins ids l
          × Sizes m [] l
    unfolding shrink_all
    shrink_all-lem m ids [] layer nes s j = (layer, refl, j, s)
    shrink_all-lem m ids (nb ∷ nbs) layer (ne, nes) s j =
        let (l, e, sub, s') = shrink-lem m nb nbs layer ne s in
        let (r, e', j', s'') = shrink_all-lem m ids nbs l nes s' (λ x y h. j x y (sub x y h)) in
        (r, ap (λ o. o >>= λ l. shrink_all D t m id vectors nbs l) e ∙ e', j', s'')
