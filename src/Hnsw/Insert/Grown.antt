-- ===== src/Hnsw/Insert/Grown.antt =====
-- `insert` of src/impl/core/indices/hnsw.cpp returns, and keeps the invariant of the graph.
use vector_db.Prelude.{
  ℕ, suc, ◌<◌, ◌≡◌, ◌⊎◌, refl, sym, ap, ◌∙◌, subst, List, [], ◌∷◌, true, false, if◌then◌else◌,
  length, leb, arith, inl, inr, Bool-cases, nat_eq, nat_eq_iff, nat_key, Outcome, done, ◌>>=◌, min,
  none, some, get_elem?, Option-cases,
}
use vector_db.FloatVector.{FloatVector}
use vector_db.Vectors.{Vectors, get_vector_by_id}
use vector_db.Assoc.{find, assign}
use vector_db.Assoc.Laws.{find-assign}
use vector_db.Index.{HnswParams}
use vector_db.Distance.{Double}
use vector_db.Distance.Order.{IsOrdered}
use vector_db.Ids.{mem_id, put_id}
use vector_db.Ids.Laws.{mem_id-put_id}
use vector_db.Hnsw.{HnswIndex}
use vector_db.Hnsw.Graph.{Layer, links, resize}
use vector_db.Hnsw.Graph.Links.{Joins, Joins-put_id}
use vector_db.Hnsw.Graph.Layers.{get_elem?-resize, length-resize}
use vector_db.Hnsw.LayerSearch.Kept.{Measurable}
use vector_db.Hnsw.Insert.{layer_m, descend, connect, start_insert, finish_insert, insert}
use vector_db.Hnsw.Insert.Linked.{Sizes}
use vector_db.Hnsw.Insert.Connected.{IsLayered, descend-lem, connect-lem}
use vector_db.Hnsw.Pending.{level_of}

-- The graph is empty, or its entry point is a node in it on the top layer.
abbrev pub HasEntry : HnswIndex → Type 0
HasEntry i =
    ((i.top ≡ 0) × (i.inserted ≡ []))
    ⊎ ((mem_id i.entry_point i.inserted ≡ true) × (suc (level_of i.entry_point i) ≡ i.top))

-- Each layer joins different inserted ids, with at most `M` links of each, or `M0` in layer 0; there are
-- as many layers as `max_layer_` says; the entry point is a node on the top one; and 0 is no id.
pub record IsGraph (i : HnswIndex) : Type 0 where
  pub layered : IsLayered i.params i.inserted i.neighbours
  pub sized : length i.neighbours ≡ i.top
  pub entry : HasEntry i
  pub nonzero : mem_id 0 i.inserted ≡ false

-- `insert` adds the id, and leaves the parameters and what waits.
pub record Inserted (id : ℕ) (i j : HnswIndex) : Type 0 where
  pub graph : IsGraph j
  pub put : j.inserted ≡ put_id id i.inserted
  pub same_params : j.params ≡ i.params
  pub same_pending : (j.to_be_inserted ≡ i.to_be_inserted) × (j.to_be_removed ≡ i.to_be_removed)

IsLayered-put_id :
    (p : HnswParams) (id : ℕ) (ids : List ℕ) (ls : List Layer)
    → IsLayered p ids ls
    → IsLayered p (put_id id ids) ls
IsLayered-put_id p id ids ls h lc l e = (Joins-put_id id ids l (h lc l e).0, (h lc l e).1)

-- A layer without links.
Joins-empty : (ids : List ℕ) → Joins ids []
unfolding links find
Joins-empty ids x y h = cc

Sizes-empty : (m : ℕ) → Sizes m [] []
unfolding links find
Sizes-empty m x = inl (omega arith)

pub IsLayered-resize :
    (p : HnswParams) (ids : List ℕ) (n : ℕ) (ls : List Layer)
    → IsLayered p ids ls
    → IsLayered p ids (resize n ls)
IsLayered-resize p ids n ls h lc l e = elim (Option-cases (get_elem? ls lc)) [
  | inl past ↦
      let written : l ≡ [] = ground (arith, get_elem?-resize lc n ls) in
      subst (λ k. Joins ids k × Sizes (layer_m p lc) [] k) (sym written)
        (Joins-empty ids, Sizes-empty (layer_m p lc))
  | inr (k, at_lc) ↦ h lc l (ground (arith, get_elem?-resize lc n ls))
]

-- Before the end of `insert`.
abbrev connected : ℕ → List Layer → HnswIndex → HnswIndex
connected id ls i = let s = start_insert id i in record s { neighbours = ls }

level_of-assign :
    (x id level : ℕ) (levels : List (ℕ × ℕ))
    → elim (find x (assign id level levels)) [ none ↦ 0 | some l ↦ l ]
      ≡ (if nat_eq id x then level else elim (find x levels) [ none ↦ 0 | some l ↦ l ])
level_of-assign x id level levels = rw (find-assign x id level levels) (ground arith)

module _ (id : ℕ) (i : HnswIndex) (ls : List Layer) (nz : nat_eq id 0 ≡ false)
    (new : mem_id id i.inserted ≡ false) (g : IsGraph i)
    (h : IsLayered i.params (put_id id i.inserted) ls) (len : length ls ≡ length i.neighbours) where
  no_zero : mem_id 0 (put_id id i.inserted) ≡ false
  no_zero = ground (arith, mem_id-put_id 0 id i.inserted, g.nonzero)

  own_level : level_of id (connected id ls i) ≡ i.draws i.drawn
  own_level =
      ground (arith, level_of-assign id id (i.draws i.drawn) i.node_levels, nat_eq_iff id id)

  -- The node is a new top.
  raised-Inserted :
      leb i.top (i.draws i.drawn) ≡ true
      → Inserted id i (finish_insert id (i.draws i.drawn) (connected id ls i))
  raised-Inserted raised = rw raised record {
    graph = record {
      layered = IsLayered-resize i.params (put_id id i.inserted) (suc (i.draws i.drawn)) ls h;
      sized = length-resize (suc (i.draws i.drawn)) ls;
      entry =
          inr (ground (arith, mem_id-put_id id id i.inserted, nat_eq_iff id id), ap suc own_level);
      nonzero = no_zero;
    };
    put = refl;
    same_params = refl;
    same_pending = (refl, refl);
  }

  entry_stays :
      (mem_id i.entry_point i.inserted ≡ true) × (suc (level_of i.entry_point i) ≡ i.top)
      → (let s = connected id ls i in
          (mem_id s.entry_point (put_id id i.inserted) ≡ true)
          × (suc (level_of s.entry_point s) ≡ i.top))
  entry_stays (held, at_top) =
      let some_entry : nat_eq i.entry_point 0 ≡ false =
        ground (arith, nat_eq_iff i.entry_point 0, g.nonzero) in
      rw some_entry (
        ground (arith, mem_id-put_id i.entry_point id i.inserted),
        ground (
          arith,
          level_of-assign i.entry_point id (i.draws i.drawn) i.node_levels,
          nat_eq_iff id i.entry_point,
        ),
      )

  within-Inserted :
      leb i.top (i.draws i.drawn) ≡ false
      → Inserted id i (finish_insert id (i.draws i.drawn) (connected id ls i))
  within-Inserted within = rw within record {
    graph = record {
      layered = h;
      sized = len ∙ g.sized;
      entry = elim g.entry [
        | inl (no_top, none_in) ↦ absurd (ground arith)
        | inr at ↦ inr (entry_stays at)
      ];
      nonzero = no_zero;
    };
    put = refl;
    same_params = refl;
    same_pending = (refl, refl);
  }

module _ {D : Type 0} ⦃d : Double D⦄ (order : IsOrdered d) where
  -- The two loops of `insert` return.
  way :
      (id : ℕ) (vectors : Vectors) (i : HnswIndex) (v : FloatVector) (level : ℕ)
      → 0 < i.params.ef_construction
      → mem_id id i.inserted ≡ false
      → get_vector_by_id id vectors ≡ done (some v)
      → Measurable order i.params.dist_type v vectors
      → IsGraph i
      → (ep : List ℕ) × (ls : List Layer) × (descend D i.params.dist_type v vectors i.neighbours
            level i.top
            ((if nat_eq i.entry_point 0 then id else i.entry_point) ∷ [])
          ≡ done ep)
        × (connect D i.params id v vectors (min (suc level) i.top) ep i.neighbours ≡ done ls)
        × IsLayered i.params (put_id id i.inserted) ls
        × (length ls ≡ length i.neighbours)
  unfolding descend connect
  way id vectors i v level some_ef new found m g =
      let h = IsLayered-put_id i.params id i.inserted i.neighbours g.layered in
      elim g.entry [
        | inl (no_top, none_in) ↦
            let no_layer : min (suc level) 0 ≡ 0 = omega arith in
            (
              (if nat_eq i.entry_point 0 then id else i.entry_point) ∷ [],
              i.neighbours,
              rw no_top refl,
              rw (no_top, no_layer) refl,
              h,
              refl,
            )
        | inr (held, at_top) ↦
            let some_entry : nat_eq i.entry_point 0 ≡ false =
              ground (arith, nat_eq_iff i.entry_point 0, g.nonzero) in
            let (ep, e, start, nonempty) =
              descend-lem order i.params.dist_type v vectors m i.inserted i.neighbours
                (λ lc l at. (g.layered lc l at).0) level i.top (omega (arith, g.sized))
                (i.entry_point ∷ []) (held, tt) (omega arith) in
            let (ls, e', h', len) =
              connect-lem order i.params some_ef vectors id v found m i.inserted new
                (min (suc level) i.top) ep i.neighbours (omega (arith, g.sized)) start nonempty
                (λ lc l below at. (g.layered lc l at).0) h in
            (ep, ls, rw some_entry e, e', h', len)
      ]

  insert-runs :
      (id : ℕ) (vectors : Vectors) (i : HnswIndex) (v : FloatVector) (ep : List ℕ) (ls : List Layer)
      → get_vector_by_id id vectors ≡ done (some v)
      → descend D i.params.dist_type v vectors i.neighbours
          (i.draws i.drawn)
          i.top
          ((if nat_eq i.entry_point 0 then id else i.entry_point) ∷ [])
        ≡ done ep
      → connect D i.params id v vectors (min (suc (i.draws i.drawn)) i.top) ep i.neighbours
        ≡ done ls
      → insert D id vectors i ≡ done (finish_insert id (i.draws i.drawn) (connected id ls i))
  unfolding insert
  insert-runs id vectors i v ep ls found e e' =
      let end : List Layer → Outcome HnswIndex =
        λ ls. done (finish_insert id (i.draws i.drawn) (connected id ls i)) in
      rw (found, ◌>>=◌)
        (ap
            (λ o. o >>= λ ep.
              connect D i.params id v vectors (min (suc (i.draws i.drawn)) i.top) ep i.neighbours
              >>= end)
            e
          ∙ ap (λ o. o >>= end) e')

  -- A node that has a vector, and is not in the graph, is put into it.
  pub insert-Inserted :
      (id : ℕ) (vectors : Vectors) (i : HnswIndex) (v : FloatVector)
      → 0 < i.params.ef_construction
      → nat_eq id 0 ≡ false
      → mem_id id i.inserted ≡ false
      → get_vector_by_id id vectors ≡ done (some v)
      → Measurable order i.params.dist_type v vectors
      → IsGraph i
      → (j : HnswIndex) × (insert D id vectors i ≡ done j) × Inserted id i j
  insert-Inserted id vectors i v some_ef nz new found m g =
      let level = i.draws i.drawn in
      let (ep, ls, e, e', h, len) = way id vectors i v level some_ef new found m g in
      (
        finish_insert id level (connected id ls i),
        insert-runs id vectors i v ep ls found e e',
        elim (Bool-cases (leb i.top level)) [
          | inl raised ↦ raised-Inserted id i ls nz new g h len raised
          | inr within ↦ within-Inserted id i ls nz new g h len within
        ],
      )
