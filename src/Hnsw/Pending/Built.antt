-- ===== src/Hnsw/Pending/Built.antt =====
-- `init` builds the graph of all the vectors of the collection.
use vector_db.Prelude.{
  ℕ, ◌<◌, ◌≡◌, refl, sym, ap, ◌∙◌, subst, List, [], ◌∷◌, ◌++◌, true, false, not, ◌&&◌, ◌||◌, All,
  arith, inl, inr, Bool-cases, nat_eq, nat_eq_iff, Outcome, done, ◌>>=◌, some, All-map, ltb,
}
use vector_db.FloatVector.{FloatVector}
use vector_db.Vectors.{Vectors, get_vector_by_id, get_all_vector_ids}
use vector_db.Distance.{Double, DistType}
use vector_db.Distance.Order.{IsOrdered}
use vector_db.Ids.{mem_id, put_id, put_ids}
use vector_db.Ids.Laws.{mem_id-put_id, mem_id-put_ids, mem_id-append}
use vector_db.IvfFlat.{is_empty_list}
use vector_db.Hnsw.{HnswIndex, no_lock_clear}
use vector_db.Hnsw.LayerSearch.Kept.{Measurable, All-mem_id}
use vector_db.Hnsw.Insert.Grown.{IsGraph, insert-Inserted}
use vector_db.Hnsw.Pending.{insert_nodes, build, init, repair_entry, remove_nodes}

-- No id stands in the list twice.
abbrev Distinct : List ℕ → Type 0
Distinct [] = Unit
Distinct (id ∷ ids) = (mem_id id ids ≡ false) × Distinct ids

Distinct-snoc :
    (id : ℕ) (ids : List ℕ) → mem_id id ids ≡ false → Distinct ids → Distinct (ids ++ (id ∷ []))
Distinct-snoc id [] new d = (refl, tt)
Distinct-snoc id (j ∷ js) new (out, d) = (
  ground (arith, mem_id-append j js (id ∷ []), nat_eq_iff id j, nat_eq_iff j id),
  Distinct-snoc id js (ground arith) d,
)

put_ids-Distinct : (js ids : List ℕ) → Distinct ids → Distinct (put_ids js ids)
unfolding put_ids put_id
put_ids-Distinct [] ids d = d
put_ids-Distinct (j ∷ js) ids d = elim (Bool-cases (mem_id j ids)) [
  | inl has ↦ rw has (put_ids-Distinct js ids d)
  | inr new ↦ rw new (put_ids-Distinct js (ids ++ (j ∷ [])) (Distinct-snoc j ids new d))
]

pub All-mem {κ} : (P : ℕ → Type κ) (x : ℕ) (ids : List ℕ) → mem_id x ids ≡ true → All P ids → P x
All-mem P x [] h ps = cc
All-mem P x (id ∷ ids) h (p, ps) = elim (Bool-cases (nat_eq id x)) [
  | inl same ↦ subst P ((nat_eq_iff id x).0 same) p
  | inr other ↦ All-mem P x ids (ground arith) ps
]

none-has : (ids : List ℕ) → is_empty_list ids ≡ true → (x : ℕ) → false ≡ mem_id x ids
none-has [] h x = refl
none-has (id ∷ ids) h x = cc

still-new :
    (id : ℕ) (ids held : List ℕ)
    → mem_id id ids ≡ false
    → All (λ x. mem_id x held ≡ false) ids
    → All (λ x. mem_id x (put_id id held) ≡ false) ids
still-new id [] held out ns = tt
still-new id (x ∷ ids) held out (n, ns) = (
  ground (arith, mem_id-put_id x id held, nat_eq_iff id x, nat_eq_iff x id),
  still-new id ids held (ground arith) ns,
)

module _ {D : Type 0} ⦃d : Double D⦄ (order : IsOrdered d) (t : DistType) (vectors : Vectors) where
  -- The id is not 0, and has a vector with a distance to every id.
  abbrev pub IsPlaceable : ℕ → Type 0
  IsPlaceable id =
      (nat_eq id 0 ≡ false)
      × (v : FloatVector) × (get_vector_by_id id vectors ≡ done (some v))
      × Measurable order t v vectors

  -- After the loop over what waits to be inserted.
  insert_nodes-lem :
      (ids : List ℕ) (i : HnswIndex)
      → 0 < i.params.ef_construction
      → i.params.dist_type ≡ t
      → Distinct ids
      → All IsPlaceable ids
      → All (λ id. mem_id id i.inserted ≡ false) ids
      → IsGraph i
      → (j : HnswIndex) × (insert_nodes D ids vectors i ≡ done j)
        × IsGraph j
        × (j.params ≡ i.params)
        × ((x : ℕ) → mem_id x j.inserted ≡ (mem_id x ids || mem_id x i.inserted))
  unfolding insert_nodes
  insert_nodes-lem [] i some_ef same ds ps ns g = (i, refl, g, refl, λ x. refl)
  insert_nodes-lem (id ∷ ids) i some_ef same (out, ds) ((nz, v, found, m), ps) (new, ns) g =
      let (j, e, k) =
        insert-Inserted order id vectors i v some_ef nz new found
          (subst (λ t. Measurable order t v vectors) (sym same) m) g in
      let (r, e', g', same', has) =
        insert_nodes-lem ids j (subst (λ p. 0 < p.ef_construction) (sym k.same_params) some_ef)
          (ap (λ p. p.dist_type) k.same_params ∙ same) ds ps
          (subst (λ held. All (λ x. mem_id x held ≡ false) ids) (sym k.put)
            (still-new id ids i.inserted out ns))
          k.graph in
      (
        r,
        ap (λ o. o >>= λ j. insert_nodes D ids vectors j) e ∙ e',
        g',
        same' ∙ k.same_params,
        λ x.
            has x
            ∙ ap (λ held. mem_id x ids || mem_id x held) k.put
            ∙ ground (arith, mem_id-put_id x id i.inserted),
      )

-- Nothing waits.
abbrev pub IsSettled : HnswIndex → Type 0
IsSettled i = (i.to_be_inserted ≡ []) × (i.to_be_removed ≡ [])

-- An empty graph may lose its entry point.
repair_entry-IsGraph :
    (i : HnswIndex)
    → IsGraph i
    → IsGraph (repair_entry i)
      × ((repair_entry i).params ≡ i.params)
      × ((repair_entry i).inserted ≡ i.inserted)
      × ((repair_entry i).to_be_inserted ≡ i.to_be_inserted)
unfolding repair_entry
repair_entry-IsGraph i g =
    elim (Bool-cases (ltb 0 i.entry_point && not (mem_id i.entry_point i.inserted))) [
      | inr stays ↦ rw stays (g, refl, refl, refl)
      | inl goes ↦ rw goes (
        record {
          layered = g.layered;
          sized = g.sized;
          entry = elim g.entry [
            | inl empty ↦ inl empty
            | inr (held, at_top) ↦ absurd (ground arith)
          ];
          nonzero = g.nonzero;
        },
        refl,
        refl,
        refl,
      )
    ]

module _ {D : Type 0} ⦃d : Double D⦄ (order : IsOrdered d) (vectors : Vectors) where
  build-runs :
      (i j : HnswIndex)
      → i.to_be_removed ≡ []
      → (let r = repair_entry (record i { to_be_removed = [] }) in
          insert_nodes D r.to_be_inserted vectors r ≡ done j)
      → build D vectors i ≡ done (record j { to_be_removed = []; to_be_inserted = [] })
  unfolding build
  build-runs i j none_go e =
      let end : HnswIndex → Outcome HnswIndex =
        λ b. done (record b { to_be_removed = []; to_be_inserted = [] }) in
      let after : HnswIndex → Outcome HnswIndex = λ removed.
        (let r = repair_entry (record removed { to_be_removed = [] }) in
          insert_nodes D r.to_be_inserted vectors r >>= end) in
      ap (λ ids. remove_nodes ids i >>= after) none_go ∙ ap (λ o. o >>= end) e

  -- When only additions wait, `build` of a well-formed graph returns: it puts what waits into the graph,
  -- which stays well-formed, with no more links of a node than `M`, or `M0` in layer 0; the parameters are
  -- as they were, and nothing waits any more. `ef_construction` is not 0; no id waits twice or is in the graph
  -- already; and every one is not 0 and has a vector with a distance to every id that is a number.
  pub build-adds :
      (i : HnswIndex)
      → 0 < i.params.ef_construction
      → i.to_be_removed ≡ []
      → Distinct i.to_be_inserted
      → All (IsPlaceable order i.params.dist_type vectors) i.to_be_inserted
      → All (λ id. mem_id id i.inserted ≡ false) i.to_be_inserted
      → IsGraph i
      → (j : HnswIndex) × (build D vectors i ≡ done j)
        × IsGraph j
        × IsSettled j
        × (j.params ≡ i.params)
        × ((x : ℕ) → mem_id x j.inserted ≡ (mem_id x i.to_be_inserted || mem_id x i.inserted))
  build-adds i some_ef none_go ds ps ns g =
      let idle : IsGraph (record i { to_be_removed = [] }) = record {
        layered = g.layered;
        sized = g.sized;
        entry = g.entry;
        nonzero = g.nonzero;
      } in
      let (g', same, held, waits) = repair_entry-IsGraph (record i { to_be_removed = [] }) idle in
      let r = repair_entry (record i { to_be_removed = [] }) in
      let (j, e, g'', same', has) =
        insert_nodes-lem order i.params.dist_type vectors i.to_be_inserted r
          (subst (λ p. 0 < p.ef_construction) (sym same) some_ef) (ap (λ p. p.dist_type) same) ds ps
          (subst (λ ids. All (λ id. mem_id id ids ≡ false) i.to_be_inserted) (sym held) ns) g' in
      (
        record j { to_be_removed = []; to_be_inserted = [] },
        build-runs i j none_go (ap (λ ids. insert_nodes D ids vectors r) waits ∙ e),
        record {
          layered = g''.layered;
          sized = g''.sized;
          entry = g''.entry;
          nonzero = g''.nonzero;
        },
        (refl, refl),
        same' ∙ same,
        λ x. has x ∙ ap (λ ids. mem_id x i.to_be_inserted || mem_id x ids) held,
      )

  -- The pending index of `init`, before its build.
  abbrev waiting : HnswIndex → HnswIndex
  waiting i =
      let cleared = no_lock_clear i in
      record cleared { to_be_inserted = put_ids (get_all_vector_ids vectors) [] }

  cleared-IsGraph : (i : HnswIndex) → IsGraph (no_lock_clear i)
  unfolding no_lock_clear
  cleared-IsGraph i = record {
    layered = λ lc l e. cc;
    sized = refl;
    entry = inl (refl, refl);
    nonzero = refl;
  }

  placeable :
      (ids js : List ℕ) (t : DistType)
      → ((x : ℕ) → mem_id x js ≡ true → mem_id x ids ≡ true)
      → All (IsPlaceable order t vectors) ids
      → All (IsPlaceable order t vectors) js
  placeable ids js t sub ps =
      All-map (λ x h. All-mem (IsPlaceable order t vectors) x ids (sub x h) ps) js (All-mem_id js)

  init-empty :
      (i : HnswIndex)
      → is_empty_list (get_all_vector_ids vectors) ≡ true
      → init D vectors i ≡ done (no_lock_clear i)
  unfolding init
  init-empty i e = rw e refl

  init-some :
      (i j : HnswIndex)
      → is_empty_list (get_all_vector_ids vectors) ≡ false
      → build D vectors (waiting i) ≡ done j
      → init D vectors i ≡ done j
  unfolding init
  init-some i j e h = rw e h

  -- `init` returns: the graph holds exactly the ids of the collection, it is well-formed, the parameters are
  -- as they were and nothing waits. `ef_construction` is not 0, and every id of the collection is not 0
  -- and has a vector with a distance to every id that is a number.
  pub init_lem :
      (i : HnswIndex)
      → 0 < i.params.ef_construction
      → All (IsPlaceable order i.params.dist_type vectors) (get_all_vector_ids vectors)
      → (j : HnswIndex) × (init D vectors i ≡ done j)
        × IsGraph j
        × IsSettled j
        × (j.params ≡ i.params)
        × ((x : ℕ) → mem_id x j.inserted ≡ mem_id x (get_all_vector_ids vectors))
  unfolding no_lock_clear
  init_lem i some_ef ps =
      let ids = get_all_vector_ids vectors in
      elim (Bool-cases (is_empty_list ids)) [
        | inl none_in ↦ (
          no_lock_clear i,
          init-empty i none_in,
          cleared-IsGraph i,
          (refl, refl),
          refl,
          none-has ids none_in,
        )
        | inr some_in ↦
            let put = put_ids ids [] in
            let idle : IsGraph (waiting i) = record {
              layered = λ lc l e. cc;
              sized = refl;
              entry = inl (refl, refl);
              nonzero = refl;
            } in
            let (j, e, g, settled, same, has) =
              build-adds (waiting i) some_ef refl (put_ids-Distinct ids [] tt)
                (placeable ids put i.params.dist_type
                  (λ x h. ground (arith, mem_id-put_ids x ids [])) ps)
                (All-map (λ x h. refl) put (All-mem_id put)) idle in
            (
              j,
              init-some i j some_in e,
              g,
              settled,
              same,
              λ x. has x ∙ ground (arith, mem_id-put_ids x ids []),
            )
      ]
