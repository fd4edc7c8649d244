-- ===== src/Hnsw/Knn/Keeping.antt =====
-- The index keeps its parameters through every call.
use vector_db.Prelude.{
  ℕ, suc, ◌≡◌, refl, sym, ap, ◌∙◌, List, [], ◌∷◌, not, ◌||◌, min, done, >>=-eq-done, done-injective,
  Bool-cases, inl, inr, Option-cases, arith,
}
use vector_db.FloatVector.{FloatVector}
use vector_db.Vectors.{Vectors, get_vector_by_id, get_all_vector_ids}
use vector_db.Distance.{Double}
use vector_db.Index.Interface.{Score, Answer}
use vector_db.Ids.{put_ids}
use vector_db.IvfFlat.{is_empty_list}
use vector_db.Hnsw.{HnswIndex, no_lock_clear}
use vector_db.Hnsw.Graph.{unlink_layers}
use vector_db.Hnsw.Insert.{insert, finish_insert, start_insert, descend, connect}
use vector_db.Hnsw.Pending.{
  note_added, on_vectors_added, note_removed, on_vectors_removed, remove_node, remove_nodes,
  repair_entry, insert_nodes, build, init,
}
use vector_db.Hnsw.Knn.{settle, search_graph, search_for_top_k}

pub on_vectors_added-params :
    (ids : List ℕ) (i : HnswIndex) → (on_vectors_added ids i).params ≡ i.params
unfolding on_vectors_added
on_vectors_added-params [] i = refl
on_vectors_added-params (id ∷ ids) i = on_vectors_added-params ids (note_added id i)

pub on_vectors_removed-params :
    (ids : List ℕ) (i : HnswIndex) → (on_vectors_removed ids i).params ≡ i.params
unfolding on_vectors_removed
on_vectors_removed-params [] i = refl
on_vectors_removed-params (id ∷ ids) i =
    on_vectors_removed-params ids (note_removed id i) ∙ ground arith

remove_nodes-params :
    (ids : List ℕ) (i j : HnswIndex) → remove_nodes ids i ≡ done j → j.params ≡ i.params
unfolding remove_nodes remove_node
remove_nodes-params [] i j h = ap (λ x. x.params) (sym (done-injective h))
remove_nodes-params (id ∷ ids) i j h =
    let (k, e, h') = >>=-eq-done (remove_node id i) _ h in
    let (ls, _, e') = >>=-eq-done (unlink_layers id 0 i.top i.neighbours) _ e in
    remove_nodes-params ids k j h' ∙ ap (λ x. x.params) (sym (done-injective e'))

finish_insert-params : (id level : ℕ) (i : HnswIndex) → (finish_insert id level i).params ≡ i.params
finish_insert-params id level i = ground arith

repair_entry-params : (i : HnswIndex) → (repair_entry i).params ≡ i.params
unfolding repair_entry
repair_entry-params i = ground arith

module _ (D : Type 0) ⦃d : Double D⦄ where
  insert-params :
      (id : ℕ) (vectors : Vectors) (i j : HnswIndex)
      → insert D id vectors i ≡ done j
      → j.params ≡ i.params
  unfolding insert
  insert-params id vectors i j h =
      let (found, _, h') = >>=-eq-done (get_vector_by_id id vectors) _ h in
      elim (Option-cases found) [
        | inl gone ↦ ap (λ x. x.params) (sym (done-injective (rw gone at h')))
        | inr (v, e) ↦
            let s = start_insert id i in
            let level = i.draws i.drawn in
            let (ep, _, h2) =
              >>=-eq-done
                (descend D i.params.dist_type v vectors i.neighbours level i.top
                  (s.entry_point ∷ []))
                _ (rw e at h') in
            let (ls, _, h3) =
              >>=-eq-done (connect D i.params id v vectors (min (suc level) i.top) ep i.neighbours)
                _ h2 in
            ap (λ x. x.params) (sym (done-injective h3))
            ∙ finish_insert-params id level (record s { neighbours = ls })
      ]

  insert_nodes-params :
      (ids : List ℕ) (vectors : Vectors) (i j : HnswIndex)
      → insert_nodes D ids vectors i ≡ done j
      → j.params ≡ i.params
  unfolding insert_nodes
  insert_nodes-params [] vectors i j h = ap (λ x. x.params) (sym (done-injective h))
  insert_nodes-params (id ∷ ids) vectors i j h =
      let (k, e, h') = >>=-eq-done (insert D id vectors i) _ h in
      insert_nodes-params ids vectors k j h' ∙ insert-params id vectors i k e

  build-params :
      (vectors : Vectors) (i j : HnswIndex) → build D vectors i ≡ done j → j.params ≡ i.params
  unfolding build
  build-params vectors i j h =
      let (k, e, h') = >>=-eq-done (remove_nodes i.to_be_removed i) _ h in
      let r = repair_entry (record k { to_be_removed = [] }) in
      let (l, e', h'') = >>=-eq-done (insert_nodes D r.to_be_inserted vectors r) _ h' in
      ap (λ x. x.params) (sym (done-injective h''))
      ∙ insert_nodes-params r.to_be_inserted vectors r l e'
      ∙ repair_entry-params (record k { to_be_removed = [] })
      ∙ remove_nodes-params i.to_be_removed i k e

  pub init-params :
      (vectors : Vectors) (i j : HnswIndex) → init D vectors i ≡ done j → j.params ≡ i.params
  unfolding init no_lock_clear
  init-params vectors i j h = elim (Bool-cases (is_empty_list (get_all_vector_ids vectors))) [
    | inl e ↦ ap (λ x. x.params) (sym (done-injective (rw e at h)))
    | inr e ↦
        let cleared = no_lock_clear i in
        build-params vectors
          (record cleared { to_be_inserted = put_ids (get_all_vector_ids vectors) [] }) j
          (rw e at h)
  ]

  pub search_for_top_k-params :
      (query : FloatVector) (k : ℕ) (results : List (Score D)) (vectors : Vectors) (i j : HnswIndex)
      (a : Answer D)
      → search_for_top_k D query k results vectors i ≡ done (j, a)
      → j.params ≡ i.params
  unfolding search_for_top_k settle
  search_for_top_k-params query k results vectors i j a h =
      let (s, e, h') = >>=-eq-done (settle D vectors i) _ h in
      let (b, _, h'') = >>=-eq-done (search_graph D query k vectors s) _ h' in
      ap (λ x. x.0.params) (sym (done-injective h''))
      ∙ elim (Bool-cases
          (not (is_empty_list i.to_be_inserted) || not (is_empty_list i.to_be_removed))) [
            | inl waits ↦ build-params vectors i s (rw waits at e)
            | inr idle ↦ ap (λ x. x.params) (sym (done-injective (rw idle at e)))
          ]
