-- ===== src/Indices/Keeping.antt =====
-- The implementations keep their parameters.
use vector_db.Prelude.{
  ℕ, List, map, done, >>=-eq-done, done-injective, inl, inr, ◌≡◌, refl, sym, ap, ◌∙◌, Bool-cases,
  length,
}
use vector_db.Vectors.{Vectors, get_all_vector_ids}
use vector_db.KMeans.{k_means}
use vector_db.Index.{Params, of_hnsw, of_ivf}
use vector_db.Index.Interface.{Score, Answer, KeepsParams}
use vector_db.Distance.{Double}
use vector_db.IvfFlat
use vector_db.Hnsw.{new_index}
use vector_db.Hnsw.Pending
use vector_db.Hnsw.Knn
use vector_db.Hnsw.Knn.Keeping as Kept
use vector_db.FloatVector.{FloatVector}
use vector_db.IvfFlat.{
  IvfIndex, is_empty_list, is_due, count_changes, collect, with_ids, build, add_vectors_incremental,
  on_vectors_added, on_vectors_removed,
}
use vector_db.Indices.{
  AnyIndex, make_index, call_init, call_added, call_removed, call_search, params_of, indices,
}

module _ (D : Type 0) ⦃d : Double D⦄ where
  build-params : (vs : Vectors) (i j : IvfIndex) → build D vs i ≡ done j → j.params ≡ i.params
  unfolding build
  build-params vs i j h =
      let (found, _, h1) = >>=-eq-done (collect (get_all_vector_ids vs) vs) _ h in
      let (cs, _, h2) =
        >>=-eq-done (k_means D (map (λ p. p.1) found) i.params.k i.params.dist_type 100) _ h1 in
      let (named, _, h3) = >>=-eq-done (with_ids (map (λ p. p.0) found) cs) _ h2 in
      ap (λ x. x.params) (sym (done-injective h3))

  on_vectors_added-params :
      (ids : List ℕ) (vs : Vectors) (i j : IvfIndex)
      → on_vectors_added D ids vs i ≡ done j
      → j.params ≡ i.params
  unfolding on_vectors_added
  on_vectors_added-params ids vs i j h =
      let counted = count_changes (length ids) i in
      elim (Bool-cases (is_empty_list i.clusters)) [
        | inl e ↦ build-params vs i j (rw e at h)
        | inr e ↦ elim (Bool-cases (is_due counted)) [
          | inl due ↦ build-params vs counted j (rw (e, due) at h)
          | inr early ↦
              let (cs, _, k) =
                >>=-eq-done (add_vectors_incremental D ids vs i.params i.clusters) _
                  (rw (e, early) at h) in
              ap (λ x. x.params) (sym (done-injective k))
        ]
      ]

  on_vectors_removed-params :
      (ids : List ℕ) (vs : Vectors) (i j : IvfIndex)
      → on_vectors_removed D ids vs i ≡ done j
      → j.params ≡ i.params
  unfolding on_vectors_removed
  on_vectors_removed-params ids vs i j h =
      let counted = count_changes (length ids) i in
      elim (Bool-cases (is_empty_list i.clusters)) [
        | inl e ↦ ap (λ x. x.params) (sym (done-injective (rw e at h)))
        | inr e ↦ elim (Bool-cases (is_due counted)) [
          | inl due ↦ build-params vs counted j (rw (e, due) at h)
          | inr early ↦ ap (λ x. x.params) (sym (done-injective (rw (e, early) at h)))
        ]
      ]

module _ (D : Type 0) ⦃d : Double D⦄ where
  init-params :
      (vs : Vectors) (i j : AnyIndex) → call_init D vs i ≡ done j → params_of j ≡ params_of i
  init-params vs (inl i) j h =
      let (k, built, e) = >>=-eq-done (build D vs i) _ h in
      ap params_of (sym (done-injective e)) ∙ ap of_ivf (build-params D vs i k built)
  init-params vs (inr i) j h =
      let (k, built, e) = >>=-eq-done (Pending.init D vs i) _ h in
      ap params_of (sym (done-injective e)) ∙ ap of_hnsw (Kept.init-params D vs i k built)

  added-params :
      (ids : List ℕ) (vs : Vectors) (i j : AnyIndex)
      → call_added D ids vs i ≡ done j
      → params_of j ≡ params_of i
  added-params ids vs (inl i) j h =
      let (k, built, e) = >>=-eq-done (on_vectors_added D ids vs i) _ h in
      ap params_of (sym (done-injective e)) ∙ ap of_ivf (on_vectors_added-params D ids vs i k built)
  added-params ids vs (inr i) j h =
      ap params_of (sym (done-injective h)) ∙ ap of_hnsw (Kept.on_vectors_added-params ids i)

  removed-params :
      (ids : List ℕ) (vs : Vectors) (i j : AnyIndex)
      → call_removed D ids vs i ≡ done j
      → params_of j ≡ params_of i
  removed-params ids vs (inl i) j h =
      let (k, built, e) = >>=-eq-done (on_vectors_removed D ids vs i) _ h in
      ap params_of (sym (done-injective e))
      ∙ ap of_ivf (on_vectors_removed-params D ids vs i k built)
  removed-params ids vs (inr i) j h =
      ap params_of (sym (done-injective h)) ∙ ap of_hnsw (Kept.on_vectors_removed-params ids i)

  searched-params :
      (q : FloatVector) (k : ℕ) (r : List (Score D)) (vs : Vectors) (i j : AnyIndex) (a : Answer D)
      → call_search D q k r vs i ≡ done (j, a)
      → params_of j ≡ params_of i
  searched-params q k r vs (inl i) j a h =
      let (b, _, e) = >>=-eq-done (IvfFlat.search_for_top_k q k r vs i) _ h in
      ap (λ x. params_of x.0) (sym (done-injective e))
  searched-params q k r vs (inr i) j a h =
      let ((l, b), found, e) = >>=-eq-done (Knn.search_for_top_k D q k r vs i) _ h in
      ap (λ x. params_of x.0) (sym (done-injective e))
      ∙ ap of_hnsw (Kept.search_for_top_k-params D q k r vs i l b found)

  made-params : (draws : ℕ → ℕ) (p : Params) → params_of (make_index draws p) ≡ p
  unfolding new_index
  made-params draws (of_ivf p) = refl
  made-params draws (of_hnsw p) = refl

  -- An index of either type keeps its parameters through every call: the law of the interface that a
  -- collection's serialised form rests on.
  pub indices-KeepsParams : KeepsParams (indices D)
  indices-KeepsParams = record {
    make_params = made-params;
    init_params = init-params;
    added_params = added-params;
    removed_params = removed-params;
    searched_params = searched-params;
  }
