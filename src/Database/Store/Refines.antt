-- ===== src/Database/Store/Refines.antt =====
-- Every call of the database does to the tables what `act` says.
use mathlib.Core.Path.{fun_ext}
use vector_db.Prelude.{
  ℕ, List, [], Option, none, some, done, ◌>>=◌, >>=-eq-done, done-injective, Bool, if◌then◌else◌,
  Bytes, bytes_key, nat_key, ◌≡◌, inl, inr, refl, sym, ap, ◌∙◌, Bool-cases, Option-cases, arith,
}
use vector_db.Status.{Status, success, succeeded, failure}
use vector_db.Name.{is_collection_name_valid}
use vector_db.Assoc.{find, erase}
use vector_db.FloatVector.{FloatVector}
use vector_db.Index.{IndexType, Params}
use vector_db.Index.Interface.{IndexClass, Score, Answer, answered, threw}
use vector_db.Distance.{Double}
use vector_db.Collection.{Collection, new_collection}
use vector_db.Collection
use vector_db.Ids.{mem_id}
use vector_db.Collection.Changes.{
  last_given, add_vectors-eq-done, remove_vectors-eq-done, find-store_all, find-erase_all,
}
use vector_db.Database.{
  Database, reply, nearest_in, put, all_have_dimension, add_vectors, add_collection,
  delete_collection, delete_vectors, add_index, get_nearest_k,
}
use vector_db.Database.Store.Views.{
  view-assign, view-emplace, view-erase, view_kept, call-cases, viewed, refines_call,
}
use vector_db.Scan
use vector_db.Database.Store.{
  search_status, Call, adds_collection, deletes_collection, adds_vectors, deletes_vectors,
  adds_index, searches, step, update, act, table, view,
}

module _ {D : Type 0} (C : IndexClass D) where
  table-add_vectors :
      (vectors : List (ℕ × FloatVector)) (c c' : Collection C) (counts : ℕ × ℕ)
      → Collection.add_vectors C vectors c ≡ done (c', counts)
      → table C c'
        ≡ record (table C c) { entries = λ id. last_given id vectors (find id c.vectors) }
  table-add_vectors vectors c c' (added, updated) h =
      let (indices, _, same, _, _) = add_vectors-eq-done C vectors c c' added updated h in
      rw same
        (ap (λ f. record (table C c) { entries = f }) (fun_ext λ id. find-store_all id vectors _))

  table-remove_vectors :
      (ids : List ℕ) (c c' : Collection C) (count : ℕ)
      → Collection.remove_vectors C ids c ≡ done (c', count)
      → table C c'
        ≡ record (table C c) { entries = λ id. if mem_id id ids then none else find id c.vectors }
  table-remove_vectors ids c c' count h =
      let (indices, same, _, _) = remove_vectors-eq-done C ids c c' count h in
      rw same (
        ap (λ f. record (table C c) { entries = f })
          (fun_ext λ id. find-erase_all id ids c.vectors))

  refines-add_vectors :
      (name : Bytes) (vectors : List (ℕ × FloatVector)) (db : Database C) (r : Database C × Status)
      → add_vectors C name vectors db ≡ done r
      → act (adds_vectors name vectors) (view C db) ≡ viewed C r
  unfolding add_vectors
  refines-add_vectors name vectors db r h = refines_call C name db r _ _ h λ c e k.
      elim (Bool-cases (all_have_dimension c.dimension vectors)) [
        | inr bad ↦ rw bad (ap (viewed C) (done-injective (rw bad at k)))
        | inl good ↦
            let ((c', counts), stored, l) =
              >>=-eq-done (Collection.add_vectors C vectors c) _ (rw good at k) in
            rw good (
              ap (λ t. (update name (some t) (view C db), success))
                (sym (table-add_vectors vectors c c' counts stored))
              ∙ ap (λ v. (v, success)) (sym (view-assign C name c' db))
              ∙ ap (viewed C) (done-injective l))
      ]

  refines-delete_vectors :
      (name : Bytes) (ids : List ℕ) (db : Database C) (r : Database C × Status)
      → delete_vectors C name ids db ≡ done r
      → act (deletes_vectors name ids) (view C db) ≡ viewed C r
  unfolding delete_vectors
  refines-delete_vectors name ids db r h = refines_call C name db r _ _ h λ c e k.
      let ((c', count), removed, l) = >>=-eq-done (Collection.remove_vectors C ids c) _ k in
      ap (λ t. (update name (some t) (view C db), success))
        (sym (table-remove_vectors ids c c' count removed))
      ∙ ap (λ v. (v, success)) (sym (view-assign C name c' db))
      ∙ ap (viewed C) (done-injective l)

  refines-add_collection :
      (name : Bytes) (dimension : ℕ) (db : Database C)
      → act (adds_collection name dimension) (view C db)
        ≡ viewed C (add_collection C name dimension db)
  unfolding add_collection find
  refines-add_collection name dimension db =
      elim (Bool-cases (succeeded (is_collection_name_valid name))) [
        | inr e ↦ rw e refl
        | inl e ↦ elim (Option-cases (find name db.collections)) [
          | inr (c, f) ↦ rw (e, f) refl
          | inl f ↦
              rw (e, f)
                (ap (λ v. (v, success))
                  (sym (view-emplace C name (new_collection C dimension name) db f)))
        ]
      ]

  refines-delete_collection :
      (name : Bytes) (db : Database C)
      → act (deletes_collection name) (view C db) ≡ viewed C (delete_collection C name db)
  unfolding delete_collection
  refines-delete_collection name db = elim (call-cases C name db) [
    | inl (c, (e, code, spec)) ↦
        spec (λ t. (update name none (view C db), success))
        ∙ ap (λ v. (v, success)) (sym (view-erase C name db))
        ∙ ap (viewed C) (
            sym (
              code _ (λ s. (db, s))
                λ c. (record db { collections = erase name db.collections }, success)))
    | inr (s, (code, spec)) ↦
        spec (λ t. (update name none (view C db), success))
        ∙ ap (viewed C) (
            sym (
              code _ (λ s. (db, s))
                λ c. (record db { collections = erase name db.collections }, success)))
  ]

  table-add_index :
      (draws : ℕ → ℕ) (index_name : Bytes) (t : IndexType) (params : Option Params)
      (c c' : Collection C) (added : Bool)
      → Collection.add_index C draws index_name t params c ≡ done (c', added)
      → table C c' ≡ table C c
  unfolding Collection.add_index
  table-add_index draws index_name t params c c' added h = ground arith

  refines-add_index :
      (draws : ℕ → ℕ) (name index_name : Bytes) (t : IndexType) (params : Option Params)
      (db : Database C) (r : Database C × Status)
      → add_index C draws name index_name t params db ≡ done r
      → act (adds_index draws name index_name t params) (view C db) ≡ viewed C r
  unfolding add_index
  refines-add_index draws name index_name t params db r h =
      refines_call C name db r _ (λ _. (view C db, success)) h
        λ c e k.
          let ((c', added), adding, l) =
            >>=-eq-done (Collection.add_index C draws index_name t params c) _ k in
          ap (λ v. (v, success))
            (sym (
              view_kept C name c c' db e
                (table-add_index draws index_name t params c c' added adding)))
          ∙ ap (viewed C) (done-injective l)

module _ {D : Type 0} ⦃d : Double D⦄ (C : IndexClass D) where
  table-search :
      (query : FloatVector) (k : ℕ) (results : List (Score D)) (index_name : Bytes)
      (c c' : Collection C) (a : Answer D)
      → Collection.search_for_top_k C query k results index_name c ≡ done (c', a)
      → table C c' ≡ table C c
  unfolding Collection.search_for_top_k
  table-search query k results index_name c c' a h =
      elim (Option-cases (find index_name c.indices)) [
        | inl e ↦
            let (b, _, l) =
              >>=-eq-done (Scan.search_for_top_k query k c.vectors) _
                (rw (e, Collection.search_for_top_k) at h) in
            ap (λ r. table C r.0) (sym (done-injective l))
        | inr (i, e) ↦
            let ((j, b), _, l) =
              >>=-eq-done (C.search_for_top_k query k results c.vectors i) _
                (rw (e, Collection.search_for_top_k) at h) in
            ap (λ r. table C r.0) (sym (done-injective l))
      ]

  search_status_lem :
      (db : Database C) (a : Answer D) (r : Database C × Status)
      → search_status C (db, reply C a) ≡ done r
      → (db, success) ≡ r
  search_status_lem db (answered b results) r h = done-injective h
  search_status_lem db threw r h = cc

  refines-search :
      (name : Bytes) (query : FloatVector) (k : ℕ) (db : Database C) (r : Database C × Status)
      → (get_nearest_k C name query k db >>= search_status C) ≡ done r
      → act (searches name query k) (view C db) ≡ viewed C r
  unfolding get_nearest_k
  refines-search name query k db r h = elim (call-cases C name db) [
    | inl (c, (e, code, spec)) ↦
        let (x, got, answer) = >>=-eq-done (get_nearest_k C name query k db) (search_status C) h in
        let ((c', a), searched, l) =
          >>=-eq-done (Collection.search_for_top_k C query k [] [] c)
            (λ (c', a). done (put C name c' db, reply C a))
            (sym (code _ (λ s. done (db, some (failure s))) (nearest_in C name query k db))
              ∙ got) in
        spec (λ _. (view C db, success))
        ∙ ap (λ v. (v, success))
            (sym (view_kept C name c c' db e (table-search query k [] [] c c' a searched)))
        ∙ ap (viewed C)
            (search_status_lem (put C name c' db) a r (ap (λ o. o >>= search_status C) l ∙ answer))
    | inr (s, (code, spec)) ↦
        let (x, got, answer) = >>=-eq-done (get_nearest_k C name query k db) (search_status C) h in
        let refused : done (db, some (failure s)) ≡ done x =
          sym (code _ (λ s. done (db, some (failure s))) (nearest_in C name query k db)) ∙ got in
        spec (λ _. (view C db, success))
        ∙ ap (viewed C) (done-injective (ap (λ o. o >>= search_status C) refused ∙ answer))
  ]

  -- A call that returns does to the tables what `act` does to their view, and returns its status: the
  -- indices, and what they hold, make no difference.
  pub step-act :
      (call : Call) (db db' : Database C) (s : Status)
      → step C call db ≡ done (db', s)
      → act call (view C db) ≡ (view C db', s)
  unfolding step
  step-act (adds_collection name dimension) db db' s h =
      refines-add_collection C name dimension db ∙ ap (viewed C) (done-injective h)
  step-act (deletes_collection name) db db' s h =
      refines-delete_collection C name db ∙ ap (viewed C) (done-injective h)
  step-act (adds_vectors name vectors) db db' s h = refines-add_vectors C name vectors db (db', s) h
  step-act (deletes_vectors name ids) db db' s h = refines-delete_vectors C name ids db (db', s) h
  step-act (adds_index draws name index_name t params) db db' s h =
      refines-add_index C draws name index_name t params db (db', s) h
  step-act (searches name query k) db db' s h = refines-search name query k db (db', s) h
