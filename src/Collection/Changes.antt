-- ===== src/Collection/Changes.antt =====
-- What `add_vectors` and `remove_vectors` do to the vectors of a collection.
use vector_db.Prelude.{
  ℕ, suc, ◌+◌, ◌≡◌, inl, inr, refl, ap, ◌∙◌, List, [], ◌∷◌, Option, none, some, Outcome, done,
  ◌>>=◌, >>=-eq-done, if◌then◌else◌, Bytes, nat_key, nat_eq, nat_eq_iff, length, arith,
  Option-cases,
}
use vector_db.Assoc.{find, erase, keys}
use vector_db.Assoc.Laws.{
  find-emplace, find-assign, find-erase, DistinctKeys, emplace-DistinctKeys, assign-DistinctKeys,
  erase-DistinctKeys, length-assign, length-emplace, length-erase,
}
use vector_db.FloatVector.{FloatVector, move_assign}
use vector_db.Ids.{mem_id}
use vector_db.Vectors.{Vectors}
use vector_db.Index.Interface.{IndexClass}
use vector_db.Collection.{
  Collection, Stored, store, store_all, erase_all, each, stored_in, add_vectors, notify_removed,
  remove_vectors,
}

-- The last vector given for an id, or else the one before.
abbrev pub last_given : ℕ → List (ℕ × FloatVector) → Option FloatVector → Option FloatVector
last_given id [] before = before
last_given id ((j, v) ∷ vs) before = last_given id vs (if nat_eq j id then some v else before)

find-store :
    (id : ℕ) (p : ℕ × FloatVector) (s : Stored)
    → find id (store p s).vectors ≡ (if nat_eq p.0 id then some p.1 else find id s.vectors)
unfolding store move_assign
find-store id (j, v) s =
    ground (arith, nat_eq_iff j id, find-assign id j v s.vectors, find-emplace id j v s.vectors)

pub find-store_all :
    (id : ℕ) (vs : List (ℕ × FloatVector)) (s : Stored)
    → find id (store_all vs s).vectors ≡ last_given id vs (find id s.vectors)
unfolding store_all
find-store_all id [] s = refl
find-store_all id (p ∷ vs) s =
    find-store_all id vs (store p s) ∙ ap (last_given id vs) (find-store id p s)

counts-store :
    (p : ℕ × FloatVector) (s : Stored)
    → let t = store p s in
      (t.added + t.updated ≡ suc (s.added + s.updated))
      × (length t.vectors + s.added ≡ length s.vectors + t.added)
unfolding store
counts-store (id, v) s = elim (Option-cases (find id s.vectors)) [
  | inl e ↦ rw (e, store) (omega (arith, length-emplace id v s.vectors e))
  | inr (w, e) ↦ rw (e, store) (omega (arith, length-assign id (move_assign w v).0 w s.vectors e))
]

counts-store_all :
    (vs : List (ℕ × FloatVector)) (s : Stored)
    → let t = store_all vs s in
      (t.added + t.updated ≡ s.added + s.updated + length vs)
      × (length t.vectors + s.added ≡ length s.vectors + t.added)
unfolding store_all
counts-store_all [] s = omega arith
counts-store_all (p ∷ vs) s = omega (arith, counts-store p s, counts-store_all vs (store p s))

store-DistinctKeys :
    (p : ℕ × FloatVector) (s : Stored) → DistinctKeys s.vectors → DistinctKeys (store p s).vectors
unfolding store
store-DistinctKeys (id, v) s h = elim (Option-cases (find id s.vectors)) [
  | inl e ↦ rw (e, store) (emplace-DistinctKeys id v s.vectors h)
  | inr (w, e) ↦ rw (e, store) (assign-DistinctKeys id (move_assign w v).0 s.vectors h)
]

pub store_all-DistinctKeys :
    (vs : List (ℕ × FloatVector)) (s : Stored)
    → DistinctKeys s.vectors
    → DistinctKeys (store_all vs s).vectors
unfolding store_all
store_all-DistinctKeys [] s h = h
store_all-DistinctKeys (p ∷ vs) s h =
    store_all-DistinctKeys vs (store p s) (store-DistinctKeys p s h)

pub find-erase_all :
    (id : ℕ) (ids : List ℕ) (m : Vectors)
    → find id (erase_all ids m).0 ≡ (if mem_id id ids then none else find id m)
unfolding erase_all
find-erase_all id [] m = refl
find-erase_all id (j ∷ ids) m = ground (
  arith,
  nat_eq_iff j id,
  find-erase id j m,
  find-erase_all id ids m,
  find-erase_all id ids (erase j m),
)

erase_all-DistinctKeys :
    (ids : List ℕ) (m : Vectors) → DistinctKeys m → DistinctKeys (erase_all ids m).0
unfolding erase_all
erase_all-DistinctKeys [] m h = h
erase_all-DistinctKeys (j ∷ ids) m h = elim (Option-cases (find j m)) [
  | inl e ↦ rw (e, erase_all) (erase_all-DistinctKeys ids m h)
  | inr (w, e) ↦
      rw (e, erase_all) (erase_all-DistinctKeys ids (erase j m) (erase-DistinctKeys j m h))
]

length-erase_all :
    (ids : List ℕ) (m : Vectors)
    → DistinctKeys m
    → length (erase_all ids m).0 + length (erase_all ids m).1 ≡ length m
unfolding erase_all
length-erase_all [] m h = omega arith
length-erase_all (j ∷ ids) m h = elim (Option-cases (find j m)) [
  | inl e ↦ rw (e, erase_all) (length-erase_all ids m h)
  | inr (w, e) ↦
      rw (e, erase_all)
        (omega (
          arith,
          length-erase j w m h e,
          length-erase_all ids (erase j m) (erase-DistinctKeys j m h),
        ))
]

each-same_names {ℓ} :
    {I : Type ℓ} (hook : I → Outcome I) (xs ys : List (Bytes × I))
    → each hook xs ≡ done ys
    → keys ys ≡ keys xs
unfolding each
each-same_names hook [] ys h = ground arith
each-same_names hook ((name, i) ∷ xs) ys h =
    let (j, e, k) =
      >>=-eq-done (hook i) (λ j. each hook xs >>= λ more. done ((name, j) ∷ more)) h in
    let (more, f, g) = >>=-eq-done (each hook xs) (λ more. done ((name, j) ∷ more)) k in
    let same : ys ≡ (name, j) ∷ more = cc in
    rw same (ap (◌∷◌ name) (each-same_names hook xs more f))

module _ {D : Type 0} (C : IndexClass D) where
  pub add_vectors-eq-done :
      (vs : List (ℕ × FloatVector)) (c c' : Collection C) (added updated : ℕ)
      → add_vectors C vs c ≡ done (c', (added, updated))
      → let s = stored_in C c vs in
        (indices : List (Bytes × C.Index)) × (each
            (C.on_vectors_added (keys vs) s.vectors)
            c.indices
          ≡ done indices)
        × (c' ≡ record c { vectors = s.vectors; indices = indices })
        × (added ≡ s.added)
        × (updated ≡ s.updated)
  unfolding add_vectors
  add_vectors-eq-done vs c c' added updated h =
      let s = stored_in C c vs in
      let (indices, e, k) =
        >>=-eq-done (each (C.on_vectors_added (keys vs) s.vectors) c.indices) _ h in
      (indices, e, ground arith, ground arith, ground arith)

  -- After `add_vectors` every id has the last vector given for it, or else the one that it had; the
  -- two counts add up to the number of vectors given, and the first is the growth of the map, whose
  -- keys stay distinct. Dimension, name and the names of the indices do not change.
  pub add_vectors_lem :
      (vs : List (ℕ × FloatVector)) (c c' : Collection C) (added updated : ℕ)
      → DistinctKeys c.vectors
      → add_vectors C vs c ≡ done (c', (added, updated))
      → ((id : ℕ) → find id c'.vectors ≡ last_given id vs (find id c.vectors))
        × (added + updated ≡ length vs)
        × (length c'.vectors ≡ length c.vectors + added)
        × DistinctKeys c'.vectors
        × (c'.dimension ≡ c.dimension)
        × (c'.name ≡ c.name)
        × (keys c'.indices ≡ keys c.indices)
  unfolding add_vectors
  add_vectors_lem vs c c' added updated distinct h =
      let s : Stored = record { vectors = c.vectors; added = 0; updated = 0 } in
      let (indices, e, same, a, u) = add_vectors-eq-done vs c c' added updated h in
      let counts = counts-store_all vs s in
      rw (same, a, u)
        (
          λ id. find-store_all id vs s,
          omega (arith, counts),
          omega (arith, counts),
          store_all-DistinctKeys vs s distinct,
          refl,
          refl,
          each-same_names _ c.indices indices e,
        )

  notify_removed-eq-done :
      (left : Vectors) (gone : List ℕ) (c c' : Collection C) (removed : ℕ)
      → notify_removed C left gone c ≡ done (c', removed)
      → (indices : List (Bytes × C.Index)) × (c' ≡ record c { vectors = left; indices = indices })
        × (removed ≡ length gone)
        × (keys indices ≡ keys c.indices)
  notify_removed-eq-done left [] c c' removed h = (c.indices, ground arith, ground arith, refl)
  notify_removed-eq-done left (id ∷ ids) c c' removed h =
      let (indices, e, k) =
        >>=-eq-done (each (C.on_vectors_removed (id ∷ ids) left) c.indices) _ h in
      (indices, ground arith, ground arith, each-same_names _ c.indices indices e)

  pub remove_vectors-eq-done :
      (ids : List ℕ) (c c' : Collection C) (removed : ℕ)
      → remove_vectors C ids c ≡ done (c', removed)
      → let (left, gone) = erase_all ids c.vectors in
        (indices : List (Bytes × C.Index)) × (c' ≡ record c { vectors = left; indices = indices })
        × (removed ≡ length gone)
        × (keys indices ≡ keys c.indices)
  unfolding remove_vectors
  remove_vectors-eq-done ids c c' removed h =
      let (left, gone) = erase_all ids c.vectors in notify_removed-eq-done left gone c c' removed h

  -- After `remove_vectors` the given ids are gone and every other id has the vector that it had; the
  -- count is the number of entries that left the map, whose keys stay distinct. Dimension, name and
  -- the names of the indices do not change.
  pub remove_vectors_lem :
      (ids : List ℕ) (c c' : Collection C) (removed : ℕ)
      → DistinctKeys c.vectors
      → remove_vectors C ids c ≡ done (c', removed)
      → ((id : ℕ) → find id c'.vectors ≡ (if mem_id id ids then none else find id c.vectors))
        × (length c'.vectors + removed ≡ length c.vectors)
        × DistinctKeys c'.vectors
        × (c'.dimension ≡ c.dimension)
        × (c'.name ≡ c.name)
        × (keys c'.indices ≡ keys c.indices)
  remove_vectors_lem ids c c' removed distinct h =
      let (indices, same, count, names) = remove_vectors-eq-done ids c c' removed h in
      rw (same, count)
        (
          λ id. find-erase_all id ids c.vectors,
          length-erase_all ids c.vectors distinct,
          erase_all-DistinctKeys ids c.vectors distinct,
          refl,
          refl,
          names,
        )
