-- ===== src/Database/Store/Valid.antt =====
-- What holds of the store after any sequence of calls.
use vector_db.Prelude.{
  ℕ, List, [], ◌∷◌, Option, none, some, done, >>=-eq-done, done-injective, true, if◌then◌else◌,
  Bytes, bytes_key, bytes_eq_iff, nat_key, nat_eq, ◌==◌, ◌≡◌, inl, inr, ap, ◌∙◌, subst, Bool-cases,
  Option-cases, arith,
}
use mathlib.Core.Option.{some_inj}
use vector_db.Status.{Status, success, succeeded}
use vector_db.Name.{is_collection_name_valid}
use vector_db.FloatVector.{FloatVector}
use vector_db.Index.Interface.{IndexClass}
use vector_db.Distance.{Double}
use vector_db.Collection.Changes.{last_given}
use vector_db.Database.{Database, all_have_dimension}
use vector_db.Database.Store.{
  Call, adds_collection, deletes_collection, adds_vectors, deletes_vectors, adds_index, searches,
  step, run, Table, Tables, update, with_table, empty_table, act, view,
}
use vector_db.Database.Store.Refines.{step-act}

-- Every vector of the table has the dimension of the table.
abbrev pub IsUniform : Table → Type 0
IsUniform t = (id : ℕ) (v : FloatVector) → t.entries id ≡ some v → v.dimension ≡ t.dimension

-- Every table has a valid name and is uniform.
abbrev pub IsValid : Tables → Type 0
IsValid s =
    (name : Bytes) (t : Table)
    → s name ≡ some t
    → (succeeded (is_collection_name_valid name) ≡ true) × IsUniform t

update-IsValid :
    (name : Bytes) (o : Option Table) (s : Tables)
    → IsValid s
    → ((t : Table) → o ≡ some t → (succeeded (is_collection_name_valid name) ≡ true) × IsUniform t)
    → IsValid (update name o s)
update-IsValid name o s valid new n t h = elim (Bool-cases (name == n)) [
  | inl e ↦
      subst (λ m. (succeeded (is_collection_name_valid m) ≡ true) × IsUniform t)
        ((bytes_eq_iff name n).0 e) (new t (rw (e, update) at h))
  | inr e ↦ valid n t (rw (e, update) at h)
]

with_table-IsValid :
    (name : Bytes) (s : Tables) (f : Table → Tables × Status)
    → IsValid s
    → ((t : Table)
        → s name ≡ some t
        → succeeded (is_collection_name_valid name) ≡ true
        → IsValid (f t).0)
    → IsValid (with_table name s f).0
with_table-IsValid name s f valid go =
    elim (Bool-cases (succeeded (is_collection_name_valid name))) [
      | inr e ↦ rw e valid
      | inl e ↦ elim (Option-cases (s name)) [
        | inl n ↦ rw (e, n) valid
        | inr (t, n) ↦ rw (e, n) (go t n e)
      ]
    ]

last_given-dimension :
    (d id : ℕ) (vs : List (ℕ × FloatVector)) (before : Option FloatVector) (v : FloatVector)
    → all_have_dimension d vs ≡ true
    → ((w : FloatVector) → before ≡ some w → w.dimension ≡ d)
    → last_given id vs before ≡ some v
    → v.dimension ≡ d
last_given-dimension d id [] before v h b e = b v e
last_given-dimension d id ((j, w) ∷ vs) before v h b e =
    last_given-dimension d id vs (if nat_eq j id then some w else before) v (ground arith)
      (λ x k. elim (Bool-cases (nat_eq j id)) [
        | inl q ↦
            let same : some w ≡ some x = rw q at k in
            subst (λ y. y.dimension ≡ d) (some_inj.0 same) (ground arith)
        | inr q ↦ b x (rw q at k)
      ])
      e

act-IsValid : (call : Call) (s : Tables) → IsValid s → IsValid (act call s).0
act-IsValid (adds_collection name dimension) s valid =
    elim (Bool-cases (succeeded (is_collection_name_valid name))) [
      | inr e ↦ rw (e, act) valid
      | inl e ↦ elim (Option-cases (s name)) [
        | inr (t, n) ↦ rw (e, n, act) valid
        | inl n ↦
            rw (e, n, act)
              (update-IsValid name (some (empty_table dimension)) s valid
                (λ t h. (e, subst IsUniform (some_inj.0 h) (λ id v k. cc))))
      ]
    ]
act-IsValid (deletes_collection name) s valid =
    with_table-IsValid name s (λ t. (update name none s, success)) valid
      λ t n e. update-IsValid name none s valid λ t h. cc
act-IsValid (adds_vectors name vectors) s valid = with_table-IsValid name s _ valid λ t n e.
    elim (Bool-cases (all_have_dimension t.dimension vectors)) [
      | inr bad ↦ rw bad valid
      | inl good ↦ rw good (
          update-IsValid name _ s valid λ u h. (
            e,
            subst IsUniform (some_inj.0 h) (λ id v.
                last_given-dimension t.dimension id vectors (t.entries id) v good
                  ((valid name t n).1 id)),
          ))
    ]
act-IsValid (deletes_vectors name ids) s valid = with_table-IsValid name s _ valid λ t n e.
    update-IsValid name _ s valid
      λ u h. (e, subst IsUniform (some_inj.0 h) (λ id v k. (valid name t n).1 id v (ground arith)))
act-IsValid (adds_index draws name index_name t params) s valid =
    with_table-IsValid name s (λ _. (s, success)) valid λ t n e. valid
act-IsValid (searches name query k) s valid =
    with_table-IsValid name s (λ _. (s, success)) valid λ t n e. valid

module _ {D : Type 0} ⦃d : Double D⦄ (C : IndexClass D) where
  -- The calls one after the other, on the tables.
  abbrev pub acts : List Call → Tables → Tables
  acts [] s = s
  acts (call ∷ calls) s = acts calls (act call s).0

  -- Calls that all return do to the tables what the abstract calls do in turn. If the tables were valid
  -- before, each under a valid name and its vectors of its dimension, they are so after.
  pub run-acts :
      (calls : List Call) (db db' : Database C)
      → run C calls db ≡ done db'
      → (acts calls (view C db) ≡ view C db') × (IsValid (view C db) → IsValid (view C db'))
  unfolding run
  run-acts [] db db' h =
      (ap (view C) (done-injective h), subst (λ x. IsValid (view C x)) (done-injective h))
  run-acts (call ∷ calls) db db' h =
      let ((next, s), stepped, rest) = >>=-eq-done (step C call db) _ h in
      let same = step-act C call db next s stepped in
      let (after, valid) = run-acts calls next db' rest in
      (
        ap (λ r. acts calls r.0) same ∙ after,
        λ ok. valid (subst (λ r. IsValid r.0) same (act-IsValid call (view C db) ok)),
      )
