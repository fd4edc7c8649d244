-- ===== src/Database/Store/Views.antt =====
-- How the view changes with the map of collections, and where a call on a name leads.
use mathlib.Core.Path.{fun_ext}
use vector_db.Prelude.{
  none, some, Outcome, done, done-injective, Bytes, bytes_key, bytes_eq_iff, nat_key, ◌≡◌, ◌⊎◌, inl,
  inr, refl, sym, ap, ◌∙◌, Bool-cases, Option-cases, arith,
}
use vector_db.Status.{Status, collection_does_not_exist, succeeded}
use vector_db.Name.{is_collection_name_valid}
use vector_db.Assoc.{find, emplace, erase}
use vector_db.Assoc.Laws.{find-assign, find-emplace, find-erase}
use vector_db.Index.Interface.{IndexClass}
use vector_db.Collection.{Collection}
use vector_db.Database.{Database, with_collection, put}
use vector_db.Database.Store.{Table, Tables, update, with_table, act, table, view}

module _ {D : Type 0} (C : IndexClass D) where
  pub view-assign :
      (name : Bytes) (c : Collection C) (db : Database C)
      → view C (put C name c db) ≡ update name (some (table C c)) (view C db)
  view-assign name c db = fun_ext λ n. ground (arith, find-assign n name c db.collections)

  pub view-emplace :
      (name : Bytes) (c : Collection C) (db : Database C)
      → find name db.collections ≡ none
      → view C (record db { collections = emplace name c db.collections })
        ≡ update name (some (table C c)) (view C db)
  view-emplace name c db e =
      fun_ext λ n. ground (arith, find-emplace n name c db.collections, bytes_eq_iff name n)

  pub view-erase :
      (name : Bytes) (db : Database C)
      → view C (record db { collections = erase name db.collections })
        ≡ update name none (view C db)
  view-erase name db = fun_ext λ n. ground (arith, find-erase n name db.collections)

  -- A collection whose table is the old one leaves the view as it was.
  pub view_kept :
      (name : Bytes) (c c' : Collection C) (db : Database C)
      → find name db.collections ≡ some c
      → table C c' ≡ table C c
      → view C (put C name c' db) ≡ view C db
  view_kept name c c' db e same =
      fun_ext λ n. ground (arith, find-assign n name c' db.collections, bytes_eq_iff name n)

  -- A call on a name is refused with the status that `with_table` gives, or reaches the collection.
  abbrev pub Reached : Bytes → Database C → Collection C → Type 1
  Reached name db c =
      (find name db.collections ≡ some c)
      × ((A : Type 0) (refuse : Status → A) (go : Collection C → A)
          → with_collection C name db refuse go ≡ go c)
      × ((f : Table → Tables × Status) → with_table name (view C db) f ≡ f (table C c))

  abbrev pub Refused : Bytes → Database C → Status → Type 1
  Refused name db s =
      ((A : Type 0) (refuse : Status → A) (go : Collection C → A)
        → with_collection C name db refuse go ≡ refuse s)
      × ((f : Table → Tables × Status) → with_table name (view C db) f ≡ (view C db, s))

  pub call-cases :
      (name : Bytes) (db : Database C)
      → ((c : Collection C) × Reached name db c) ⊎ ((s : Status) × Refused name db s)
  call-cases name db = elim (Bool-cases (succeeded (is_collection_name_valid name))) [
    | inr e ↦ inr (is_collection_name_valid name, (λ A r go. rw e refl, λ f. rw e refl))
    | inl e ↦ elim (Option-cases (find name db.collections)) [
      | inl f ↦ inr (collection_does_not_exist, (λ A r go. rw (e, f) refl, λ g. rw (e, f) refl))
      | inr (c, f) ↦ inl (c, (f, λ A r go. rw (e, f) refl, λ g. rw (e, f) refl))
    ]
  ]

  abbrev pub viewed : Database C × Status → Tables × Status
  viewed (db, s) = (view C db, s)

  -- The shape of every method: refused, or passed on to the collection.
  pub refines_call :
      (name : Bytes) (db : Database C) (r : Database C × Status)
      (go : Collection C → Outcome (Database C × Status)) (f : Table → Tables × Status)
      → with_collection C name db (λ s. done (db, s)) go ≡ done r
      → ((c : Collection C)
          → find name db.collections ≡ some c
          → go c ≡ done r
          → f (table C c) ≡ viewed r)
      → with_table name (view C db) f ≡ viewed r
  refines_call name db r go f h act = elim (call-cases name db) [
    | inl (c, (e, code, spec)) ↦ spec f ∙ act c e (sym (code _ (λ s. done (db, s)) go) ∙ h)
    | inr (s, (code, spec)) ↦
        spec f ∙ ap viewed (done-injective (sym (code _ (λ s. done (db, s)) go) ∙ h))
  ]
