-- ===== src/Scan.antt =====
-- src/impl/core/indices/euclidean.cpp: the exhaustive search that a collection falls back on.
pub mod Nearest
use vector_db.Prelude.{
  ℕ, List, [], ◌∷◌, map, Option, none, some, Outcome, done, thrown, undefined, ◌>>=◌, or_throw,
  Bool, true, false, if◌then◌else◌, length, take, ltb,
}
use mathlib.Core.Option
use vector_db.FloatVector.{FloatVector}
use vector_db.Vectors
use vector_db.Vectors.{Vectors, get_vector_by_id, get_all_vector_ids}
use vector_db.Index.Interface.{Score, Answer, answered, threw}
use vector_db.Distance
use vector_db.Distance.{Double, euclidean_distance}
use vector_db.Distance.Order.{pair_lt}
use vector_db.Sort.{sort}

module _ {D : Type 0} ⦃d : Double D⦄ where
  -- The loop that fills `dist_vec`; `none` is the early `return false`.
  pub distances : FloatVector → List ℕ → Vectors → Outcome (Option (List (D × ℕ)))
  distances query [] vectors = done (some [])
  distances query (id ∷ ids) vectors =
      let rest = distances query ids vectors in
      get_vector_by_id id vectors >>= λ found. elim found [
        | none ↦ done none
        | some v ↦ euclidean_distance query v >>= λ dist.
            rest >>= λ more. done (Option.map (◌∷◌ (dist, id)) more)
      ]

  -- The loop that fills `results`.
  pub fill : List (D × ℕ) → Vectors → Outcome (List (Score D))
  fill [] vectors = done []
  fill ((dist, id) ∷ rest) vectors = do
    found ← get_vector_by_id id vectors
    v ← or_throw found
    more ← fill rest vectors
    done ((dist, id, v) ∷ more)

  -- The handlers return false. What they catch is thrown before anything is put into `results`:
  -- `fill` copies the vectors that `distances` has copied.
  abbrev pub catch_all : Outcome (Answer D) → Outcome (Answer D)
  catch_all (done a) = done a
  catch_all thrown = done (answered false [])
  catch_all undefined = undefined

  unfoldable pub search_for_top_k : FloatVector → ℕ → Vectors → Outcome (Answer D)
  unfolding distances fill
  search_for_top_k query k vectors =
      let ids = get_all_vector_ids vectors in
      let count = if ltb (length ids) k then length ids else k in
      catch_all (
        distances query ids vectors >>= λ listed. elim listed [
          | none ↦ done (answered false [])
          | some dist_vec ↦ fill (take count (sort pair_lt dist_vec)) vectors >>= λ results.
              done (answered true results)
        ])
