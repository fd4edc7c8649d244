-- ===== src/Hnsw/LayerSearch.antt =====
-- `dist` and `search_layer` of src/impl/core/indices/hnsw.cpp.
pub mod Kept
pub mod Returns
use vector_db.Prelude.{
  ℕ, zero, suc, ◌+◌, List, [], ◌∷◌, ◌++◌, Option, none, some, Outcome, done, undefined, ◌>>=◌,
  or_undefined, Bool, true, false, ◌||◌, if◌then◌else◌, length, ltb,
}
use vector_db.FloatVector.{FloatVector}
use vector_db.Vectors.{Vectors, get_vector_by_id}
use vector_db.Distance.{Double, DistType, compute}
use vector_db.Ids.{mem_id, put_id, put_ids}
use vector_db.Hnsw.Candidates.{CandSet, insert_cand}
use vector_db.Hnsw.Graph.{Layer, links, layer_at}

-- The last of a sequence: `*rbegin()`, undefined if there is none.
abbrev pub last {ℓ} : {A : Type ℓ} → List A → Outcome A
last [] = undefined
last (x ∷ []) = done x
last (x ∷ (y ∷ ys)) = last (y ∷ ys)

-- `erase( --end() )`
abbrev pub erase_last {ℓ} : {A : Type ℓ} → List A → List A
erase_last [] = []
erase_last (x ∷ []) = []
erase_last (x ∷ (y ∷ ys)) = x ∷ erase_last (y ∷ ys)

abbrev pub first {ℓ} : {A : Type ℓ} → List A → Outcome A
first [] = undefined
first (x ∷ xs) = done x

-- The variables of the loop of `search_layer`; `visited` holds the ids that it maps to `true`.
pub record Frontier (D : Type 0) : Type 0 where
  pub result : CandSet D
  pub candidates : CandSet D
  pub visited : List ℕ

-- The number of links in a layer.
abbrev pub all_links : Layer → List ℕ
all_links [] = []
all_links ((id, ids) ∷ layer) = ids ++ all_links layer

-- The entry points and the ends of all links: each becomes a candidate at most once.
abbrev pub enough : List ℕ → Layer → ℕ
enough entry_points layer = length entry_points + length (all_links layer)

module _ {D : Type 0} ⦃d : Double D⦄ where
  -- `dist( q, b, col )`
  unfoldable pub distance_to : DistType → FloatVector → ℕ → Vectors → Outcome D
  unfolding get_vector_by_id compute
  distance_to t query b vectors = get_vector_by_id b vectors >>= λ found. elim found [
    | none ↦ done d.largest
    | some v ↦ compute t query v
  ]

  -- `dist( a, b, col )`
  unfoldable pub distance_between : DistType → ℕ → ℕ → Vectors → Outcome D
  unfolding get_vector_by_id compute
  distance_between t a b vectors = get_vector_by_id a vectors >>= λ va.
      get_vector_by_id b vectors >>= λ vb. elim va [
        | none ↦ done d.largest
        | some v ↦ elim vb [ none ↦ done d.largest | some w ↦ compute t v w ]
      ]

  -- The loop over the entry points.
  unfoldable pub enter :
      DistType → FloatVector → Vectors → List ℕ → Frontier D → Outcome (Frontier D)
  unfolding distance_to insert_cand put_id
  enter t query vectors [] f = done f
  enter t query vectors (ep ∷ eps) f = distance_to t query ep vectors >>= λ x.
      enter t query vectors eps (record {
        result = insert_cand (x, ep) f.result;
        candidates = insert_cand (x, ep) f.candidates;
        visited = put_id ep f.visited;
      })

  -- A neighbour at distance `x`.
  unfoldable pub consider : ℕ → D × ℕ → D → Frontier D → Frontier D
  unfolding insert_cand
  consider ef (x, id) farthest f =
      let grown = insert_cand (x, id) f.result in
      if d.lt x farthest || ltb (length f.result) ef
      then record f {
        candidates = insert_cand (x, id) f.candidates;
        result = if ltb ef (length grown) then erase_last grown else grown;
      }
      else f

  -- The loop over the neighbours of a candidate.
  unfoldable pub expand :
      DistType → FloatVector → ℕ → Vectors → List ℕ → Frontier D → Outcome (Frontier D)
  unfolding distance_to consider put_id
  expand t query ef vectors [] f = done f
  expand t query ef vectors (id ∷ ids) f =
      let rest = expand t query ef vectors ids in
      if mem_id id f.visited
      then rest f
      else (last f.result >>= λ (farthest, far_id). distance_to t query id vectors >>= λ x.
          rest (consider ef (x, id) farthest (record f { visited = put_id id f.visited })))

  -- The loop over the candidates, on fuel.
  unfoldable pub search_loop :
      DistType → FloatVector → ℕ → Layer → Vectors → ℕ → Frontier D → Outcome (CandSet D)
  unfolding expand links
  search_loop t query ef layer vectors zero f = elim f.candidates [
    | [] ↦ done f.result
    | _ ↦ undefined
  ]
  search_loop t query ef layer vectors (suc fuel) f = elim f.candidates [
    | [] ↦ done f.result
    | (x, id) ∷ left ↦ last f.result >>= λ (farthest, far_id).
        let more =
          expand t query ef vectors (links id layer) (record f { candidates = left })
          >>= search_loop t query ef layer vectors fuel in
        if d.lt farthest x then done f.result else more
  ]

  unfoldable pub search_layer :
      DistType → FloatVector → List ℕ → ℕ → ℕ → Vectors → List Layer → Outcome (CandSet D)
  unfolding enter search_loop
  search_layer t query [] ef level vectors neighbours = done []
  search_layer t query (ep ∷ eps) ef level vectors neighbours = do
    f ← enter t query vectors (ep ∷ eps) (record { result = []; candidates = []; visited = [] })
    layer ← layer_at level neighbours
    search_loop t query ef layer vectors (enough (ep ∷ eps) layer) f
