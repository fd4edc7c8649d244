-- ===== src/Indices.antt =====
-- The implementations behind `index_t`: the constructors that collection::add_index and
-- index_t::deserialize choose from, and the calls through the virtual table.
pub mod Keeping
use vector_db.Prelude.{ℕ, List, [], Option, Outcome, done, ◌>>=◌, ◌⊎◌, inl, inr}
use vector_db.FloatVector.{FloatVector}
use vector_db.Vectors.{Vectors}
use vector_db.Index.{Params, of_hnsw, of_ivf}
use vector_db.Index.Interface.{IndexClass, Score, Answer}
use vector_db.Distance.{Double}
use vector_db.IvfFlat.{IvfIndex}
use vector_db.IvfFlat
use vector_db.Hnsw.{HnswIndex, new_index}
use vector_db.Hnsw.Pending
use vector_db.Hnsw.Knn

abbrev pub AnyIndex : Type 0
AnyIndex = IvfIndex ⊎ HnswIndex

-- `std::make_unique< ... ::index >`, by the type of the parameters.
abbrev pub make_index : (ℕ → ℕ) → Params → AnyIndex
make_index draws (of_ivf p) = inl (record { params = p; clusters = []; vectors_since_rebuild = 0 })
make_index draws (of_hnsw p) = inr (new_index draws p)

abbrev pub params_of : AnyIndex → Params
params_of (inl i) = of_ivf i.params
params_of (inr h) = of_hnsw h.params

module _ (D : Type 0) ⦃d : Double D⦄ where
  abbrev pub call_init : Vectors → AnyIndex → Outcome AnyIndex
  call_init vectors (inl i) = IvfFlat.build D vectors i >>= λ j. done (inl j)
  call_init vectors (inr h) = Pending.init D vectors h >>= λ j. done (inr j)

  abbrev pub call_added : List ℕ → Vectors → AnyIndex → Outcome AnyIndex
  call_added ids vectors (inl i) = IvfFlat.on_vectors_added D ids vectors i >>= λ j. done (inl j)
  call_added ids vectors (inr h) = done (inr (Pending.on_vectors_added ids h))

  abbrev pub call_removed : List ℕ → Vectors → AnyIndex → Outcome AnyIndex
  call_removed ids vectors (inl i) =
      IvfFlat.on_vectors_removed D ids vectors i >>= λ j. done (inl j)
  call_removed ids vectors (inr h) = done (inr (Pending.on_vectors_removed ids h))

  abbrev pub call_search :
      FloatVector → ℕ → List (Score D) → Vectors → AnyIndex → Outcome (AnyIndex × Answer D)
  call_search query k results vectors (inl i) =
      IvfFlat.search_for_top_k query k results vectors i >>= λ a. done (inl i, a)
  call_search query k results vectors (inr h) =
      Knn.search_for_top_k D query k results vectors h >>= λ (j, a). done (inr j, a)

  abbrev pub indices : IndexClass D
  indices = record {
    Index = AnyIndex;
    make = make_index;
    init = call_init;
    on_vectors_added = call_added;
    on_vectors_removed = call_removed;
    search_for_top_k = call_search;
    get_params = params_of;
  }
