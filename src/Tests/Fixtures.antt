-- ===== src/Tests/Fixtures.antt =====
-- The data of the tests.
use vector_db.Prelude.{refl, sym, ap, done-injective, false, ℕ, [], ◌∷◌, none, some, done, Bytes}
use vector_db.FloatVector.{FloatVector}
use vector_db.Index.{Params, of_ivf, of_hnsw, IvfParams, HnswParams}
use vector_db.Index.Interface.{IndexClass, answered, KeepsParams}
use vector_db.Distance.{euclidean, cosine}
use vector_db.Collection.{Collection}
use vector_db.Database.{Database}

-- A vector of two floats, given by their bits.
abbrev pub pair : ℕ → ℕ → FloatVector
pair x y = record { elements = x ∷ y ∷ []; metadata = none; dimension = 2 }

abbrev pub tagged : FloatVector
tagged = record (pair 3 4) { metadata = some ((b'k' ∷ [], b'v' ∷ b'w' ∷ []) ∷ []) }

abbrev pub docs : Bytes
docs = b'd' ∷ b'o' ∷ b'c' ∷ b's' ∷ []

abbrev pub coarse : IvfParams
coarse = record { dist_type = euclidean; k = 2; n_probe = 1; rebuild_threshold = 10 }

abbrev pub layered : HnswParams
layered = record { dist_type = cosine; m = 16; m0 = 32; ef_construction = 64; ef_search = 32 }

-- An index that keeps its parameters and finds nothing.
abbrev pub Idle : IndexClass ℕ
Idle = record {
  Index = Params;
  make = λ draws p. p;
  init = λ vs i. done i;
  on_vectors_added = λ ids vs i. done i;
  on_vectors_removed = λ ids vs i. done i;
  search_for_top_k = λ q k r vs i. done (i, answered false []);
  get_params = λ i. i;
}

pub Idle-KeepsParams : KeepsParams Idle
Idle-KeepsParams = record {
  make_params = λ draws p. refl;
  init_params = λ vs i j h. sym (done-injective h);
  added_params = λ ids vs i j h. sym (done-injective h);
  removed_params = λ ids vs i j h. sym (done-injective h);
  searched_params = λ q k r vs i j a h. ap (λ x. x.0) (sym (done-injective h));
}

abbrev pub library : Collection Idle
library = record {
  dimension = 2;
  name = docs;
  vectors = (7, pair 1 2) ∷ (9, tagged) ∷ [];
  indices = (b'i' ∷ [], of_ivf coarse) ∷ (b'h' ∷ [], of_hnsw layered) ∷ [];
}

abbrev pub one_library : Database Idle
one_library = record { collections = (docs, library) ∷ [] }
