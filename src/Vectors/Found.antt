-- ===== src/Vectors/Found.antt =====
-- A map with distinct keys, of sized vectors, gives each vector under its id.
use mathlib.Core.Option.{some_inj}
use vector_db.Prelude.{
  ℕ, ◌≡◌, ◌>>=◌, refl, [], ◌∷◌, some, none, done, All, arith, nat_key, nat_eq, nat_eq_iff, subst,
  Bool-cases, inl, inr,
}
use vector_db.Assoc.{find}
use vector_db.Assoc.Laws.{DistinctKeys}
use vector_db.FloatVector.{FloatVector}
use vector_db.FloatVector.Values.{IsSized, copy_lem}
use vector_db.Vectors.{Vectors, get_vector_by_id}

-- The array of the entry's vector is sized.
abbrev pub IsSizedEntry : ℕ × FloatVector → Type 0
IsSizedEntry (id, v) = IsSized v

-- The entry is the one that the map has under its key.
abbrev pub IsFound : Vectors → ℕ × FloatVector → Type 0
IsFound vectors (id, v) = (find id vectors ≡ some v) × IsSized v

pub found_lem :
    (vectors : Vectors) (id : ℕ) (v : FloatVector)
    → IsFound vectors (id, v)
    → get_vector_by_id id vectors ≡ done (some v)
unfolding get_vector_by_id
found_lem vectors id v (e, s) = rw (e, get_vector_by_id, copy_lem v s, ◌>>=◌) refl

-- Behind an entry with another key the map finds the same.
IsFound-cons :
    (key : ℕ) (w : FloatVector) (vectors es : Vectors)
    → find key es ≡ none
    → All (IsFound vectors) es
    → All (IsFound ((key, w) ∷ vectors)) es
unfolding find
IsFound-cons key w vectors [] fresh fs = tt
IsFound-cons key w vectors ((id, v) ∷ es) fresh (f, fs) =
    ground (arith, nat_eq_iff key id, IsFound-cons key w vectors es)

pub All-IsFound :
    (vectors : Vectors)
    → DistinctKeys vectors
    → All IsSizedEntry vectors
    → All (IsFound vectors) vectors
unfolding find
All-IsFound [] distinct cs = tt
All-IsFound ((id, v) ∷ es) (fresh, distinct) (c, cs) = (
  (ground (arith, nat_eq_iff id id), c),
  IsFound-cons id v es es fresh (All-IsFound es distinct cs),
)

-- What holds of every entry holds of one that is found.
pub find-All {κ} :
    (P : ℕ × FloatVector → Type κ) (vectors : Vectors) (id : ℕ) (v : FloatVector)
    → All P vectors
    → find id vectors ≡ some v
    → P (id, v)
unfolding find
find-All P [] id v ps h = cc
find-All P ((key, w) ∷ es) id v (p, ps) h = elim (Bool-cases (nat_eq key id)) [
  | inl e ↦
      let same : w ≡ v = some_inj.0 (rw e at h) in
      subst (λ i. P (i, v)) ((nat_eq_iff key id).0 e) (subst (λ x. P (key, x)) same p)
  | inr e ↦ find-All P es id v ps (rw e at h)
]
