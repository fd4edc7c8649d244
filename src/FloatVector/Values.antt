-- ===== src/FloatVector/Values.antt =====
-- What the constructors, the assignments and `==` of a float_vector give.
use vector_db.Prelude.{
  ℕ, zero, suc, ◌^◌, ◌≤◌, ◌<◌, ◌≡◌, ◌≢◌, ◌↔◌, ◌⊎◌, refl, List, [], ◌∷◌, Bool, true, none, some,
  done, ◌>>=◌, length, take, arith, nat_eq, ◌&&◌, bytes_eq, bytes_eq_iff,
}
use vector_db.FloatVector.{
  FloatVector, read_array, copy_array, from_array, copy, copy_assign, equals,
}

-- The array is as long as `dimension` says, and `dimension` is no negative `int`.
pub record IsSized (v : FloatVector) : Type 0 where
  pub in_range : v.dimension < 2 ^ 31
  pub sized : length v.elements ≡ v.dimension

pub read_array-take : (n : ℕ) (xs : List ℕ) → n ≤ length xs → read_array n xs ≡ some (take n xs)
unfolding read_array
read_array-take zero xs h = refl
read_array-take (suc n) [] h = absurd (omega arith)
read_array-take (suc n) (x ∷ xs) h = rw (read_array-take n xs (omega arith))

pub read_array-length : (xs : List ℕ) → read_array (length xs) xs ≡ some xs
unfolding read_array
read_array-length [] = refl
read_array-length (x ∷ xs) = rw (read_array-length xs)

pub read_array_sized :
    (v : FloatVector) → IsSized v → read_array v.dimension v.elements ≡ some v.elements
read_array_sized v s = rw (← s.sized) (read_array-length v.elements)

copy_array_sized :
    (v : FloatVector) → IsSized v → copy_array v.dimension v.elements ≡ done v.elements
copy_array_sized v s = ground (arith, read_array_sized v s, s.in_range)

-- `float_vector( dimension, data )` holds the first `dimension` floats of an array that has so many.
pub from_array_lem :
    (dimension : ℕ) (source : List ℕ)
    → dimension < 2 ^ 31
    → dimension ≤ length source
    → from_array dimension source
      ≡ done (record { elements = take dimension source; metadata = none; dimension = dimension })
unfolding from_array
from_array_lem dimension source h k = ground (arith, read_array-take dimension source k)

-- A copy of a sized vector is equal to it.
pub copy_lem : (v : FloatVector) → IsSized v → copy v ≡ done v
unfolding copy
copy_lem v s = rw (copy_array_sized v s, ◌>>=◌)

-- Copy assignment from a sized vector gives an equal vector exactly if the source has metadata or
-- the target had none: metadata that the source lacks is kept, not cleared.
pub copy_assign_iff :
    (this other : FloatVector)
    → IsSized other
    → (copy_assign this other ≡ done other) ↔ ((other.metadata ≢ none) ⊎ (this.metadata ≡ none))
unfolding copy_assign
copy_assign_iff this other s = ground (arith, copy_array_sized other s)

-- On sized vectors `==` is defined, and holds exactly if the dimension and the bits of every element
-- agree.
pub equals_iff :
    (v w : FloatVector)
    → IsSized v
    → IsSized w
    → (b : Bool) × (equals v w ≡ done b)
      × ((b ≡ true) ↔ ((v.dimension ≡ w.dimension) × (v.elements ≡ w.elements)))
unfolding equals
equals_iff v w sv sw = (
  nat_eq v.dimension w.dimension && bytes_eq v.elements w.elements,
  ground (arith, read_array_sized v sv, read_array_sized w sw),
  ground (arith, bytes_eq_iff v.elements w.elements),
)
