-- ===== src/FloatVector.antt =====
-- src/include/core/float_vector.h and src/impl/core/float_vector.cpp. A `float` is its 32 bits as a number,
-- and so is an `int`, in two's complement.
pub mod Reading
pub mod Values
pub mod RoundTrip
use vector_db.Prelude.{
  ℕ, zero, suc, ◌+◌, ◌^◌, ◌%◌, List, [], ◌∷◌, ◌++◌, Bytes, bytes_key, Bool, true, false, ◌&&◌, not,
  Option, none, some, Outcome, done, thrown, undefined, ◌>>=◌, or_undefined, if◌then◌else◌, length,
  take, ltb, leb, nat_eq, bytes_eq,
}
use vector_db.Stream.{put_u32, put_u8, put_string, put_all}
use vector_db.Stream
use mathlib.Core.Option

abbrev pub Metadata : Type 0
Metadata = List (Bytes × Bytes)

pub record FloatVector : Type 0 where
  -- `[]` is the null pointer.
  pub elements : List ℕ
  pub metadata : Option Metadata
  pub dimension : ℕ

-- `x > 0` for an `int`.
abbrev pub is_positive : ℕ → Bool
is_positive x = ltb 0 x && ltb x (2 ^ 31)

abbrev pub is_negative : ℕ → Bool
is_negative x = leb (2 ^ 31) x

-- The first `n` elements of an array; `none` if it has fewer.
unfoldable pub read_array : ℕ → List ℕ → Option (List ℕ)
read_array zero xs = some []
read_array (suc n) [] = none
read_array (suc n) (x ∷ xs) = Option.map (◌∷◌ x) (read_array n xs)

-- `make_unique<float[]>(dimension)` and the `memcpy` into it: a negative length is a
-- `bad_array_new_length`, and a source that is too short is read past its end.
abbrev pub copy_array : ℕ → List ℕ → Outcome (List ℕ)
copy_array n xs = if is_negative n then thrown else or_undefined (read_array n xs)

-- `float_vector()`
abbrev pub empty : FloatVector
empty = record { elements = []; metadata = none; dimension = 0 }

-- `float_vector( dimension, data )`
unfoldable pub from_array : ℕ → List ℕ → Outcome FloatVector
unfolding read_array
from_array dimension source = do
  copied ← copy_array dimension source
  done (record { elements = copied; metadata = none; dimension = dimension })

-- `float_vector( const float_vector& )`
unfoldable pub copy : FloatVector → Outcome FloatVector
unfolding read_array
copy other = do
  copied ← copy_array other.dimension other.elements
  done (record { elements = copied; metadata = other.metadata; dimension = other.dimension })

-- `operator=( const float_vector& )`, on another object than `this`.
unfoldable pub copy_assign : FloatVector → FloatVector → Outcome FloatVector
unfolding read_array
copy_assign this other = do
  copied ← copy_array other.dimension other.elements
  done (record {
    elements = copied;
    metadata = elim other.metadata [ some m ↦ some m | none ↦ this.metadata ];
    dimension = other.dimension;
  })

-- The move constructor and the move assignment: the new object, and what is left of `other`.
unfoldable pub move : FloatVector → FloatVector × FloatVector
move other = (other, record other { elements = []; metadata = none })

unfoldable pub move_assign : FloatVector → FloatVector → FloatVector × FloatVector
move_assign this other = (
  record this { elements = other.elements; metadata = other.metadata; dimension = other.dimension },
  record other { elements = []; metadata = none },
)

-- `memcmp` of as many bytes as `this` has elements.
unfoldable pub equals : FloatVector → FloatVector → Outcome Bool
unfolding read_array
equals this other =
    if nat_eq this.dimension other.dimension
    then (do
      mine ← or_undefined (read_array this.dimension this.elements)
      theirs ← or_undefined (read_array this.dimension other.elements)
      done (bytes_eq mine theirs))
    else done false

unfoldable pub add_metadata : Bytes → Bytes → FloatVector → FloatVector
add_metadata key value v = record v {
  metadata = some (elim v.metadata [ some m ↦ m | none ↦ [] ] ++ ((key, value) ∷ []));
}

abbrev pub put_entry : Bytes × Bytes → Bytes
put_entry (key, value) = put_string key ++ put_string value

abbrev pub put_metadata : Option Metadata → Bytes
put_metadata none = put_u8 0
put_metadata (some m) = put_u8 1 ++ (put_u32 (length m) ++ put_all put_entry m)

unfoldable pub serialize : FloatVector → Outcome Bytes
unfolding read_array Stream.le_bytes
serialize v = do
  floats ←
      (if is_positive v.dimension
        then or_undefined (read_array v.dimension v.elements)
        else done [])
  done (put_u32 v.dimension ++ (put_all put_u32 floats ++ put_metadata v.metadata))
