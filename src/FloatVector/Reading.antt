-- ===== src/FloatVector/Reading.antt =====
-- src/impl/core/float_vector.cpp: float_vector::deserialize.
use vector_db.Prelude.{
  ℕ, zero, suc, List, [], Bytes, Bool, true, false, Option, none, some, undefined, if◌then◌else◌,
}
use vector_db.Stream.{Reader, ◌>>=◌, pure, get_u32, get_u8, get_string, repeat}
use vector_db.Stream
use vector_db.FloatVector.{FloatVector, Metadata, is_positive}

-- A `bool` whose byte is neither 0 nor 1 has no value.
abbrev as_bool : ℕ → Reader Bool
as_bool zero = pure false
as_bool (suc zero) = pure true
as_bool _ = λ bs. undefined

abbrev pub get_bool : Reader Bool
get_bool = do b ← get_u8; as_bool b

abbrev pub get_entry : Reader (Bytes × Bytes)
get_entry = do key ← get_string; value ← get_string; pure (key, value)

abbrev pub get_metadata : Bool → Reader (Option Metadata)
get_metadata false = pure none
get_metadata true = do size ← get_u32; m ← repeat size get_entry; pure (some m)

-- The elements are left null unless `dimension > 0`.
abbrev pub get_elements : ℕ → Reader (List ℕ)
get_elements dimension = if is_positive dimension then repeat dimension get_u32 else pure []

unfoldable pub deserialize : Reader FloatVector
unfolding Stream.get_le Stream.get_bytes Stream.repeat
deserialize = do
  dimension ← get_u32
  elements ← get_elements dimension
  has_metadata ← get_bool
  metadata ← get_metadata has_metadata
  pure (record { elements = elements; metadata = metadata; dimension = dimension })
