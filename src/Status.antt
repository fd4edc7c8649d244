-- ===== src/Status.antt =====
-- src/include/core/status.h: the status codes and `result<T>`.
use vector_db.Prelude.{Bool, true, false, Option, none, some}
use Prim.Native.String.{String}

pub data Status : Type 0 where
  success : Status
  collection_already_exists : Status
  collection_does_not_exist : Status
  dimension_cant_be_zero : Status
  collection_name_cant_be_empty : Status
  collection_name_too_long : Status
  collection_name_invalid_characters : Status
  vector_dimension_mismatch : Status
  index_does_not_exist : Status
  internal_error : Status

pub record Result {ℓ} (T : Type ℓ) : Type ℓ where
  pub status : Status
  pub payload : Option T

-- `status_ == status::success`
abbrev pub succeeded : Status → Bool
succeeded success = true
succeeded _ = false

module _ {ℓ} {T : Type ℓ} where
  -- The two constructors of `result`.
  abbrev pub failure : Status → Result T
  failure s = record { status = s; payload = none }

  abbrev pub with_payload : Status → T → Result T
  with_payload s x = record { status = s; payload = some x }

  abbrev pub is_success : Result T → Bool
  is_success r = succeeded r.status

  abbrev pub has_payload : Result T → Bool
  has_payload r = elim r.payload [ none ↦ false | some _ ↦ true ]

unfoldable pub status_to_string : Status → String
status_to_string success = "success"
status_to_string collection_already_exists = "collection already exists"
status_to_string collection_does_not_exist = "collection does not exist"
status_to_string dimension_cant_be_zero = "dimension cant be zero"
status_to_string collection_name_cant_be_empty = "collection name cant be empty"
status_to_string collection_name_too_long = "collection name is too long"
status_to_string collection_name_invalid_characters = "collection name contains invalid characters"
status_to_string vector_dimension_mismatch = "vector dimension mismatch with collection"
status_to_string index_does_not_exist = "index does not exist"
status_to_string internal_error = "internal error"
