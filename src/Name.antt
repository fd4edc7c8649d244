-- ===== src/Name.antt =====
-- src/impl/core/utils/utils.cpp: is_collection_name_valid.
pub mod Validity
use vector_db.Prelude.{
  ℕ, Bytes, Bool, true, false, ◌&&◌, ◌||◌, List, [], ◌∷◌, length, ltb, leb, nat_eq, if◌then◌else◌,
}
use vector_db.Status.{
  Status, success, collection_name_cant_be_empty, collection_name_too_long,
  collection_name_invalid_characters,
}

-- `std::isalnum` in the "C" locale, on an unsigned char.
unfoldable pub isalnum : ℕ → Bool
isalnum c = (leb b'0' c && leb c b'9') || (leb b'A' c && leb c b'Z') || (leb b'a' c && leb c b'z')

abbrev pub is_name_char : ℕ → Bool
is_name_char c = isalnum c || nat_eq c b'_'

unfoldable pub all_of : Bytes → Bool
all_of [] = true
all_of (c ∷ cs) = is_name_char c && all_of cs

abbrev pub is_empty : Bytes → Bool
is_empty [] = true
is_empty (_ ∷ _) = false

abbrev pub max_name_length : ℕ
max_name_length = 128

unfoldable pub is_collection_name_valid : Bytes → Status
unfolding all_of isalnum
is_collection_name_valid name =
    if is_empty name
    then collection_name_cant_be_empty
    else if ltb max_name_length (length name)
    then collection_name_too_long
    else if all_of name
    then success
    else collection_name_invalid_characters
