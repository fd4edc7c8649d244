-- ===== src/Name/Validity.antt =====
-- What `is_collection_name_valid` accepts, and which error it gives for the rest.
use vector_db.Prelude.{ℕ, Bytes, true, [], ◌∷◌, length, ◌≤◌, ◌<◌, ◌≡◌, ◌⊎◌, ◌↔◌, refl, All, arith}
use vector_db.Status.{
  success, collection_name_cant_be_empty, collection_name_too_long,
  collection_name_invalid_characters,
}
use vector_db.Name.{is_collection_name_valid, is_name_char, isalnum, all_of}

-- A letter, a digit or `_`, by its code.
abbrev pub NameChar : ℕ → Type 0
NameChar c = ((48 ≤ c) × (c ≤ 57)) ⊎ ((65 ≤ c) × (c ≤ 90)) ⊎ ((97 ≤ c) × (c ≤ 122)) ⊎ (c ≡ 95)

is_name_char_iff : (c : ℕ) → (is_name_char c ≡ true) ↔ NameChar c
unfolding isalnum
is_name_char_iff c = ground arith

all_of_iff : (name : Bytes) → (all_of name ≡ true) ↔ All NameChar name
unfolding all_of
all_of_iff [] = (λ _. tt, λ _. refl)
all_of_iff (c ∷ cs) = ground (arith, is_name_char_iff c, all_of_iff cs)

-- A name is accepted exactly if it has 1 to 128 bytes, each a letter, a digit or `_`; the empty
-- name, the longer name and the name with another byte are refused with their own status.
pub is_collection_name_valid_iff :
    (name : Bytes)
    → ((is_collection_name_valid name ≡ success)
        ↔ ((1 ≤ length name) × (length name ≤ 128) × All NameChar name))
      × ((is_collection_name_valid name ≡ collection_name_cant_be_empty) ↔ (name ≡ []))
      × ((is_collection_name_valid name ≡ collection_name_too_long) ↔ (128 < length name))
      × ((is_collection_name_valid name ≡ collection_name_invalid_characters)
          ↔ ((1 ≤ length name) × (length name ≤ 128) × (¬ All NameChar name)))
unfolding is_collection_name_valid
is_collection_name_valid_iff [] = ground arith
is_collection_name_valid_iff (c ∷ cs) = ground (arith, all_of_iff (c ∷ cs))
