-- ===== src/Assoc.antt =====
-- `std::unordered_map`, as the list of its entries in the order of iteration. The standard leaves
-- that order open; here a new entry stands last.
pub mod Laws
use vector_db.Prelude.{
  Bool, true, false, List, [], ◌∷◌, Option, none, some, if◌then◌else◌, Key, ◌==◌, map,
}

module _ {ℓ κ} {K : Type ℓ} {V : Type κ} ⦃key : Key K⦄ where
  unfoldable pub find : K → List (K × V) → Option V
  find k [] = none
  find k ((j, w) ∷ m) = if j == k then some w else find k m

  -- `emplace`: an entry with the key stays as it is.
  unfoldable pub emplace : K → V → List (K × V) → List (K × V)
  emplace k v [] = (k, v) ∷ []
  emplace k v ((j, w) ∷ m) = if j == k then (j, w) ∷ m else (j, w) ∷ emplace k v m

  -- `m[k] = v`, and a write through an iterator at `k`.
  unfoldable pub assign : K → V → List (K × V) → List (K × V)
  assign k v [] = (k, v) ∷ []
  assign k v ((j, w) ∷ m) = if j == k then (j, v) ∷ m else (j, w) ∷ assign k v m

  -- Entries that are emplaced, or assigned, in order.
  abbrev pub emplace_all : List (K × V) → List (K × V) → List (K × V)
  emplace_all [] m = m
  emplace_all ((k, v) ∷ es) m = emplace_all es (emplace k v m)

  abbrev pub assign_all : List (K × V) → List (K × V) → List (K × V)
  assign_all [] m = m
  assign_all ((k, v) ∷ es) m = assign_all es (assign k v m)

  unfoldable pub erase : K → List (K × V) → List (K × V)
  erase k [] = []
  erase k ((j, w) ∷ m) = if j == k then erase k m else (j, w) ∷ erase k m

abbrev pub keys {ℓ κ} : {K : Type ℓ} {V : Type κ} → List (K × V) → List K
keys = map λ p. p.0

abbrev pub values {ℓ κ} : {K : Type ℓ} {V : Type κ} → List (K × V) → List V
values = map λ p. p.1
