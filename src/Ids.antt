-- ===== src/Ids.antt =====
-- Sets of ids: `std::unordered_set<id_t>`, as the list of its elements in the order of iteration. The
-- standard leaves that order open; here a new element stands last.
pub mod Laws
use vector_db.Prelude.{ℕ, List, [], ◌∷◌, ◌++◌, Bool, true, false, ◌||◌, if◌then◌else◌, nat_eq}

-- `count( id )`
abbrev pub mem_id : ℕ → List ℕ → Bool
mem_id id [] = false
mem_id id (j ∷ js) = nat_eq j id || mem_id id js

-- `insert( id )`
unfoldable pub put_id : ℕ → List ℕ → List ℕ
put_id id ids = if mem_id id ids then ids else ids ++ (id ∷ [])

unfoldable pub put_ids : List ℕ → List ℕ → List ℕ
unfolding put_id
put_ids [] ids = ids
put_ids (j ∷ js) ids = put_ids js (put_id j ids)

-- `erase( id )`
unfoldable pub remove_id : ℕ → List ℕ → List ℕ
remove_id id [] = []
remove_id id (j ∷ js) = let rest = remove_id id js in if nat_eq j id then rest else j ∷ rest
