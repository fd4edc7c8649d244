-- ===== src/Ids/Laws.antt =====
-- What an id's membership is after each operation on a set of ids, and the sets' sizes.
use vector_db.Prelude.{
  ℕ, suc, ◌+◌, ◌≤◌, ◌≡◌, refl, List, [], ◌∷◌, ◌++◌, true, false, not, ◌&&◌, ◌||◌, if◌then◌else◌,
  nat_eq, nat_eq_iff, length, length-append, arith,
}
use vector_db.Ids.{mem_id, put_id, put_ids, remove_id}

pub mem_id-append : (x : ℕ) (xs ys : List ℕ) → mem_id x (xs ++ ys) ≡ (mem_id x xs || mem_id x ys)
mem_id-append x [] ys = refl
mem_id-append x (y ∷ xs) ys = ground (arith, mem_id-append x xs ys)

pub mem_id-put_id :
    (x id : ℕ) (ids : List ℕ) → mem_id x (put_id id ids) ≡ (nat_eq id x || mem_id x ids)
unfolding put_id
mem_id-put_id x id ids = ground (arith, nat_eq_iff id x, mem_id-append x ids (id ∷ []))

pub mem_id-put_ids :
    (x : ℕ) (js ids : List ℕ) → mem_id x (put_ids js ids) ≡ (mem_id x js || mem_id x ids)
unfolding put_ids
mem_id-put_ids x [] ids = refl
mem_id-put_ids x (j ∷ js) ids =
    ground (arith, mem_id-put_ids x js (put_id j ids), mem_id-put_id x j ids)

pub mem_id-remove_id :
    (x id : ℕ) (ids : List ℕ) → mem_id x (remove_id id ids) ≡ (not (nat_eq id x) && mem_id x ids)
unfolding remove_id
mem_id-remove_id x id [] = ground arith
mem_id-remove_id x id (j ∷ js) = ground (arith, mem_id-remove_id x id js)

pub length-put_id : (id : ℕ) (ids : List ℕ) → length (put_id id ids) ≤ suc (length ids)
unfolding put_id
length-put_id id ids = ground (arith, length-append ids (id ∷ []))

pub length-remove_id : (id : ℕ) (ids : List ℕ) → length (remove_id id ids) ≤ length ids
unfolding remove_id
length-remove_id id [] = omega arith
length-remove_id id (j ∷ js) = ground (arith, length-remove_id id js)

-- How many of the ids are not in the set.
abbrev pub unseen : List ℕ → List ℕ → ℕ
unseen [] visited = 0
unseen (id ∷ ids) visited = (if mem_id id visited then 0 else 1) + unseen ids visited

pub unseen-length : (ids visited : List ℕ) → unseen ids visited ≤ length ids
unseen-length [] visited = omega arith
unseen-length (id ∷ ids) visited = ground (arith, unseen-length ids visited)

unseen-le : (id : ℕ) (ids visited : List ℕ) → unseen ids (put_id id visited) ≤ unseen ids visited
unseen-le id [] visited = omega arith
unseen-le id (j ∷ ids) visited =
    ground (arith, mem_id-put_id j id visited, unseen-le id ids visited)

-- To see an id leaves fewer unseen.
pub unseen-put_id :
    (id : ℕ) (ids visited : List ℕ)
    → mem_id id visited ≡ false
    → mem_id id ids ≡ true
    → suc (unseen ids (put_id id visited)) ≤ unseen ids visited
unseen-put_id id [] visited new h = cc
unseen-put_id id (j ∷ ids) visited new h = ground (
  arith,
  nat_eq_iff j id,
  nat_eq_iff id j,
  mem_id-put_id j id visited,
  unseen-le id ids visited,
  unseen-put_id id ids visited new,
)

pub length-put_ids : (js ids : List ℕ) → length (put_ids js ids) ≤ length js + length ids
unfolding put_ids
length-put_ids [] ids = omega arith
length-put_ids (j ∷ js) ids = omega (arith, length-put_ids js (put_id j ids), length-put_id j ids)
