-- ===== src/Hnsw/Pending/Entry.antt =====
-- The entry point after nodes are removed.
use vector_db.Prelude.{
  ℕ, suc, ◌<◌, ◌≡◌, ◌⊎◌, refl, List, [], ◌∷◌, Bool, true, false, not, ◌&&◌, ltb, All, arith, inl,
  inr, Bool-cases, none, some, nat_eq, nat_eq_iff, nat_key,
}
use vector_db.Ids.{mem_id}
use vector_db.IvfFlat.{is_empty_list}
use vector_db.Hnsw.{HnswIndex}
use vector_db.Hnsw.Pending.{level_of, find_top, replace_entry, repair_entry}

-- The node is on the top layer.
abbrev pub is_top : HnswIndex → ℕ → Bool
is_top i id = nat_eq (suc (level_of id i)) i.top

find_top-lem :
    (i : HnswIndex) (ids : List ℕ)
    → ((find_top i ids ≡ none) × All (λ id. is_top i id ≡ false) ids)
      ⊎ ((id : ℕ) × (find_top i ids ≡ some id) × (mem_id id ids ≡ true) × (is_top i id ≡ true))
unfolding find_top
find_top-lem i [] = inl (refl, tt)
find_top-lem i (id ∷ ids) = elim (Bool-cases (is_top i id)) [
  | inl top ↦ inr (id, rw top refl, ground (arith, nat_eq_iff id id), top)
  | inr low ↦ elim (find_top-lem i ids) [
    | inl (e, all) ↦ inl (rw low e, (low, all))
    | inr (x, e, held, top) ↦ inr (x, rw low e, ground arith, top)
  ]
]

entry-stays :
    (entry : ℕ) (held : Bool) → (ltb 0 entry && not held) ≡ false → (entry ≡ 0) ⊎ (held ≡ true)
entry-stays entry held h = ground arith

empty-list : (ids : List ℕ) → is_empty_list ids ≡ true → ids ≡ []
empty-list [] h = refl
empty-list (id ∷ ids) h = cc

replace_entry-cases :
    (i : HnswIndex)
    → ((replace_entry i ≡ 0) × (i.inserted ≡ []))
      ⊎ ((mem_id (replace_entry i) i.inserted ≡ true) × (is_top i (replace_entry i) ≡ true))
      ⊎ ((replace_entry i ≡ i.entry_point) × All (λ id. is_top i id ≡ false) i.inserted)
replace_entry-cases i = elim (Bool-cases (is_empty_list i.inserted)) [
  | inl none_left ↦ rw none_left (inl (refl, empty-list i.inserted none_left))
  | inr some_left ↦ elim (find_top-lem i i.inserted) [
    | inl (e, all) ↦ rw (some_left, e) (inr (inr (refl, all)))
    | inr (id, e, held, top) ↦ rw (some_left, e) (inr (inl (held, top)))
  ]
]

-- An entry point that is in the graph stays, and so does 0. One that is not is replaced: by 0 if no
-- node is left, by a node on the top layer if there is one; and otherwise it stays, although it is not
-- in the graph.
pub repair_entry_lem :
    (i : HnswIndex)
    → (let j = repair_entry i in
        (((i.entry_point ≡ 0) ⊎ (mem_id i.entry_point i.inserted ≡ true))
          × (j.entry_point ≡ i.entry_point))
        ⊎ ((0 < i.entry_point)
            × (mem_id i.entry_point i.inserted ≡ false)
            × (((j.entry_point ≡ 0) × (i.inserted ≡ []))
                ⊎ ((mem_id j.entry_point i.inserted ≡ true) × (is_top i j.entry_point ≡ true))
                ⊎ ((j.entry_point ≡ i.entry_point) × All (λ id. is_top i id ≡ false) i.inserted))))
unfolding repair_entry
repair_entry_lem i =
    elim (Bool-cases (ltb 0 i.entry_point && not (mem_id i.entry_point i.inserted))) [
      | inr stays ↦
          rw stays (inl (entry-stays i.entry_point (mem_id i.entry_point i.inserted) stays, refl))
      | inl gone ↦
          let out : mem_id i.entry_point i.inserted ≡ false = ground arith in
          rw gone (inr (ground arith, out, replace_entry-cases i))
    ]
