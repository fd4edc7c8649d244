-- ===== src/Hnsw/Pending/View.antt =====
-- The ids that the next search is to see, and the hooks that change them.
use vector_db.Prelude.{
  ℕ, ◌≡◌, refl, ◌∙◌, ap, List, [], ◌∷◌, Bool, true, not, ◌&&◌, ◌||◌, nat_eq, nat_eq_iff, arith,
  Bool-cases, inl, inr,
}
use vector_db.Ids.{mem_id}
use vector_db.Ids.Laws.{mem_id-put_id, mem_id-remove_id}
use vector_db.Hnsw.{HnswIndex}
use vector_db.Hnsw.Pending.{note_added, on_vectors_added, note_removed, on_vectors_removed}

-- What waits to be inserted, and what is in the graph and does not wait to be removed.
abbrev pub sees : ℕ → HnswIndex → Bool
sees x i = mem_id x i.to_be_inserted || (mem_id x i.inserted && not (mem_id x i.to_be_removed))

-- An id that waits to be inserted and is in the graph already waits to be removed first.
abbrev pub IsReady : HnswIndex → Type 0
IsReady i =
    (x : ℕ)
    → mem_id x i.to_be_inserted ≡ true
    → mem_id x i.inserted ≡ true
    → mem_id x i.to_be_removed ≡ true

note_added-lem :
    (id : ℕ) (i : HnswIndex)
    → IsReady i
    → IsReady (note_added id i) × ((x : ℕ) → sees x (note_added id i) ≡ (nat_eq id x || sees x i))
note_added-lem id i r = (
  λ x p q. ground (
    arith,
    mem_id-put_id x id i.to_be_inserted,
    mem_id-put_id x id i.to_be_removed,
    r x,
    nat_eq_iff id x,
  ),
  λ x. ground (
    arith,
    mem_id-put_id x id i.to_be_inserted,
    mem_id-put_id x id i.to_be_removed,
    nat_eq_iff id x,
  ),
)

-- `on_vectors_added` makes the index see the given ids beside what it saw, and keeps it ready.
pub on_vectors_added-sees :
    (ids : List ℕ) (i : HnswIndex)
    → IsReady i
    → IsReady (on_vectors_added ids i)
      × ((x : ℕ) → sees x (on_vectors_added ids i) ≡ (mem_id x ids || sees x i))
unfolding on_vectors_added
on_vectors_added-sees [] i r = (r, λ x. refl)
on_vectors_added-sees (id ∷ ids) i r =
    let (r', s) = note_added-lem id i r in
    let (r'', s') = on_vectors_added-sees ids (note_added id i) r' in
    (r'', λ x. s' x ∙ ap (λ b. mem_id x ids || b) (s x) ∙ ground arith)

note_removed-lem :
    (id : ℕ) (i : HnswIndex)
    → IsReady i
    → IsReady (note_removed id i)
      × ((x : ℕ) → sees x (note_removed id i) ≡ (not (nat_eq id x) && sees x i))
note_removed-lem id i r = elim (Bool-cases (mem_id id i.to_be_inserted)) [
  | inl waits ↦ rw waits (
    λ x p q. ground (arith, mem_id-remove_id x id i.to_be_inserted, r x),
    λ x. ground (arith, mem_id-remove_id x id i.to_be_inserted, nat_eq_iff id x, r x),
  )
  | inr idle ↦ rw idle (
    λ x p q. ground (arith, mem_id-put_id x id i.to_be_removed, r x),
    λ x. ground (arith, mem_id-put_id x id i.to_be_removed, nat_eq_iff id x, r x),
  )
]

-- `on_vectors_removed` makes a ready index see what it saw but for the given ids, and keeps it ready.
pub on_vectors_removed-sees :
    (ids : List ℕ) (i : HnswIndex)
    → IsReady i
    → IsReady (on_vectors_removed ids i)
      × ((x : ℕ) → sees x (on_vectors_removed ids i) ≡ (not (mem_id x ids) && sees x i))
unfolding on_vectors_removed
on_vectors_removed-sees [] i r = (r, λ x. refl)
on_vectors_removed-sees (id ∷ ids) i r =
    let (r', s) = note_removed-lem id i r in
    let (r'', s') = on_vectors_removed-sees ids (note_removed id i) r' in
    (r'', λ x. s' x ∙ ap (λ b. not (mem_id x ids) && b) (s x) ∙ ground arith)
