-- ===== src/Hnsw/Insert/Linked.antt =====
-- "add bidirectional links" keeps the layer's invariant, and lengthens few lists.
use vector_db.Prelude.{
  ℕ, ◌+◌, ◌≤◌, ◌≡◌, ◌⊎◌, refl, ap, ◌∙◌, List, [], ◌∷◌, true, false, ◌||◌, length, All, arith, inl,
  inr, Bool-cases, nat_eq, nat_eq_iff,
}
use vector_db.Ids.{mem_id, put_id}
use vector_db.Ids.Laws.{mem_id-put_id, length-put_id}
use vector_db.Hnsw.Graph.{Layer, links, link}
use vector_db.Hnsw.Graph.Links.{links-link, Joins, Joins-link}
use vector_db.Hnsw.Insert.{link_both}

-- No node has more links than `m` but those of the list.
abbrev pub Sizes : ℕ → List ℕ → Layer → Type 0
Sizes m over layer = (x : ℕ) → (length (links x layer) ≤ m) ⊎ (mem_id x over ≡ true)

-- The id can be linked to the other one.
abbrev pub Linkable : ℕ → List ℕ → ℕ → Type 0
Linkable id ids nb = (mem_id nb ids ≡ true) × (nat_eq id nb ≡ false)

abbrev link_pair : ℕ → ℕ → Layer → Layer
link_pair id nb layer = link nb id (link id nb layer)

pub link_both-Joins :
    (id : ℕ) (ids nbs : List ℕ) (layer : Layer)
    → mem_id id ids ≡ true
    → All (Linkable id ids) nbs
    → Joins ids layer
    → Joins ids (link_both id nbs layer)
unfolding link_both
link_both-Joins id ids [] layer p ls j = j
link_both-Joins id ids (nb ∷ nbs) layer p ((q, ne), ls) j =
    link_both-Joins id ids nbs (link_pair id nb layer) p ls (
      Joins-link nb id ids (link id nb layer) q p
        (ground (arith, nat_eq_iff id nb, nat_eq_iff nb id)) (Joins-link id nb ids layer p q ne j))

-- The links of the id itself grow by the neighbours.
pub link_both-own :
    (id : ℕ) (ids nbs : List ℕ) (layer : Layer)
    → All (Linkable id ids) nbs
    → (length (links id (link_both id nbs layer)) ≤ length (links id layer) + length nbs)
      × ((x : ℕ)
          → mem_id x (links id (link_both id nbs layer))
            ≡ (mem_id x nbs || mem_id x (links id layer)))
unfolding link_both
link_both-own id ids [] layer ls = (omega arith, λ x. refl)
link_both-own id ids (nb ∷ nbs) layer ((q, ne), ls) =
    let own : links id (link_pair id nb layer) ≡ put_id nb (links id layer) = ground (
      arith,
      links-link id nb id (link id nb layer),
      links-link id id nb layer,
      nat_eq_iff id id,
      nat_eq_iff nb id,
      nat_eq_iff id nb,
    ) in
    let (size, has) = link_both-own id ids nbs (link_pair id nb layer) ls in
    (
      omega (arith, size, ap length own, length-put_id nb (links id layer)),
      λ x.
          has x
          ∙ ap (λ l. mem_id x nbs || mem_id x l) own
          ∙ ground (arith, mem_id-put_id x nb (links id layer), nat_eq_iff nb x),
    )

-- The links of any other node grow only if it is a neighbour.
pub link_both-others :
    (id x : ℕ) (nbs : List ℕ) (layer : Layer)
    → nat_eq id x ≡ false
    → mem_id x nbs ≡ false
    → links x (link_both id nbs layer) ≡ links x layer
unfolding link_both
link_both-others id x [] layer ne out = refl
link_both-others id x (nb ∷ nbs) layer ne out =
    link_both-others id x nbs (link_pair id nb layer) ne (ground arith)
    ∙ ground (arith, links-link x nb id (link id nb layer), links-link x id nb layer)

pub link_both-Sizes :
    (m id : ℕ) (ids nbs : List ℕ) (layer : Layer)
    → All (Linkable id ids) nbs
    → Sizes m [] layer
    → links id layer ≡ []
    → length nbs ≤ m
    → Sizes m (links id (link_both id nbs layer)) (link_both id nbs layer)
link_both-Sizes m id ids nbs layer ls s none_yet few x =
    let (size, has) = link_both-own id ids nbs layer ls in
    elim (Bool-cases (nat_eq id x)) [
      | inl same ↦ inl (ground (arith, nat_eq_iff id x, size, ap length none_yet))
      | inr other ↦ elim (Bool-cases (mem_id x nbs)) [
        | inl linked ↦ inr (has x ∙ rw linked refl)
        | inr out ↦ elim (s x) [
          | inl le ↦ inl (omega (arith, le, ap length (link_both-others id x nbs layer other out)))
          | inr outside ↦ cc
        ]
      ]
    ]
