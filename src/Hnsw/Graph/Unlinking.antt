-- ===== src/Hnsw/Graph/Unlinking.antt =====
-- What the removal of a node does to a layer.
use vector_db.Prelude.{
  ℕ, ◌≡◌, refl, ap, ◌∙◌, List, [], ◌∷◌, true, false, not, ◌&&◌, if◌then◌else◌, arith, nat_eq,
  nat_eq_iff, nat_key, done, undefined, ◌>>=◌, Bool-cases, inl, inr,
}
use vector_db.Assoc.{erase}
use vector_db.Assoc.Laws.{find-erase}
use vector_db.Ids.{mem_id}
use vector_db.Ids.Laws.{mem_id-remove_id}
use vector_db.Hnsw.Graph.{Layer, links, unlink, unlink_all, unlink_node}
use vector_db.Hnsw.Graph.Links.{links-unlink}

links-erase :
    (x id : ℕ) (layer : Layer)
    → links x (erase id layer) ≡ (if nat_eq id x then [] else links x layer)
unfolding links
links-erase x id layer = rw (links, find-erase x id layer) (ground arith)

unlink_all-lem :
    (id : ℕ) (nbs : List ℕ) (layer : Layer)
    → (mem_id id nbs ≡ true → unlink_all id nbs layer ≡ undefined)
      × (mem_id id nbs ≡ false
          → (l : Layer) × (unlink_all id nbs layer ≡ done l)
            × ((x y : ℕ)
                → mem_id y (links x l)
                  ≡ (mem_id y (links x layer) && not (mem_id x nbs && nat_eq id y))))
unfolding unlink_all
unlink_all-lem id [] layer = (λ h. cc, λ h. (layer, refl, λ x y. ground arith))
unlink_all-lem id (nb ∷ nbs) layer =
    let (self, others) = unlink_all-lem id nbs (unlink nb id layer) in
    elim (Bool-cases (nat_eq nb id)) [
      | inl same ↦ (λ h. rw same refl, λ h. absurd (ground arith))
      | inr other ↦ (
        λ h. rw other (self (ground arith)),
        λ h.
            let (l, e, has) = others (ground arith) in
            (
              l,
              rw other e,
              λ x y.
                  has x y
                  ∙ ground (
                    arith,
                    links-unlink x nb id layer,
                    mem_id-remove_id y id (links nb layer),
                    nat_eq_iff nb x,
                  ),
            ),
      )
    ]

-- To take a node out of a layer is undefined if the node is linked to itself. Otherwise the node has no
-- links after it, the nodes that it was linked to have no link to it, and every other link stays; a link
-- to it from a node that it was not linked to stays too.
pub unlink_node_lem :
    (id : ℕ) (layer : Layer)
    → (mem_id id (links id layer) ≡ true → unlink_node id layer ≡ undefined)
      × (mem_id id (links id layer) ≡ false
          → (l : Layer) × (unlink_node id layer ≡ done l)
            × ((x y : ℕ)
                → mem_id y (links x l) ≡ (
                    mem_id y (links x layer)
                    && not (nat_eq id x)
                    && not (mem_id x (links id layer) && nat_eq id y))))
unfolding unlink_node
unlink_node_lem id layer =
    let (self, others) = unlink_all-lem id (links id layer) layer in
    (
      λ h. ap (λ o. o >>= λ l. done (erase id l)) (self h),
      λ h.
          let (l, e, has) = others h in
          (
            erase id l,
            ap (λ o. o >>= λ l. done (erase id l)) e,
            λ x y. ap (mem_id y) (links-erase x id l) ∙ ground (arith, has x y),
          ),
    )
