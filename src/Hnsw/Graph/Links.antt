-- ===== src/Hnsw/Graph/Links.antt =====
-- The links of a layer after each change of it, and the layer's invariant.
use vector_db.Prelude.{
  ℕ, ◌≡◌, refl, List, [], ◌∷◌, true, false, if◌then◌else◌, arith, nat_eq, nat_eq_iff, nat_key,
}
use vector_db.Assoc.{assign}
use vector_db.Assoc.Laws.{find-assign}
use vector_db.Ids.{mem_id, put_id, remove_id}
use vector_db.Ids.Laws.{mem_id-put_id}
use vector_db.Hnsw.Graph.{Layer, links, link, unlink}

pub links-assign :
    (x id : ℕ) (ids : List ℕ) (layer : Layer)
    → links x (assign id ids layer) ≡ (if nat_eq id x then ids else links x layer)
unfolding links
links-assign x id ids layer = rw (links, find-assign x id ids layer) (ground arith)

pub links-link :
    (x id other : ℕ) (layer : Layer)
    → links x (link id other layer)
      ≡ (if nat_eq id x then put_id other (links id layer) else links x layer)
unfolding link
links-link x id other layer = links-assign x id (put_id other (links id layer)) layer

pub links-unlink :
    (x id other : ℕ) (layer : Layer)
    → links x (unlink id other layer)
      ≡ (if nat_eq id x then remove_id other (links id layer) else links x layer)
unfolding unlink
links-unlink x id other layer = links-assign x id (remove_id other (links id layer)) layer

-- Links join two different ids of the list.
abbrev pub Joins : List ℕ → Layer → Type 0
Joins ids layer =
    (x y : ℕ)
    → mem_id y (links x layer) ≡ true
    → (mem_id x ids ≡ true) × (mem_id y ids ≡ true) × (nat_eq x y ≡ false)

pub Joins-put_id :
    (id : ℕ) (ids : List ℕ) (layer : Layer) → Joins ids layer → Joins (put_id id ids) layer
Joins-put_id id ids layer j x y h =
    let (a, b, ne) = j x y h in
    (ground (arith, mem_id-put_id x id ids), ground (arith, mem_id-put_id y id ids), ne)

pub Joins-link :
    (id other : ℕ) (ids : List ℕ) (layer : Layer)
    → mem_id id ids ≡ true
    → mem_id other ids ≡ true
    → nat_eq id other ≡ false
    → Joins ids layer
    → Joins ids (link id other layer)
Joins-link id other ids layer p q ne j x y h = ground (
  arith,
  links-link x id other layer,
  mem_id-put_id y other (links id layer),
  nat_eq_iff id x,
  nat_eq_iff other y,
  j x y,
  j id y,
)

-- Without links in it a node has none out of it.
pub links-outside :
    (id : ℕ) (ids : List ℕ) (layer : Layer)
    → mem_id id ids ≡ false
    → Joins ids layer
    → links id layer ≡ []
links-outside id ids layer out j = go (links id layer) (λ y h. (j id y h).0)
  where
    go : (l : List ℕ) → ((y : ℕ) → mem_id y l ≡ true → mem_id id ids ≡ true) → l ≡ []
    go [] h = refl
    go (y ∷ ys) h = absurd (ground (arith, h y, nat_eq_iff y y))
