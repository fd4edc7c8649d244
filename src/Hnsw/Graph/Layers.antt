-- ===== src/Hnsw/Graph/Layers.antt =====
-- The layers after one is written, and after the graph grows.
use vector_db.Prelude.{
  ℕ, zero, suc, ◌≡◌, refl, ap, List, [], ◌∷◌, if◌then◌else◌, length, ltb, arith, nat_eq, none, some,
  get_elem?,
}
use vector_db.Hnsw.Graph.{Layer, set_layer, resize}

pub get_elem?-set_layer :
    (i lc : ℕ) (l : Layer) (ls : List Layer)
    → get_elem? (set_layer lc l ls) i ≡ (
        if nat_eq lc i
        then elim (get_elem? ls i) [ none ↦ none | some old ↦ some l ]
        else get_elem? ls i)
get_elem?-set_layer i lc l [] = ground arith
get_elem?-set_layer zero zero l (k ∷ ls) = refl
get_elem?-set_layer zero (suc lc) l (k ∷ ls) = ground arith
get_elem?-set_layer (suc i) zero l (k ∷ ls) = ground arith
get_elem?-set_layer (suc i) (suc lc) l (k ∷ ls) = ground (arith, get_elem?-set_layer i lc l ls)

pub length-set_layer :
    (lc : ℕ) (l : Layer) (ls : List Layer) → length (set_layer lc l ls) ≡ length ls
length-set_layer lc l [] = refl
length-set_layer zero l (k ∷ ls) = refl
length-set_layer (suc lc) l (k ∷ ls) = ap suc (length-set_layer lc l ls)

pub get_elem?-resize :
    (i n : ℕ) (ls : List Layer)
    → get_elem? (resize n ls) i
      ≡ (if ltb i n then elim (get_elem? ls i) [ none ↦ some [] | some l ↦ some l ] else none)
get_elem?-resize i zero ls = ground arith
get_elem?-resize zero (suc n) [] = ground arith
get_elem?-resize zero (suc n) (l ∷ ls) = ground arith
get_elem?-resize (suc i) (suc n) [] = ground (arith, get_elem?-resize i n [])
get_elem?-resize (suc i) (suc n) (l ∷ ls) = ground (arith, get_elem?-resize i n ls)

pub length-resize : (n : ℕ) (ls : List Layer) → length (resize n ls) ≡ n
length-resize zero ls = refl
length-resize (suc n) [] = ap suc (length-resize n [])
length-resize (suc n) (l ∷ ls) = ap suc (length-resize n ls)
