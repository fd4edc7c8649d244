-- ===== src/IvfFlat/Held.antt =====
-- The entries of a collection under the ids in the clusters.
use vector_db.Prelude.{
  ℕ, ◌≡◌, inl, inr, refl, sym, subst, ap, ◌∙◌, List, [], ◌∷◌, ◌++◌, none, some, get_elem?, All,
  nat_key, Option-cases,
}
use vector_db.Assoc.{find}
use vector_db.FloatVector.{FloatVector}
use vector_db.Vectors.{Vectors}
use vector_db.Vectors.Found.{find-All}
use vector_db.KMeans.{Cluster}

-- The entries of the collection under the ids, those it does not have passed over.
abbrev pub held : Vectors → List ℕ → List (ℕ × FloatVector)
held vectors [] = []
held vectors (id ∷ ids) = elim (find id vectors) [
  | none ↦ held vectors ids
  | some v ↦ (id, v) ∷ held vectors ids
]

pub held-gone :
    (vectors : Vectors) (id : ℕ) (ids : List ℕ)
    → find id vectors ≡ none
    → held vectors (id ∷ ids) ≡ held vectors ids
held-gone vectors id ids h = rw (h, held) refl

pub held-found :
    (vectors : Vectors) (id : ℕ) (v : FloatVector) (ids : List ℕ)
    → find id vectors ≡ some v
    → held vectors (id ∷ ids) ≡ (id, v) ∷ held vectors ids
held-found vectors id v ids h = rw (h, held) refl

pub held-append :
    (vectors : Vectors) (xs ys : List ℕ)
    → held vectors (xs ++ ys) ≡ held vectors xs ++ held vectors ys
held-append vectors [] ys = refl
held-append vectors (x ∷ xs) ys = elim (Option-cases (find x vectors)) [
  | inl e ↦
      held-gone vectors x (xs ++ ys) e
      ∙ held-append vectors xs ys
      ∙ ap (λ l. l ++ held vectors ys) (sym (held-gone vectors x xs e))
  | inr (v, e) ↦
      held-found vectors x v (xs ++ ys) e
      ∙ ap (◌∷◌ (x, v)) (held-append vectors xs ys)
      ∙ ap (λ l. l ++ held vectors ys) (sym (held-found vectors x v xs e))
]

pub All-held {κ} :
    (P : ℕ × FloatVector → Type κ) (vectors : Vectors) (ids : List ℕ)
    → All P vectors
    → All P (held vectors ids)
All-held P vectors [] ps = tt
All-held P vectors (id ∷ ids) ps = elim (Option-cases (find id vectors)) [
  | inl e ↦ subst (All P) (sym (held-gone vectors id ids e)) (All-held P vectors ids ps)
  | inr (v, e) ↦
      subst (All P) (sym (held-found vectors id v ids e))
        (find-All P vectors id v ps e, All-held P vectors ids ps)
]

-- The ids in the clusters that are probed, in order.
abbrev pub probed_ids {ℓ} : {D : Type ℓ} → List Cluster → List (D × ℕ) → List ℕ
probed_ids clusters [] = []
probed_ids clusters ((x, j) ∷ probed) = elim (get_elem? clusters j) [
  | none ↦ probed_ids clusters probed
  | some c ↦ c.vector_ids ++ probed_ids clusters probed
]
