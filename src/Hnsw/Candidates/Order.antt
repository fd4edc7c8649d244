-- ===== src/Hnsw/Candidates/Order.antt =====
-- A set of candidates stays in order under insertion, and the set without its last.
use vector_db.Prelude.{
  ℕ, suc, ◌-◌, ◌≤◌, ◌<◌, ◌≡◌, refl, List, [], ◌∷◌, length, All, arith, inl, inr, Bool-cases, done,
}
use vector_db.Distance.{Double}
use vector_db.Distance.Order.{pair_lt, IsOrdered, IsNumber, pair_lt-IsWeakOrder}
use vector_db.Hnsw.Candidates.{CandSet, insert_cand}
use vector_db.Hnsw.Candidates.Select.{Below, IsIncreasing}
use vector_db.Hnsw.LayerSearch.{last, erase_last}

module _ {ℓ} {A : Type ℓ} where
  pub last-some : (xs : List A) → 0 < length xs → (x : A) × (last xs ≡ done x)
  last-some [] h = absurd (omega arith)
  last-some (x ∷ []) h = (x, refl)
  last-some (x ∷ (y ∷ ys)) h = last-some (y ∷ ys) (omega arith)

  pub length-erase_last : (xs : List A) → length (erase_last xs) ≡ length xs - 1
  length-erase_last [] = refl
  length-erase_last (x ∷ []) = refl
  length-erase_last (x ∷ (y ∷ ys)) = omega (arith, length-erase_last (y ∷ ys))

  pub All-erase_last {κ} : (P : A → Type κ) (xs : List A) → All P xs → All P (erase_last xs)
  All-erase_last P [] ps = tt
  All-erase_last P (x ∷ []) ps = tt
  All-erase_last P (x ∷ (y ∷ ys)) (p, ps) = (p, All-erase_last P (y ∷ ys) ps)

module _ {D : Type 0} ⦃d : Double D⦄ where
  pub IsIncreasing-erase_last : (xs : CandSet D) → IsIncreasing xs → IsIncreasing (erase_last xs)
  IsIncreasing-erase_last [] i = tt
  IsIncreasing-erase_last (x ∷ []) i = tt
  IsIncreasing-erase_last (x ∷ (y ∷ ys)) (b, i) =
      (All-erase_last (Below x) (y ∷ ys) b, IsIncreasing-erase_last (y ∷ ys) i)

  pub All-insert_cand {κ} :
      (P : D × ℕ → Type κ) (x : D × ℕ) (ys : CandSet D) → P x → All P ys → All P (insert_cand x ys)
  unfolding insert_cand
  All-insert_cand P x [] p ps = (p, tt)
  All-insert_cand P x (y ∷ ys) p (q, qs) = elim (Bool-cases (pair_lt x y)) [
    | inl e ↦ rw e (p, (q, qs))
    | inr e ↦ elim (Bool-cases (pair_lt y x)) [
      | inl e' ↦ rw (e, e') (q, All-insert_cand P x ys p qs)
      | inr e' ↦ rw (e, e') (q, qs)
    ]
  ]

  pub length-insert_cand :
      (x : D × ℕ) (ys : CandSet D)
      → (length ys ≤ length (insert_cand x ys))
        × (length (insert_cand x ys) ≤ suc (length ys))
        × (0 < length (insert_cand x ys))
  unfolding insert_cand
  length-insert_cand x [] = omega arith
  length-insert_cand x (y ∷ ys) = ground (arith, length-insert_cand x ys)

module _ {D : Type 0} ⦃d : Double D⦄ (order : IsOrdered d) where
  Below-trans :
      (x y z : D × ℕ)
      → IsNumber order x
      → IsNumber order y
      → IsNumber order z
      → Below x y
      → Below y z
      → Below x z
  Below-trans x y z p q r (g, g') (h, h') =
      let w = pair_lt-IsWeakOrder order in
      elim (w.cotrans x z y p r q g) [ inl lt ↦ (lt, w.asym x z p r lt) | inr gt ↦ absurd (cc) ]

  All-Below :
      (x y : D × ℕ) (ys : CandSet D)
      → IsNumber order x
      → IsNumber order y
      → All (IsNumber order) ys
      → Below x y
      → All (Below y) ys
      → All (Below x) ys
  All-Below x y [] p q rs g h = tt
  All-Below x y (z ∷ ys) p q (r, rs) g (h, hs) =
      (Below-trans x y z p q r g h, All-Below x y ys p q rs g hs)

  pub IsIncreasing-insert_cand :
      (x : D × ℕ) (ys : CandSet D)
      → IsNumber order x
      → All (IsNumber order) ys
      → IsIncreasing ys
      → IsIncreasing (insert_cand x ys)
  unfolding insert_cand
  IsIncreasing-insert_cand x [] p ps i = (tt, tt)
  IsIncreasing-insert_cand x (y ∷ ys) p (q, qs) (b, i) =
      let w = pair_lt-IsWeakOrder order in
      elim (Bool-cases (pair_lt x y)) [
        | inl e ↦
            let lt : Below x y = (e, w.asym x y p q e) in
            rw e ((lt, All-Below x y ys p q qs lt b), (b, i))
        | inr e ↦ elim (Bool-cases (pair_lt y x)) [
          | inl e' ↦
              rw (e, e')
                (All-insert_cand (Below y) x ys (e', e) b, IsIncreasing-insert_cand x ys p qs i)
          | inr e' ↦ rw (e, e') (b, i)
        ]
      ]
