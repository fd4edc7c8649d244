-- ===== src/Distance/Laws.antt =====
-- When a distance is defined, and that it does not depend on the order of the vectors.
use vector_db.Prelude.{
  ℕ, zero, suc, ◌≤◌, ◌<◌, ◌≡◌, ◌≢◌, refl, sym, ◌∙◌, ap, List, [], ◌∷◌, Outcome, done, thrown,
  undefined, ◌>>=◌, >>=-done, length, arith,
}
use vector_db.FloatVector.{FloatVector}
use vector_db.Distance.{
  Double, DistType, cosine, euclidean, inner_product, unknown, loop, compute, add_square,
  add_products, add_product, zero_sums, finish_cosine, Sums,
}

module _ {D : Type 0} ⦃d : Double D⦄ where
  loop_done {κ} :
      {S : Type κ} (body : S → D → D → S) (n : ℕ) (xs ys : List ℕ) (s : S)
      → n ≤ length xs
      → n ≤ length ys
      → (r : S) × (loop body n xs ys s ≡ done r)
  unfolding loop
  loop_done body zero xs ys s h k = (s, refl)
  loop_done body (suc n) [] ys s h k = absurd (omega arith)
  loop_done body (suc n) (x ∷ xs) [] s h k = absurd (omega arith)
  loop_done body (suc n) (x ∷ xs) (y ∷ ys) s h k =
      loop_done body n xs ys (body s (d.widen x) (d.widen y)) (omega arith) (omega arith)

  loop_short {κ} :
      {S : Type κ} (body : S → D → D → S) (n : ℕ) (xs ys : List ℕ) (s : S)
      → length ys < n
      → loop body n xs ys s ≡ undefined
  unfolding loop
  loop_short body zero xs ys s h = absurd (omega arith)
  loop_short body (suc n) [] ys s h = refl
  loop_short body (suc n) (x ∷ xs) [] s h = refl
  loop_short body (suc n) (x ∷ xs) (y ∷ ys) s h = loop_short body n xs ys _ (omega arith)

  -- For each of the three distances: `compute( a, b )` has a value if both arrays hold as many floats
  -- as the dimension of `a` says, and reads past the end of the second if that is shorter.
  pub compute_defined :
      (t : DistType) (a b : FloatVector)
      → t ≢ unknown
      → (a.dimension ≤ length a.elements
          → a.dimension ≤ length b.elements
          → (r : D) × (compute {D = D} t a b ≡ done r))
        × (length b.elements < a.dimension → compute {D = D} t a b ≡ undefined)
  unfolding compute
  compute_defined cosine a b h = (
    λ p q.
        let (s, e) = loop_done add_products a.dimension a.elements b.elements zero_sums p q in
        (finish_cosine s, rw (e, ◌>>=◌)),
    λ p. rw (loop_short add_products a.dimension a.elements b.elements zero_sums p, ◌>>=◌),
  )
  compute_defined euclidean a b h = (
    λ p q.
        let (s, e) = loop_done add_square a.dimension a.elements b.elements d.nought p q in
        (d.sqrt s, rw (e, ◌>>=◌)),
    λ p. rw (loop_short add_square a.dimension a.elements b.elements d.nought p, ◌>>=◌),
  )
  compute_defined inner_product a b h = (
    λ p q. loop_done add_product a.dimension a.elements b.elements d.nought p q,
    λ p. loop_short add_product a.dimension a.elements b.elements d.nought p,
  )
  compute_defined unknown a b h = absurd (h refl)

-- Exact laws of the arithmetic: a product, and the square of a difference, have one value in both
-- orders.
pub record IsSymmetric {D : Type 0} (d : Double D) : Type 0 where
  pub mul_comm : (x y : D) → d.mul x y ≡ d.mul y x
  pub square_comm : (x y : D) → d.mul (d.sub x y) (d.sub x y) ≡ d.mul (d.sub y x) (d.sub y x)

module _ {D : Type 0} ⦃d : Double D⦄ (laws : IsSymmetric d) where
  abbrev flip : Sums D → Sums D
  flip s = record { dot_product = s.dot_product; mag_a = s.mag_b; mag_b = s.mag_a }

  loop_flip {κ} :
      {S T : Type κ} (f : S → T) (body : S → D → D → S) (body' : T → D → D → T)
      (same : (s : S) (x y : D) → f (body s x y) ≡ body' (f s) y x) (n : ℕ) (xs ys : List ℕ) (s : S)
      → (loop body n xs ys s >>= λ r. done (f r)) ≡ loop body' n ys xs (f s)
  unfolding loop
  loop_flip f body body' same zero xs ys s = refl
  loop_flip f body body' same (suc n) [] [] s = refl
  loop_flip f body body' same (suc n) [] (y ∷ ys) s = refl
  loop_flip f body body' same (suc n) (x ∷ xs) [] s = refl
  loop_flip f body body' same (suc n) (x ∷ xs) (y ∷ ys) s =
      loop_flip f body body' same n xs ys (body s (d.widen x) (d.widen y))
      ∙ ap (loop body' n ys xs) (same s (d.widen x) (d.widen y))

  loop_swap :
      (body : D → D → D → D)
      → ((s x y : D) → body s x y ≡ body s y x)
      → (a b : FloatVector) → a.dimension ≡ b.dimension
      → loop body a.dimension a.elements b.elements d.nought
        ≡ loop body b.dimension b.elements a.elements d.nought
  loop_swap body same a b e =
      sym (>>=-done (loop body a.dimension a.elements b.elements d.nought))
      ∙ loop_flip (λ s. s) body body same a.dimension a.elements b.elements d.nought
      ∙ ap (λ n. loop body n b.elements a.elements d.nought) e

  flip-add_products : (s : Sums D) (x y : D) → flip (add_products s x y) ≡ add_products (flip s) y x
  flip-add_products s x y = rw (laws.mul_comm x y)

  finish_flip :
      (m : Outcome (Sums D))
      → (m >>= λ s. done (finish_cosine s))
        ≡ ((m >>= λ s. done (flip s)) >>= λ s. done (finish_cosine s))
  finish_flip (done s) = ground (arith, laws.mul_comm (d.sqrt s.mag_a) (d.sqrt s.mag_b))
  finish_flip thrown = refl
  finish_flip undefined = refl

  -- Between vectors of one dimension every distance is symmetric, and if it is undefined one way it
  -- is undefined the other way.
  pub compute_symm :
      (t : DistType) (a b : FloatVector)
      → a.dimension ≡ b.dimension
      → compute {D = D} t a b ≡ compute t b a
  unfolding compute
  compute_symm cosine a b e =
      ap (λ m. m >>= λ s. done (finish_cosine s)) (rw e refl)
      ∙ finish_flip (loop add_products b.dimension a.elements b.elements zero_sums)
      ∙ ap (λ m. m >>= λ s. done (finish_cosine s))
          (loop_flip flip add_products add_products flip-add_products b.dimension a.elements
            b.elements zero_sums)
  compute_symm euclidean a b e =
      ap (λ m. m >>= λ s. done (d.sqrt s))
        (loop_swap add_square (λ s x y. ap (d.add s) (laws.square_comm x y)) a b e)
  compute_symm inner_product a b e =
      loop_swap add_product (λ s x y. ap (d.add s) (laws.mul_comm x y)) a b e
  compute_symm unknown a b e = refl
