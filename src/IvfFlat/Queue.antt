-- ===== src/IvfFlat/Queue.antt =====
-- The queue of results keeps the first `k` of what is pushed.
use mathlib.Core.List.{Perm, perm_middle}
use mathlib.Core.List.Perm
use vector_db.Prelude.{
  ℕ, zero, suc, ◌≡◌, inl, inr, refl, sym, ap, ◌∙◌, List, [], ◌∷◌, ◌++◌, length, take, All,
  take-take, take-all, length-take, min, arith, nat_key, Bool, ltb, Bool-cases,
}
use vector_db.Index.Interface.{Score}
use vector_db.Distance.{Double}
use vector_db.Sort.{insert}
use vector_db.Sort.Order.{IsSorted, length-insert, insert-perm, insert-IsSorted, All-insert}
use vector_db.Scan.Nearest.{rank, scores-IsWeakOrder}
use vector_db.Distance.Order.{IsOrdered, IsNumber}
use vector_db.IvfFlat.{score_lt, drop_last, push_result}

take-cons {ℓ} :
    {A : Type ℓ} (k : ℕ) (y : A) (ys : List A) → take k (y ∷ take k ys) ≡ take k (y ∷ ys)
take-cons zero y ys = refl
take-cons (suc k) y ys = ap (◌∷◌ y) (take-take k (suc k) ys (omega arith))

module _ {ℓ} {A : Type ℓ} (less : A → A → Bool) where
  -- Insertion before the first greater item, then the first `k`: what is past `k` makes no difference.
  take-insert :
      (k : ℕ) (x : A) (q : List A) → take k (insert less x (take k q)) ≡ take k (insert less x q)
  unfolding insert
  take-insert zero x q = refl
  take-insert (suc k) x [] = refl
  take-insert (suc k) x (y ∷ ys) = elim (Bool-cases (less x y)) [
    | inl e ↦ rw e (ap (◌∷◌ x) (take-cons k y ys))
    | inr e ↦ rw e (ap (◌∷◌ y) (take-insert k x ys))
  ]

module _ {D : Type 0} ⦃d : Double D⦄ where
  drop_last-take : (k : ℕ) (q : List (Score D)) → length q ≡ suc k → drop_last q ≡ take k q
  drop_last-take k [] h = absurd (omega arith)
  drop_last-take zero (x ∷ []) h = refl
  drop_last-take (suc k) (x ∷ []) h = absurd (omega arith)
  drop_last-take zero (x ∷ (y ∷ ys)) h = absurd (omega arith)
  drop_last-take (suc k) (x ∷ (y ∷ ys)) h = ap (◌∷◌ x) (drop_last-take k (y ∷ ys) (omega arith))

  pub push_result_lem :
      (k : ℕ) (s : Score D) (q : List (Score D))
      → push_result k s (take k q) ≡ take k (insert score_lt s q)
  unfolding push_result
  push_result_lem k s q =
      let pushed = insert score_lt s (take k q) in
      let size : length pushed ≡ suc (min k (length q)) =
        length-insert score_lt s (take k q) ∙ ap suc (length-take k q) in
      elim (Bool-cases (ltb k (length pushed))) [
        | inl full ↦
            rw full (drop_last-take k pushed (ground (arith, size))) ∙ take-insert score_lt k s q
        | inr fits ↦ rw fits (sym (take-all k pushed (ground arith))) ∙ take-insert score_lt k s q
      ]

  -- The items are inserted one after the other.
  unfoldable pub pushes : List (Score D) → List (Score D) → List (Score D)
  unfolding insert
  pushes [] q = q
  pushes (s ∷ ss) q = pushes ss (insert score_lt s q)

  pub pushes-append : (xs ys q : List (Score D)) → pushes (xs ++ ys) q ≡ pushes ys (pushes xs q)
  unfolding pushes
  pushes-append [] ys q = refl
  pushes-append (x ∷ xs) ys q = pushes-append xs ys (insert score_lt x q)

  pub pushes-perm : (xs q : List (Score D)) → Perm (pushes xs q) (xs ++ q)
  unfolding pushes
  pushes-perm [] q = Perm.refl q
  pushes-perm (x ∷ xs) q =
      Perm.trans (pushes-perm xs (insert score_lt x q))
        (Perm.trans (Perm.append_left xs (insert-perm score_lt x q)) (perm_middle xs q))

  pub pushes-All {κ} :
      (P : Score D → Type κ) (xs q : List (Score D)) → All P xs → All P q → All P (pushes xs q)
  unfolding pushes
  pushes-All P [] q ps qs = qs
  pushes-All P (x ∷ xs) q (p, ps) qs =
      pushes-All P xs (insert score_lt x q) ps (All-insert score_lt P x q p qs)

  pub pushes-IsSorted :
      (order : IsOrdered d) (xs q : List (Score D))
      → All (λ s. IsNumber order (rank s)) xs
      → All (λ s. IsNumber order (rank s)) q
      → IsSorted score_lt q
      → IsSorted score_lt (pushes xs q)
  unfolding pushes
  pushes-IsSorted order [] q ps qs s = s
  pushes-IsSorted order (x ∷ xs) q (p, ps) qs s =
      pushes-IsSorted order xs (insert score_lt x q) ps (All-insert score_lt _ x q p qs) (
        insert-IsSorted score_lt (λ s. IsNumber order (rank s)) (scores-IsWeakOrder order) x q p qs
          s)
