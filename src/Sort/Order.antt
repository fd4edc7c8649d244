-- ===== src/Sort/Order.antt =====
-- Sorting gives the same items, each no less than those before it.
use mathlib.Core.List.{Perm}
use mathlib.Core.List.Perm
use vector_db.Prelude.{
  suc, length, List, [], ◌∷◌, map, Bool, true, false, ◌≡◌, ◌⊎◌, inl, inr, refl, ap, ◌∙◌, All,
  Bool-cases, arith,
}
use vector_db.Sort.{insert, sort}

module _ {ℓ} {A : Type ℓ} (less : A → A → Bool) where
  abbrev pub IsSorted : List A → Type 0
  IsSorted [] = Unit
  IsSorted (x ∷ xs) = All (λ y. less y x ≡ false) xs × IsSorted xs

  pub All-insert {κ} :
      (P : A → Type κ) (x : A) (xs : List A) → P x → All P xs → All P (insert less x xs)
  unfolding insert
  All-insert P x [] p ps = (p, ps)
  All-insert P x (y ∷ ys) p (q, qs) = elim (Bool-cases (less x y)) [
    | inl e ↦ rw e (p, (q, qs))
    | inr e ↦ rw e (q, All-insert P x ys p qs)
  ]

  pub All-sort {κ} : (P : A → Type κ) (xs : List A) → All P xs → All P (sort less xs)
  unfolding sort
  All-sort P [] ps = tt
  All-sort P (x ∷ xs) (p, ps) = All-insert P x (sort less xs) p (All-sort P xs ps)

  pub length-insert : (x : A) (xs : List A) → length (insert less x xs) ≡ suc (length xs)
  unfolding insert
  length-insert x [] = refl
  length-insert x (y ∷ ys) = ground (arith, length-insert x ys)

  pub length-sort : (xs : List A) → length (sort less xs) ≡ length xs
  unfolding sort
  length-sort [] = refl
  length-sort (x ∷ xs) = length-insert x (sort less xs) ∙ ap suc (length-sort xs)

  pub insert-perm : (x : A) (xs : List A) → Perm (insert less x xs) (x ∷ xs)
  unfolding insert
  insert-perm x [] = Perm.refl (x ∷ [])
  insert-perm x (y ∷ ys) = elim (Bool-cases (less x y)) [
    | inl e ↦ rw e (Perm.refl (x ∷ y ∷ ys))
    | inr e ↦ rw e (Perm.trans (Perm.cons y (insert-perm x ys)) (Perm.swap x y ys))
  ]

  pub sort-perm : (xs : List A) → Perm (sort less xs) xs
  unfolding sort
  sort-perm [] = Perm.refl []
  sort-perm (x ∷ xs) = Perm.trans (insert-perm x (sort less xs)) (Perm.cons x (sort-perm xs))

  -- On the items with `P`, `less` is asymmetric, and "no less" is transitive.
  pub record IsWeakOrder {κ} (P : A → Type κ) : Type (ℓ ⊔ κ) where
    pub asym : (x y : A) → P x → P y → less x y ≡ true → less y x ≡ false
    pub cotrans :
        (x y z : A) → P x → P y → P z → less x z ≡ true → (less x y ≡ true) ⊎ (less y z ≡ true)

  module _ {κ} (P : A → Type κ) (w : IsWeakOrder P) where
    no_less_trans :
        (x y z : A) → P x → P y → P z → less y x ≡ false → less z y ≡ false → less z x ≡ false
    no_less_trans x y z p q r h k = ground (arith, w.cotrans z y x r q p)

    All-no_less :
        (x y : A) (zs : List A)
        → P x
        → P y
        → All P zs
        → less y x ≡ false
        → All (λ z. less z y ≡ false) zs
        → All (λ z. less z x ≡ false) zs
    All-no_less x y [] p q ps h a = tt
    All-no_less x y (z ∷ zs) p q (r, rs) h (k, ks) =
        (no_less_trans x y z p q r h k, All-no_less x y zs p q rs h ks)

    pub insert-IsSorted :
        (x : A) (xs : List A) → P x → All P xs → IsSorted xs → IsSorted (insert less x xs)
    unfolding insert
    insert-IsSorted x [] p ps s = (tt, tt)
    insert-IsSorted x (y ∷ ys) p (q, qs) (a, s) = elim (Bool-cases (less x y)) [
      | inl e ↦ rw e ((w.asym x y p q e, All-no_less x y ys p q qs (w.asym x y p q e) a), (a, s))
      | inr e ↦ rw e (All-insert (λ z. less z y ≡ false) x ys e a, insert-IsSorted x ys p qs s)
    ]

    pub sort-IsSorted : (xs : List A) → All P xs → IsSorted (sort less xs)
    unfolding sort
    sort-IsSorted [] ps = tt
    sort-IsSorted (x ∷ xs) (p, ps) =
        insert-IsSorted x (sort less xs) p (All-sort P xs ps) (sort-IsSorted xs ps)

module _ {ℓ κ} {A : Type ℓ} {B : Type κ} (f : A → B) (less : B → B → Bool) where
  -- The order of the items by their keys.
  abbrev pub by : A → A → Bool
  by x y = less (f x) (f y)

  map-insert : (x : A) (xs : List A) → map f (insert by x xs) ≡ insert less (f x) (map f xs)
  unfolding insert
  map-insert x [] = refl
  map-insert x (y ∷ ys) = elim (Bool-cases (less (f x) (f y))) [
    | inl e ↦ rw e refl
    | inr e ↦ rw e (ap (◌∷◌ (f y)) (map-insert x ys))
  ]

  pub map-sort : (xs : List A) → map f (sort by xs) ≡ sort less (map f xs)
  unfolding sort
  map-sort [] = refl
  map-sort (x ∷ xs) = map-insert x (sort by xs) ∙ ap (insert less (f x)) (map-sort xs)
