-- ===== src/Distance.antt =====
-- src/include/core/distance.h, and the two functions of src/impl/core/utils/utils.cpp that repeat it.
-- `double` is a parameter: its values and the operations that the code applies to them.
pub mod Laws
pub mod Order
pub mod Whole
use vector_db.Prelude.{
  ℕ, zero, suc, List, [], ◌∷◌, Bool, true, false, ◌&&◌, ◌||◌, Option, none, some, Outcome, done,
  thrown, undefined, ◌>>=◌, or_undefined, get_elem?, if◌then◌else◌,
}
use vector_db.FloatVector.{FloatVector}

pub record Double (D : Type 0) : Type 0 where
  pub nought : D
  pub one : D
  -- `std::numeric_limits<double>::max()`
  pub largest : D
  -- Between a `float`, given by its bits, and a `double`; and from an integer.
  pub widen : ℕ → D
  pub narrow : D → ℕ
  pub of_nat : ℕ → D
  pub add : D → D → D
  pub sub : D → D → D
  pub mul : D → D → D
  pub div : D → D → D
  pub sqrt : D → D
  pub lt : D → D → Bool
  pub eq : D → D → Bool

pub data DistType : Type 0 where
  cosine : DistType
  euclidean : DistType
  inner_product : DistType
  unknown : DistType

-- The three accumulators of the cosine distance.
pub record Sums (D : Type 0) : Type 0 where
  pub dot_product : D
  pub mag_a : D
  pub mag_b : D

module _ {D : Type 0} ⦃d : Double D⦄ where
  -- `data_[ i ]` for each `i` below the dimension of the first vector, fed to the loop's body; an
  -- index past the end of either array is undefined.
  pub loop {κ} : {S : Type κ} → (S → D → D → S) → ℕ → List ℕ → List ℕ → S → Outcome S
  loop body zero xs ys s = done s
  loop body (suc n) (x ∷ xs) (y ∷ ys) s = loop body n xs ys (body s (d.widen x) (d.widen y))
  loop body (suc n) _ _ s = undefined

  abbrev pub add_square : D → D → D → D
  add_square distance av bv = let diff = d.sub av bv in d.add distance (d.mul diff diff)

  unfoldable pub euclidean_distance : FloatVector → FloatVector → Outcome D
  unfolding loop
  euclidean_distance a b = do
    distance ← loop add_square a.dimension a.elements b.elements d.nought
    done (d.sqrt distance)

  abbrev pub add_products : Sums D → D → D → Sums D
  add_products s av bv = record {
    dot_product = d.add s.dot_product (d.mul av bv);
    mag_a = d.add s.mag_a (d.mul av av);
    mag_b = d.add s.mag_b (d.mul bv bv);
  }

  abbrev pub zero_sums : Sums D
  zero_sums = record { dot_product = d.nought; mag_a = d.nought; mag_b = d.nought }

  abbrev pub finish_cosine : Sums D → D
  finish_cosine s =
      let mag_a = d.sqrt s.mag_a in
      let mag_b = d.sqrt s.mag_b in
      if d.eq mag_a d.nought || d.eq mag_b d.nought
      then d.one
      else d.sub d.one (d.div s.dot_product (d.mul mag_a mag_b))

  unfoldable pub cosine_distance : FloatVector → FloatVector → Outcome D
  unfolding loop
  cosine_distance a b = do
    sums ← loop add_products a.dimension a.elements b.elements zero_sums
    done (finish_cosine sums)

  abbrev pub add_product : D → D → D → D
  add_product dot_product av bv = d.add dot_product (d.mul av bv)

  unfoldable pub inner_product_distance : FloatVector → FloatVector → Outcome D
  unfolding loop
  inner_product_distance a b = loop add_product a.dimension a.elements b.elements d.nought

  -- `get_distance_instance( type )->compute( a, b )`: there is no instance for `unknown`, and the
  -- call goes through a null pointer.
  unfoldable pub compute : DistType → FloatVector → FloatVector → Outcome D
  unfolding euclidean_distance cosine_distance inner_product_distance
  compute cosine a b = cosine_distance a b
  compute euclidean a b = euclidean_distance a b
  compute inner_product a b = inner_product_distance a b
  compute unknown a b = undefined
