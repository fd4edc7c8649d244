-- ===== src/Distance/Whole.antt =====
-- An arithmetic that meets the laws assumed of `double`: whole numbers, with the gap between two for
-- their difference, and a root that stays below 2^32. The tests and the examples run on it.
use vector_db.Prelude.{ℕ, ◌+◌, ◌-◌, ◌*◌, ◌/◌, ◌%◌, ◌^◌, ◌≡◌, ltb, nat_eq, arith, true, false, ◌⊎◌}
use native.Mathlib.Nat.{mul_comm}
use vector_db.Distance.{Double}
use vector_db.Distance.Order.{IsOrdered}
use vector_db.Distance.Laws.{IsSymmetric}

abbrev pub gap : ℕ → ℕ → ℕ
gap x y = (x - y) + (y - x)

instance abbrev pub whole : Double ℕ
whole = record {
  nought = 0;
  one = 1;
  largest = 2 ^ 64;
  widen = λ x. x;
  narrow = λ x. x;
  of_nat = λ n. n;
  add = λ x y. x + y;
  sub = gap;
  mul = λ x y. x * y;
  div = λ x y. x / y;
  sqrt = λ x. x % 2 ^ 32;
  lt = ltb;
  eq = nat_eq;
}

gap_comm : (x y : ℕ) → gap x y ≡ gap y x
gap_comm x y = omega arith

pub whole-IsSymmetric : IsSymmetric whole
whole-IsSymmetric = record { mul_comm = mul_comm; square_comm = λ x y. rw (gap_comm x y) }

pub ltb_asym : (x y : ℕ) → ltb x y ≡ true → ltb y x ≡ false
ltb_asym x y h = ground arith

pub ltb_cotrans : (x y z : ℕ) → ltb x z ≡ true → (ltb x y ≡ true) ⊎ (ltb y z ≡ true)
ltb_cotrans x y z h = ground arith

abbrev pub whole-IsOrdered : IsOrdered whole
whole-IsOrdered = record {
  is_nan = λ x. false;
  lt_asym = ltb_asym;
  lt_cotrans = λ x y z n. ltb_cotrans x y z;
}
