-- ===== src/Distance/Order.antt =====
-- The order of pairs of a distance and an id, by which the searches rank.
use vector_db.Prelude.{ℕ, ◌≡◌, ◌⊎◌, Bool, true, false, not, ◌&&◌, ◌||◌, ltb, arith}
use vector_db.Distance.{Double}
use vector_db.Sort.Order.{IsWeakOrder}

-- `operator<` of `std::pair<double, id_t>`.
abbrev pub pair_lt : {D : Type 0} ⦃d : Double D⦄ → D × ℕ → D × ℕ → Bool
pair_lt ⦃d⦄ (x, i) (y, j) = d.lt x y || (not (d.lt y x) && ltb i j)

-- What IEEE comparison guarantees; a NaN is less than nothing, and nothing is less than it.
pub record IsOrdered {D : Type 0} (d : Double D) : Type 0 where
  pub is_nan : D → Bool
  pub lt_asym : (x y : D) → d.lt x y ≡ true → d.lt y x ≡ false
  pub lt_cotrans :
      (x y z : D) → is_nan y ≡ false → d.lt x z ≡ true → (d.lt x y ≡ true) ⊎ (d.lt y z ≡ true)

module _ {D : Type 0} ⦃d : Double D⦄ (order : IsOrdered d) where
  -- The distance is a number.
  abbrev pub IsNumber : D × ℕ → Type 0
  IsNumber (x, i) = order.is_nan x ≡ false

  pub pair_lt-IsWeakOrder : IsWeakOrder pair_lt IsNumber
  pair_lt-IsWeakOrder = record {
    asym = λ (x, i) (y, j) p q h. ground (arith, order.lt_asym x y);
    cotrans = λ (x, i) (y, j) (z, k) p q r h.
        ground
          (arith, order.lt_cotrans x y z q, order.lt_cotrans y z x r, order.lt_cotrans z x y p);
  }
