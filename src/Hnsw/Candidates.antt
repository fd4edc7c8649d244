-- ===== src/Hnsw/Candidates.antt =====
-- `cand_set_t`, a std::set of pairs of a distance and an id, and the choice of neighbours from one.
pub mod Order
pub mod Select
use vector_db.Prelude.{ℕ, List, [], ◌∷◌, Bool, true, false, ◌||◌, if◌then◌else◌, length, ltb, leb}
use vector_db.Distance.{Double}
use vector_db.Distance.Order.{pair_lt}

-- In increasing order.
abbrev pub CandSet : Type 0 → Type 0
CandSet D = List (D × ℕ)

-- `result_set` and `discarded_candidates` of `select_neighbors_heuristic`.
pub record Selection (D : Type 0) : Type 0 where
  pub result_set : CandSet D
  pub discarded_candidates : CandSet D

module _ {D : Type 0} ⦃d : Double D⦄ where
  -- `insert` and `emplace`: a pair that the set has is not added again.
  unfoldable pub insert_cand : D × ℕ → CandSet D → CandSet D
  insert_cand x [] = x ∷ []
  insert_cand x (y ∷ ys) =
      let rest = insert_cand x ys in
      if pair_lt x y then x ∷ y ∷ ys else if pair_lt y x then y ∷ rest else y ∷ ys

  abbrev pub closer_than_first : D × ℕ → CandSet D → Bool
  closer_than_first (x, id) [] = true
  closer_than_first (x, id) ((y, j) ∷ ys) = d.lt x y

  unfoldable pub sort_out : D × ℕ → Selection D → Selection D
  unfolding insert_cand
  sort_out c s =
      if closer_than_first c s.result_set
      then record s { result_set = insert_cand c s.result_set }
      else record s { discarded_candidates = insert_cand c s.discarded_candidates }

  -- The loop over the candidates, with its `break`.
  unfoldable pub sort_out_all : ℕ → CandSet D → Selection D → Selection D
  unfolding sort_out
  sort_out_all no_of_cand [] s = s
  sort_out_all no_of_cand (c ∷ cs) s =
      let rest = sort_out_all no_of_cand cs (sort_out c s) in
      if leb no_of_cand (length s.result_set) then s else rest

  unfoldable pub backfill : ℕ → CandSet D → CandSet D → CandSet D
  unfolding insert_cand
  backfill no_of_cand [] result_set = result_set
  backfill no_of_cand (c ∷ cs) result_set =
      let rest = backfill no_of_cand cs (insert_cand c result_set) in
      if leb no_of_cand (length result_set) then result_set else rest

  unfoldable pub select_neighbors_heuristic : CandSet D → ℕ → CandSet D
  unfolding sort_out_all backfill
  select_neighbors_heuristic candidates no_of_cand =
      let s =
        sort_out_all no_of_cand candidates
          (record { result_set = []; discarded_candidates = [] }) in
      if ltb (length s.result_set) no_of_cand
      then backfill no_of_cand s.discarded_candidates s.result_set
      else s.result_set
