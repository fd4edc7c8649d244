-- ===== src/Hnsw/Candidates/Select.antt =====
-- What `select_neighbors_heuristic` selects.
use mathlib.Core.List.{append-nil}
use vector_db.Prelude.{
  ℕ, zero, suc, ◌-◌, ◌≤◌, ◌<◌, ◌≡◌, refl, sym, ap, ◌∙◌, [], ◌∷◌, ◌++◌, append_assoc, true, false,
  length, length-append, take, ltb, leb, All, All-append, arith, inl, inr, Bool-cases, All-map,
  take-all,
}
use vector_db.Distance.{Double}
use vector_db.Distance.Order.{pair_lt}
use vector_db.Hnsw.Candidates.{
  CandSet, insert_cand, closer_than_first, sort_out, sort_out_all, backfill,
  select_neighbors_heuristic,
}

module _ {D : Type 0} ⦃d : Double D⦄ where
  abbrev pub Below : D × ℕ → D × ℕ → Type 0
  Below x y = (pair_lt x y ≡ true) × (pair_lt y x ≡ false)

  -- The pairs stand in strictly increasing order, each below all that follow.
  abbrev pub IsIncreasing : CandSet D → Type 0
  IsIncreasing [] = Unit
  IsIncreasing (x ∷ xs) = All (Below x) xs × IsIncreasing xs

  -- A pair above all is put last.
  insert_cand-last :
      (x : D × ℕ) (ys : CandSet D) → All (λ y. Below y x) ys → insert_cand x ys ≡ ys ++ (x ∷ [])
  unfolding insert_cand
  insert_cand-last x [] h = refl
  insert_cand-last x (y ∷ ys) ((lt, ge), hs) = rw (ge, lt) (ap (◌∷◌ y) (insert_cand-last x ys hs))

  -- Every pair of the second list is above every pair of the first.
  abbrev Above : CandSet D → CandSet D → Type 0
  Above ys xs = All (λ x. All (λ y. Below y x) ys) xs

  Above-snoc :
      (ys xs : CandSet D) (x : D × ℕ) → Above ys xs → All (Below x) xs → Above (ys ++ (x ∷ [])) xs
  Above-snoc ys [] x h b = tt
  Above-snoc ys (z ∷ xs) x (g, gs) (b, bs) =
      (All-append _ ys (x ∷ []) g (b, tt), Above-snoc ys xs x gs bs)

  not_closer : (x y : D × ℕ) (ys : CandSet D) → Below y x → closer_than_first x (y ∷ ys) ≡ false
  not_closer (x, i) (y, j) ys h = ground arith

  -- Once one is selected, each later candidate is discarded, in order.
  sort_out-rest :
      (n : ℕ) (x : D × ℕ) (cs ds : CandSet D)
      → 1 < n
      → All (Below x) cs
      → IsIncreasing cs
      → Above ds cs
      → sort_out_all n cs (record { result_set = x ∷ []; discarded_candidates = ds })
        ≡ record { result_set = x ∷ []; discarded_candidates = ds ++ cs }
  unfolding sort_out_all sort_out
  sort_out-rest n x [] ds more b i a =
      ap (λ l. record { result_set = x ∷ []; discarded_candidates = l }) (sym (append-nil ds))
  sort_out-rest n x (c ∷ cs) ds more (b, bs) (i, is) (g, gs) =
      let short : leb n 1 ≡ false = ground arith in
      rw (short, not_closer c x [] b, insert_cand-last c ds g)
        (sort_out-rest n x cs (ds ++ (c ∷ [])) more bs is (Above-snoc ds cs c gs i)
          ∙ ap (λ l. record { result_set = x ∷ []; discarded_candidates = l })
              (append_assoc ds (c ∷ []) cs))

  backfill-take :
      (n : ℕ) (cs rs : CandSet D)
      → IsIncreasing cs
      → Above rs cs
      → length rs ≤ n
      → backfill n cs rs ≡ rs ++ take (n - length rs) cs
  unfolding backfill
  backfill-take n [] rs i a h =
      sym (append-nil rs) ∙ ap (◌++◌ rs) (sym (take-all (n - length rs) [] (omega arith)))
  backfill-take n (c ∷ cs) rs (i, is) (g, gs) h = elim (Bool-cases (leb n (length rs))) [
    | inl full ↦
        let no_room : n - length rs ≡ 0 = ground arith in rw (full, no_room) (sym (append-nil rs))
    | inr more ↦
        let room : n - length rs ≡ suc (n - length (rs ++ (c ∷ []))) =
          ground (arith, length-append rs (c ∷ [])) in
        rw (more, insert_cand-last c rs g)
          (backfill-take n cs (rs ++ (c ∷ [])) is (Above-snoc rs cs c gs i)
              (ground (arith, length-append rs (c ∷ [])))
            ∙ append_assoc rs (c ∷ []) (take (n - length (rs ++ (c ∷ []))) cs)
            ∙ ap (λ m. rs ++ take m (c ∷ cs)) (sym room))
  ]

  -- From candidates in strictly increasing order, the first `n`: the heuristic is never closer.
  pub select_neighbors_heuristic_lem :
      (n : ℕ) (cs : CandSet D) → IsIncreasing cs → select_neighbors_heuristic cs n ≡ take n cs
  unfolding select_neighbors_heuristic sort_out_all sort_out
  select_neighbors_heuristic_lem zero [] i = refl
  select_neighbors_heuristic_lem zero (c ∷ cs) i = refl
  select_neighbors_heuristic_lem (suc n) [] i = ground arith
  select_neighbors_heuristic_lem (suc zero) (c ∷ []) i = refl
  select_neighbors_heuristic_lem (suc zero) (c ∷ (c' ∷ cs)) i = refl
  select_neighbors_heuristic_lem (suc (suc n)) (c ∷ cs) (b, i) =
      let above : Above (c ∷ []) cs = All-map (λ x h. (h, tt)) cs b in
      let less : ltb 1 (suc (suc n)) ≡ true = ground arith in
      let left : suc (suc n) - 1 ≡ suc n = omega arith in
      let open_yet : leb (suc (suc n)) 0 ≡ false = ground arith in
      rw
        (
          sort_out-rest (suc (suc n)) c cs [] (omega arith) b i (All-map (λ x h. tt) cs b),
          open_yet,
          less,
        )
        (backfill-take (suc (suc n)) cs (c ∷ []) i above (omega arith)
          ∙ ap (λ m. c ∷ take m cs) left)
