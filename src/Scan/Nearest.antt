-- ===== src/Scan/Nearest.antt =====
-- The exhaustive search finds the nearest vectors.
use mathlib.Core.List.{Perm}
use mathlib.Core.List.Perm
use vector_db.Prelude.{
  ℕ, ◌≤◌, ◌≡◌, refl, sym, ap, ◌∙◌, List, [], ◌∷◌, map, some, done, ◌>>=◌, true, false,
  if◌then◌else◌, length, take, ltb, All, arith, nat_key, subst, All-map, All-take, take-all,
  take-map, All-of_map, length-map,
}
use vector_db.Assoc.{keys}
use vector_db.Assoc.Laws.{DistinctKeys}
use vector_db.FloatVector.{FloatVector}
use vector_db.FloatVector.Values.{IsSized}
use vector_db.Vectors.Found.{IsFound, found_lem, All-IsFound}
use vector_db.Vectors.{Vectors}
use vector_db.Index.Interface.{Score, answered}
use vector_db.Distance.{Double, euclidean, compute, euclidean_distance}
use vector_db.Distance.Laws.{compute_defined}
use vector_db.Distance.Order.{pair_lt, IsOrdered, IsNumber, pair_lt-IsWeakOrder}
use vector_db.Sort.{sort}
use vector_db.Sort.Order.{
  IsSorted, IsWeakOrder, by, map-sort, sort-perm, sort-IsSorted, All-sort, length-sort,
}
use vector_db.Scan.{distances, fill, search_for_top_k}

-- A vector that the query can be compared with: its array is sized, and not shorter than the query.
abbrev pub IsComparable : FloatVector → ℕ × FloatVector → Type 0
IsComparable query (id, v) = IsSized v × (query.dimension ≤ length v.elements)

module _ {D : Type 0} ⦃d : Double D⦄ where
  abbrev pub entry : Score D → ℕ × FloatVector
  entry (dist, id, v) = (id, v)

  abbrev pub rank : Score D → D × ℕ
  rank (dist, id, v) = (dist, id)

  -- The score carries the distance between the query and its vector.
  abbrev pub IsScored : FloatVector → Score D → Type 0
  IsScored query (dist, id, v) = euclidean_distance query v ≡ done dist

  euclidean_defined :
      (query v : FloatVector)
      → query.dimension ≤ length query.elements
      → query.dimension ≤ length v.elements
      → (dist : D) × (euclidean_distance query v ≡ done dist)
  unfolding compute
  euclidean_defined query v = (compute_defined euclidean query v (λ e. cc)).0

  distances_lem :
      (query : FloatVector) (es vectors : Vectors)
      → query.dimension ≤ length query.elements
      → All (IsComparable query) es
      → All (IsFound vectors) es
      → (scored : List (Score D)) × (map entry scored ≡ es)
        × All (IsScored query) scored
        × (distances query (keys es) vectors ≡ done (some (map rank scored)))
  unfolding distances
  distances_lem query [] vectors h cs fs = ([], refl, tt, refl)
  distances_lem query ((id, v) ∷ es) vectors h (c, cs) (f, fs) =
      let (dist, e) = euclidean_defined query v h c.1 in
      let (scored, same, sc, rest) = distances_lem query es vectors h cs fs in
      (
        (dist, id, v) ∷ scored,
        ap (◌∷◌ (id, v)) same,
        (e, sc),
        rw (found_lem vectors id v f, e, rest, ◌>>=◌) refl,
      )

  fill_lem :
      (scored : List (Score D)) (vectors : Vectors)
      → All (λ s. IsFound vectors (entry s)) scored
      → fill (map rank scored) vectors ≡ done scored
  unfolding fill
  fill_lem [] vectors fs = refl
  fill_lem ((dist, id, v) ∷ rest) vectors (f, fs) =
      rw (found_lem vectors id v f, fill_lem rest vectors fs, ◌>>=◌) refl

  take-clamp :
      (k n : ℕ) (xs : List (Score D))
      → length xs ≡ n
      → take (if ltb n k then n else k) xs ≡ take k xs
  take-clamp k n xs e = ground (arith, take-all n xs, take-all k xs)

  -- The weak order of the scores, and that what is scored is a number.
  pub scores-IsWeakOrder :
      (order : IsOrdered d) → IsWeakOrder (by rank pair_lt) (λ s. IsNumber order (rank s))
  scores-IsWeakOrder order =
      let w = pair_lt-IsWeakOrder order in
      record {
        asym = λ x y. w.asym (rank x) (rank y);
        cotrans = λ x y z. w.cotrans (rank x) (rank y) (rank z);
      }

  abbrev pub HasNumber : IsOrdered d → FloatVector → ℕ × FloatVector → Type 0
  HasNumber order query (id, v) =
      (x : D) → euclidean_distance query v ≡ done x → order.is_nan x ≡ false

  scored-IsNumber :
      (order : IsOrdered d) (query : FloatVector) (scored : List (Score D))
      → All (IsScored query) scored
      → All (λ s. HasNumber order query (entry s)) scored
      → All (λ s. IsNumber order (rank s)) scored
  scored-IsNumber order query [] sc ns = tt
  scored-IsNumber order query ((dist, id, v) ∷ rest) (c, cs) (n, ns) =
      (n dist c, scored-IsNumber order query rest cs ns)

  fill-ranked :
      (k : ℕ) (scored : List (Score D)) (vectors : Vectors)
      → All (λ s. IsFound vectors (entry s)) scored
      → length scored ≡ length (keys vectors)
      → let n = length (keys vectors) in
        fill (take (if ltb n k then n else k) (sort pair_lt (map rank scored))) vectors
        ≡ done (take k (sort (by rank pair_lt) scored))
  fill-ranked k scored vectors fs e =
      let n = length (keys vectors) in
      let count : ℕ = if ltb n k then n else k in
      let ranked = sort (by rank pair_lt) scored in
      ap (λ l. fill (take count l) vectors) (sym (map-sort rank pair_lt scored))
      ∙ ap (λ l. fill l vectors) (take-map rank count ranked)
      ∙ fill_lem (take count ranked) vectors
          (All-take _ count ranked (All-sort (by rank pair_lt) _ scored fs))
      ∙ ap done (take-clamp k n ranked (length-sort (by rank pair_lt) scored ∙ e))

  -- The exhaustive search over a map with distinct keys, when it can compare every vector with the
  -- query and no distance is NaN, returns true and the first `k` of all the entries, listed by
  -- distance and id; each with its distance.
  pub search-nearest :
      (order : IsOrdered d) (query : FloatVector) (k : ℕ) (vectors : Vectors)
      → DistinctKeys vectors
      → query.dimension ≤ length query.elements
      → All (IsComparable query) vectors
      → All (HasNumber order query) vectors
      → (ranked : List (Score D)) × Perm (map entry ranked) vectors
        × All (IsScored query) ranked
        × IsSorted (by rank pair_lt) ranked
        × (search_for_top_k query k vectors ≡ done (answered true (take k ranked)))
  unfolding search_for_top_k
  search-nearest order query k vectors distinct h cs numbers =
      let (scored, same, sc, listed) =
        distances_lem query vectors vectors h cs
          (All-IsFound vectors distinct (All-map (λ p c. c.0) vectors cs)) in
      (
        sort (by rank pair_lt) scored,
        subst (λ es. Perm (map entry (sort (by rank pair_lt) scored)) es) same
            (Perm.map entry (sort-perm (by rank pair_lt) scored)),
        All-sort (by rank pair_lt) (IsScored query) scored sc,
        sort-IsSorted (by rank pair_lt) (λ s. IsNumber order (rank s)) (scores-IsWeakOrder order)
            scored
            (scored-IsNumber order query scored sc (
              All-of_map (HasNumber order query) entry scored
                (subst (All (HasNumber order query)) (sym same) numbers))),
        rw
            (
              listed,
              fill-ranked k scored vectors
                  (All-of_map (IsFound vectors) entry scored (
                    subst (All (IsFound vectors)) (sym same)
                      (All-IsFound vectors distinct (All-map (λ p c. c.0) vectors cs))))
                  (sym (length-map entry scored)
                    ∙ ap length same
                    ∙ sym (length-map (λ p. p.0) vectors)),
              ◌>>=◌,
            )
            refl,
      )
