-- ===== src/Hnsw/LayerSearch/Kept.antt =====
-- What the inner loops of `search_layer` keep of its variables, and the measure of its outer loop.
use vector_db.Prelude.{
  ℕ, suc, ◌+◌, ◌≤◌, ◌<◌, ◌≡◌, refl, ap, ◌∙◌, List, [], ◌∷◌, true, false, ◌||◌, length, ltb, All,
  All-map, arith, inl, inr, Bool-cases, done, ◌>>=◌, nat_eq_iff, nat_key,
}
use vector_db.FloatVector.{FloatVector}
use vector_db.Vectors.{Vectors}
use vector_db.Distance.{Double, DistType}
use vector_db.Distance.Order.{IsOrdered, IsNumber}
use vector_db.Assoc.{find}
use vector_db.Ids.{mem_id, put_id}
use vector_db.Ids.Laws.{unseen, unseen-put_id, mem_id-append}
use vector_db.Hnsw.Candidates.{CandSet, insert_cand}
use vector_db.Hnsw.Candidates.Select.{IsIncreasing}
use vector_db.Hnsw.Candidates.Order.{
  last-some, length-erase_last, All-erase_last, IsIncreasing-erase_last, All-insert_cand,
  length-insert_cand, IsIncreasing-insert_cand,
}
use vector_db.Hnsw.Graph.{Layer, links}
use vector_db.Hnsw.LayerSearch.{Frontier, last, distance_to, enter, consider, expand, all_links}

-- Every link of a node is among the links of the layer.
pub links-all_links :
    (id : ℕ) (layer : Layer) (x : ℕ)
    → mem_id x (links id layer) ≡ true
    → mem_id x (all_links layer) ≡ true
unfolding links find
links-all_links id [] x h = cc
links-all_links id ((j, ids) ∷ layer) x h =
    ground (arith, mem_id-append x ids (all_links layer), links-all_links id layer x)

pub All-mem_id : (ids : List ℕ) → All (λ x. mem_id x ids ≡ true) ids
All-mem_id [] = tt
All-mem_id (id ∷ ids) =
    (ground (arith, nat_eq_iff id id), All-map (λ x h. ground arith) ids (All-mem_id ids))

module _ {D : Type 0} ⦃d : Double D⦄ (order : IsOrdered d) (t : DistType) (query : FloatVector)
    (vectors : Vectors) where
  -- Every id has a distance to the query, which is not NaN.
  abbrev pub Measurable : Type 0
  Measurable =
      (id : ℕ) → (x : D) × (distance_to t query id vectors ≡ done x) × IsNumber order (x, id)

  -- The distance is that of the id, and the id is one that the search may reach.
  abbrev pub Fine : (ℕ → Type 0) → D × ℕ → Type 0
  Fine P (x, id) = (distance_to t query id vectors ≡ done x) × IsNumber order (x, id) × P id

  pub record Kept (P : ℕ → Type 0) (bound : ℕ) (f : Frontier D) : Type 0 where
    pub results : All (Fine P) f.result
    pub pending : All (Fine P) f.candidates
    pub increasing : IsIncreasing f.result
    pub bounded : length f.result ≤ bound

  pub Fine-IsNumber : (P : ℕ → Type 0) (cs : CandSet D) → All (Fine P) cs → All (IsNumber order) cs
  Fine-IsNumber P [] h = tt
  Fine-IsNumber P (c ∷ cs) (h, hs) = (h.1, Fine-IsNumber P cs hs)

  pub Kept-within : (P : ℕ → Type 0) (b b' : ℕ) (f : Frontier D) → b ≤ b' → Kept P b f → Kept P b' f
  Kept-within P b b' f le k = record {
    results = k.results;
    pending = k.pending;
    increasing = k.increasing;
    bounded = omega (arith, k.bounded);
  }

  -- The entry points each give a candidate.
  pub enter-Kept :
      (P : ℕ → Type 0)
      → Measurable
      → (eps : List ℕ) (f : Frontier D) (bound : ℕ) → All P eps
      → Kept P bound f
      → (g : Frontier D) × (enter t query vectors eps f ≡ done g)
        × Kept P (bound + length eps) g
        × (length g.candidates ≤ length f.candidates + length eps)
        × (0 < length f.result + length eps → 0 < length g.result)
  unfolding enter
  enter-Kept P m [] f bound ps k = (
    f,
    refl,
    record {
      results = k.results;
      pending = k.pending;
      increasing = k.increasing;
      bounded = omega (arith, k.bounded);
    },
    omega arith,
    λ h. omega (arith, h),
  )
  enter-Kept P m (ep ∷ eps) f bound (p, ps) k =
      let (x, e, n) = m ep in
      let next : Frontier D = record {
        result = insert_cand (x, ep) f.result;
        candidates = insert_cand (x, ep) f.candidates;
        visited = put_id ep f.visited;
      } in
      let grown = length-insert_cand (x, ep) f.result in
      let kept : Kept P (suc bound) next = record {
        results = All-insert_cand (Fine P) (x, ep) f.result (e, n, p) k.results;
        pending = All-insert_cand (Fine P) (x, ep) f.candidates (e, n, p) k.pending;
        increasing =
            IsIncreasing-insert_cand order (x, ep) f.result n (Fine-IsNumber P f.result k.results)
              k.increasing;
        bounded = omega (arith, k.bounded, grown);
      } in
      let (g, e', kept', few, more) = enter-Kept P m eps next (suc bound) ps kept in
      (
        g,
        rw (e, ◌>>=◌) e',
        record {
          results = kept'.results;
          pending = kept'.pending;
          increasing = kept'.increasing;
          bounded = omega (arith, kept'.bounded);
        },
        omega (arith, few, length-insert_cand (x, ep) f.candidates),
        λ h. more (omega (arith, grown)),
      )

  -- The candidates that wait, and the ids that can still become one.
  abbrev pub work : List ℕ → Frontier D → ℕ
  work ends f = length f.candidates + unseen ends f.visited

  consider-Kept :
      (P : ℕ → Type 0) (bound ef : ℕ) (x farthest : D) (id : ℕ) (f : Frontier D)
      → 0 < ef
      → ef ≤ bound
      → Fine P (x, id)
      → Kept P bound f
      → 0 < length f.result
      → Kept P bound (consider ef (x, id) farthest f)
        × (0 < length (consider ef (x, id) farthest f).result)
        × (length (consider ef (x, id) farthest f).candidates ≤ suc (length f.candidates))
        × ((consider ef (x, id) farthest f).visited ≡ f.visited)
  unfolding consider
  consider-Kept P bound ef x farthest id f some_ef le fine k some =
      let grown = insert_cand (x, id) f.result in
      let size = length-insert_cand (x, id) f.result in
      let all = All-insert_cand (Fine P) (x, id) f.result fine k.results in
      let pending = All-insert_cand (Fine P) (x, id) f.candidates fine k.pending in
      let sorted =
        IsIncreasing-insert_cand order (x, id) f.result fine.1 (Fine-IsNumber P f.result k.results)
          k.increasing in
      let few = (length-insert_cand (x, id) f.candidates).1 in
      elim (Bool-cases (d.lt x farthest || ltb (length f.result) ef)) [
        | inl near ↦ elim (Bool-cases (ltb ef (length grown))) [
          | inl full ↦
              let cut = length-erase_last grown in
              rw (near, full)
                (
                  record {
                    results = All-erase_last (Fine P) grown all;
                    pending = pending;
                    increasing = IsIncreasing-erase_last grown sorted;
                    bounded = omega (arith, k.bounded, size, cut);
                  },
                  ground (arith, cut),
                  few,
                  refl,
                )
          | inr fits ↦
              rw (near, fits)
                (
                  record {
                    results = all;
                    pending = pending;
                    increasing = sorted;
                    bounded = ground arith;
                  },
                  size.2,
                  few,
                  refl,
                )
        ]
        | inr far ↦ rw far (k, some, omega arith, refl)
      ]

  expand-step :
      (ef : ℕ) (x farthest : D) (far_id id : ℕ) (ids : List ℕ) (f : Frontier D)
      → mem_id id f.visited ≡ false
      → last f.result ≡ done (farthest, far_id)
      → distance_to t query id vectors ≡ done x
      → expand t query ef vectors (id ∷ ids) f
        ≡ expand t query ef vectors ids
            (consider ef (x, id) farthest (record f { visited = put_id id f.visited }))
  unfolding expand
  expand-step ef x farthest far_id id ids f new at_end e = rw (new, at_end, ◌>>=◌, e, ◌>>=◌) refl

  pub expand-Kept :
      (P : ℕ → Type 0)
      → Measurable
      → (ends : List ℕ) (bound ef : ℕ) → 0 < ef
      → ef ≤ bound
      → (ids : List ℕ) (f : Frontier D) → All P ids
      → All (λ x. mem_id x ends ≡ true) ids
      → Kept P bound f
      → 0 < length f.result
      → (g : Frontier D) × (expand t query ef vectors ids f ≡ done g)
        × Kept P bound g
        × (0 < length g.result)
        × (work ends g ≤ work ends f)
  unfolding expand
  expand-Kept P m ends bound ef some_ef le [] f ps es k some = (f, refl, k, some, omega arith)
  expand-Kept P m ends bound ef some_ef le (id ∷ ids) f (p, ps) (end, es) k some =
      elim (Bool-cases (mem_id id f.visited)) [
        | inl seen ↦ rw seen (expand-Kept P m ends bound ef some_ef le ids f ps es k some)
        | inr new ↦
            let ((farthest, far_id), at_end) = last-some f.result some in
            let (x, e, n) = m id in
            let seen_now = record f { visited = put_id id f.visited } in
            let kept : Kept P bound seen_now = record {
              results = k.results;
              pending = k.pending;
              increasing = k.increasing;
              bounded = k.bounded;
            } in
            let (kept', some', few, same) =
              consider-Kept P bound ef x farthest id seen_now some_ef le (e, n, p) kept some in
            let (g, e', kept'', some'', less) =
              expand-Kept P m ends bound ef some_ef le ids (consider ef (x, id) farthest seen_now)
                ps es kept' some' in
            (
              g,
              expand-step ef x farthest far_id id ids f new at_end e ∙ e',
              kept'',
              some'',
              omega (
                arith,
                less,
                few,
                ap (unseen ends) same,
                unseen-put_id id ends f.visited new end,
              ),
            )
      ]
