-- ===== src/Assoc/Laws.antt =====
-- The laws of the map's operations, and that its keys stay distinct.
use vector_db.Prelude.{
  length, suc, ◌++◌, append_assoc, sym, subst, ◌∙◌, List, [], ◌∷◌, none, some, if◌then◌else◌, Key,
  ◌==◌, ◌≡◌, refl, arith,
}
use mathlib.Core.List.{append-nil}
use vector_db.Assoc.{find, emplace, assign, erase, emplace_all, assign_all, keys}

module _ {ℓ κ} {K : Type ℓ} {V : Type κ} ⦃key : Key K⦄ where
  -- The key is not in the list.
  abbrev pub Fresh : K → List (K × V) → Type κ
  Fresh k m = find k m ≡ none

  pub find-emplace :
      (j k : K) (v : V) (m : List (K × V))
      → find j (emplace k v m)
        ≡ elim (find j m) [ some w ↦ some w | none ↦ if k == j then some v else none ]
  unfolding find emplace
  find-emplace j k v [] = refl
  find-emplace j k v ((i, w) ∷ m) =
      ground (arith, key.same_iff i k, key.same_iff i j, key.same_iff k j, find-emplace j k v m)

  pub find-assign :
      (j k : K) (v : V) (m : List (K × V))
      → find j (assign k v m) ≡ (if k == j then some v else find j m)
  unfolding find assign
  find-assign j k v [] = refl
  find-assign j k v ((i, w) ∷ m) =
      ground (arith, key.same_iff i k, key.same_iff i j, key.same_iff k j, find-assign j k v m)

  pub assign-Fresh :
      (j k : K) (v : V) (m : List (K × V)) → ¬ (k ≡ j) → Fresh j m → Fresh j (assign k v m)
  assign-Fresh j k v m apart f = ground (arith, key.same_iff k j, find-assign j k v m)

  pub find-erase :
      (j k : K) (m : List (K × V)) → find j (erase k m) ≡ (if k == j then none else find j m)
  unfolding find erase
  find-erase j k [] = ground arith
  find-erase j k ((i, w) ∷ m) =
      ground (arith, key.same_iff i k, key.same_iff i j, key.same_iff k j, find-erase j k m)

  abbrev pub DistinctKeys : List (K × V) → Type κ
  DistinctKeys [] = Unit
  DistinctKeys ((k, v) ∷ m) = Fresh k m × DistinctKeys m

  pub emplace-DistinctKeys :
      (k : K) (v : V) (m : List (K × V)) → DistinctKeys m → DistinctKeys (emplace k v m)
  unfolding find emplace
  emplace-DistinctKeys k v [] d = (refl, tt)
  emplace-DistinctKeys k v ((j, w) ∷ m) d =
      ground (
        arith,
        key.same_iff j k,
        key.same_iff k j,
        find-emplace j k v m,
        emplace-DistinctKeys k v m,
      )

  pub assign-DistinctKeys :
      (k : K) (v : V) (m : List (K × V)) → DistinctKeys m → DistinctKeys (assign k v m)
  unfolding find assign
  assign-DistinctKeys k v [] d = (refl, tt)
  assign-DistinctKeys k v ((j, w) ∷ m) d =
      ground
        (arith, key.same_iff j k, key.same_iff k j, find-assign j k v m, assign-DistinctKeys k v m)

  pub erase-DistinctKeys : (k : K) (m : List (K × V)) → DistinctKeys m → DistinctKeys (erase k m)
  unfolding erase
  erase-DistinctKeys k [] d = tt
  erase-DistinctKeys k ((j, w) ∷ m) d = ground (arith, find-erase j k m, erase-DistinctKeys k m)

  pub length-assign :
      (k : K) (v w : V) (m : List (K × V)) → find k m ≡ some w → length (assign k v m) ≡ length m
  unfolding find assign
  length-assign k v w [] h = cc
  length-assign k v w ((j, u) ∷ m) h = ground (arith, length-assign k v w m)

  pub length-emplace :
      (k : K) (v : V) (m : List (K × V)) → find k m ≡ none → length (emplace k v m) ≡ suc (length m)
  unfolding find emplace
  length-emplace k v [] h = refl
  length-emplace k v ((j, u) ∷ m) h = ground (arith, length-emplace k v m)

  pub erase_fresh : (k : K) (m : List (K × V)) → find k m ≡ none → erase k m ≡ m
  unfolding find erase
  erase_fresh k [] h = refl
  erase_fresh k ((j, u) ∷ m) h = ground (arith, erase_fresh k m)

  pub length-erase :
      (k : K) (v : V) (m : List (K × V))
      → DistinctKeys m
      → find k m ≡ some v
      → suc (length (erase k m)) ≡ length m
  unfolding find erase
  length-erase k v [] d h = cc
  length-erase k v ((j, u) ∷ m) (f, d) h =
      ground (arith, key.same_iff j k, erase_fresh k m, length-erase k v m d)

  emplace_fresh :
      (k : K) (v : V) (m : List (K × V)) → find k m ≡ none → emplace k v m ≡ m ++ ((k, v) ∷ [])
  unfolding find emplace
  emplace_fresh k v [] h = refl
  emplace_fresh k v ((j, w) ∷ m) h = ground (arith, emplace_fresh k v m)

  pub assign_fresh :
      (k : K) (v : V) (m : List (K × V)) → find k m ≡ none → assign k v m ≡ m ++ ((k, v) ∷ [])
  unfolding find assign
  assign_fresh k v [] h = refl
  assign_fresh k v ((j, w) ∷ m) h = ground (arith, assign_fresh k v m)

  pub Fresh-tail : (j k : K) (v : V) (m : List (K × V)) → Fresh j ((k, v) ∷ m) → Fresh j m
  unfolding find
  Fresh-tail j k v m h = ground arith

  pub find-append_cons :
      (j k : K) (v : V) (m es : List (K × V)) → find j (m ++ (k, v) ∷ es) ≡ none → ¬ (j ≡ k)
  unfolding find
  find-append_cons j k v [] es h eq = ground (arith, key.same_iff k j)
  find-append_cons j k v ((i, w) ∷ m) es h eq = ground (arith, find-append_cons j k v m es)

  pub fresh_prefix :
      (k : K) (v : V) (m es : List (K × V)) → DistinctKeys (m ++ (k, v) ∷ es) → find k m ≡ none
  unfolding find
  fresh_prefix k v [] es d = refl
  fresh_prefix k v ((j, w) ∷ m) es (f, d) =
      ground (arith, key.same_iff j k, find-append_cons j k v m es f, fresh_prefix k v m es d)

  -- Entries with new and distinct keys are put behind those of the map.
  pub emplace_all_lem : (es m : List (K × V)) → DistinctKeys (m ++ es) → emplace_all es m ≡ m ++ es
  emplace_all_lem [] m d = sym (append-nil m)
  emplace_all_lem ((k, v) ∷ es) m d =
      let same = append_assoc m ((k, v) ∷ []) es in
      rw (emplace_fresh k v m (fresh_prefix k v m es d))
        (emplace_all_lem es (m ++ ((k, v) ∷ [])) (subst DistinctKeys (sym same) d) ∙ same)

  pub assign_all_lem : (es m : List (K × V)) → DistinctKeys (m ++ es) → assign_all es m ≡ m ++ es
  assign_all_lem [] m d = sym (append-nil m)
  assign_all_lem ((k, v) ∷ es) m d =
      let same = append_assoc m ((k, v) ∷ []) es in
      rw (assign_fresh k v m (fresh_prefix k v m es d))
        (assign_all_lem es (m ++ ((k, v) ∷ [])) (subst DistinctKeys (sym same) d) ∙ same)

module _ {ℓ κ μ} {K : Type ℓ} {V : Type κ} {W : Type μ} ⦃key : Key K⦄ where
  -- Whether keys are distinct depends on the keys alone.
  pub find-none-keys :
      (k : K) (m : List (K × V)) (n : List (K × W))
      → keys m ≡ keys n
      → find k m ≡ none
      → find k n ≡ none
  unfolding find
  find-none-keys k [] [] h f = refl
  find-none-keys k [] (y ∷ n) h f = cc
  find-none-keys k (x ∷ m) [] h f = cc
  find-none-keys k ((i, v) ∷ m) ((j, w) ∷ n) h f = ground (arith, find-none-keys k m n)

  pub DistinctKeys-keys :
      (m : List (K × V)) (n : List (K × W)) → keys m ≡ keys n → DistinctKeys m → DistinctKeys n
  DistinctKeys-keys [] [] h d = tt
  DistinctKeys-keys [] (y ∷ n) h d = cc
  DistinctKeys-keys (x ∷ m) [] h d = cc
  DistinctKeys-keys ((i, v) ∷ m) ((j, w) ∷ n) h (f, d) =
      let same : keys m ≡ keys n = cc in
      let first : i ≡ j = cc in
      (
        find-none-keys j m n same (subst (λ k. find k m ≡ none) first f),
        DistinctKeys-keys m n same d,
      )
