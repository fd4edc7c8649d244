-- ===== src/Database/Files/RoundTrip.antt =====
-- What `save` writes to an empty directory `load` reads back.
use mathlib.Core.List.{append-nil}
use vector_db.Prelude.{
  ℕ, ◌≡◌, refl, sym, subst, ap, ◌∙◌, List, [], ◌∷◌, ◌++◌, append_assoc, some, done, true, Bool,
  Bytes, bytes_key, All, map, arith, Bool-cases, inl, inr, if◌then◌else◌,
}
use vector_db.Status.{success}
use vector_db.Assoc.{find, assign, keys}
use vector_db.Assoc.Laws.{Fresh, DistinctKeys, DistinctKeys-keys, assign_fresh, fresh_prefix}
use vector_db.Index.Interface.{IndexClass, KeepsParams}
use vector_db.Collection.{Collection}
use vector_db.Collection.Persist.{deserialize}
use vector_db.Collection.Persist.RoundTrip.{deserialize-serialize_collection}
use vector_db.Database.{Database, put}
use vector_db.Database.Files.{Files, file_path, to_path, save_one, save_all, save, load_all, load}
use vector_db.Database.Files.Paths.{valid-IsName}
use vector_db.Database.Files.Steps.{
  IsSavable, summary, IsUnwritten, AreUnwritten, assign-AreUnwritten, save_one_lem, load_one_lem,
  load_all-read,
}

module _ {D : Type 0} (C : IndexClass D) where
  -- The collections whose files open.
  unfoldable pub opened : (Bytes → Bool) → List (Bytes × Collection C) → List (Bytes × Collection C)
  opened can_open [] = []
  opened can_open ((name, c) ∷ cs) =
      let rest = opened can_open cs in if can_open (file_path name) then (name, c) ∷ rest else rest

  opened-Fresh :
      (can_open : Bytes → Bool) (n : Bytes) (cs : List (Bytes × Collection C))
      → Fresh n cs
      → Fresh n (opened can_open cs)
  unfolding opened find
  opened-Fresh can_open n [] d = refl
  opened-Fresh can_open n ((m, c) ∷ cs) d = ground (arith, opened-Fresh can_open n cs)

  opened-DistinctKeys :
      (can_open : Bytes → Bool) (cs : List (Bytes × Collection C))
      → DistinctKeys cs
      → DistinctKeys (opened can_open cs)
  unfolding opened
  opened-DistinctKeys can_open [] d = tt
  opened-DistinctKeys can_open ((m, c) ∷ cs) (f, d) = elim (Bool-cases (can_open (file_path m))) [
    | inl opens ↦ rw opens (opened-Fresh can_open m cs f, opened-DistinctKeys can_open cs d)
    | inr stays ↦ rw stays (opened-DistinctKeys can_open cs d)
  ]

  -- What `save` and `load` do with the rest of the collections, from any files and any database.
  abbrev ReadsBack :
      (Bytes → Bool) → (Bytes → ℕ → ℕ → ℕ) → List (Bytes × Collection C) → Files → Type 0
  ReadsBack can_open draws cs files =
      (written : Files) × (read : List (Bytes × Collection C)) × (save_all C can_open cs files
        ≡ done (files ++ written))
      × (map (summary C) read ≡ map (summary C) (opened can_open cs))
      × ((db : Database C)
          → DistinctKeys (db.collections ++ read)
          → load C (λ path. true) draws written db
            ≡ done (record { collections = db.collections ++ read }, success))

  -- The collection at the head is written, and read back.
  written-ReadsBack :
      KeepsParams C
      → (can_open : Bytes → Bool) (draws : Bytes → ℕ → ℕ → ℕ) (name : Bytes) (c : Collection C)
        (cs : List (Bytes × Collection C)) (files : Files)
      → IsSavable C (name, c)
      → IsUnwritten files name
      → can_open (file_path name) ≡ true
      → ((bytes : Bytes) → ReadsBack can_open draws cs (assign (to_path name) bytes files))
      → ReadsBack can_open draws ((name, c) ∷ cs) files
  unfolding save_all load_all opened
  written-ReadsBack laws can_open draws name c cs files (same, valid, fits, built) u opens next =
      let (bytes, indices, put, kept, get) =
        deserialize-serialize_collection C laws (draws (to_path name)) c fits built in
      let (written, read, saves, kinds, loads) = next bytes in
      let now = assign_fresh (to_path name) bytes files u.0 in
      let alone =
        subst
          (λ bs.
            deserialize C (draws (to_path name)) bs ≡ done (record c { indices = indices }, []))
          (append-nil bytes) (get []) in
      let file : Bytes × Bytes = (to_path name, bytes) in
      let entry : Bytes × Collection C = (name, record c { indices = indices }) in
      (
        file ∷ written,
        entry ∷ read,
        rw
            (
              save_one_lem C can_open name bytes c files opens u put,
              saves,
              now,
              append_assoc files (file ∷ []) written,
            )
            refl,
        rw (opens, kept, kinds) refl,
        λ db e.
            let one =
              load_one_lem C (draws (to_path name)) name bytes (record c { indices = indices }) db
                (valid-IsName name valid) (sym same) alone
                (fresh_prefix name (record c { indices = indices }) db.collections read e) in
            let order = append_assoc db.collections (entry ∷ []) read in
            let rest =
              loads (record { collections = db.collections ++ entry ∷ [] })
                (subst DistinctKeys (sym order) e) in
            load_all-read C draws (to_path name) bytes written db
              (record { collections = db.collections ++ entry ∷ [] }) one
            ∙ rest
            ∙ ap (λ l. done (record { collections = l }, success)) order,
      )

  collections-ReadsBack :
      KeepsParams C
      → (can_open : Bytes → Bool) (draws : Bytes → ℕ → ℕ → ℕ) (cs : List (Bytes × Collection C))
        (files : Files)
      → All (IsSavable C) cs
      → DistinctKeys cs
      → AreUnwritten C files cs
      → ReadsBack can_open draws cs files
  unfolding save_all save_one load_all opened
  collections-ReadsBack laws can_open draws [] files s d u = (
    [],
    [],
    ap done (sym (append-nil files)),
    refl,
    λ db e.
        ap (λ l. done (record db { collections = l }, success)) (sym (append-nil db.collections)),
  )
  collections-ReadsBack laws can_open draws ((name, c) ∷ cs) files (s, ss) (f, d) (u, us) =
      let v = valid-IsName name s.1 in
      elim (Bool-cases (can_open (file_path name))) [
        | inl opens ↦ written-ReadsBack laws can_open draws name c cs files s u opens λ bytes.
            collections-ReadsBack laws can_open draws cs (assign (to_path name) bytes files) ss d
              (assign-AreUnwritten C name bytes files cs v ss f us)
        | inr stays ↦
            let (written, read, saves, kinds, loads) =
              collections-ReadsBack laws can_open draws cs files ss d us in
            (written, read, rw stays saves, rw stays kinds, loads)
      ]

  summary-keys :
      (cs ds : List (Bytes × Collection C))
      → map (summary C) cs ≡ map (summary C) ds
      → keys cs ≡ keys ds
  summary-keys [] [] h = refl
  summary-keys [] (d ∷ ds) h = cc
  summary-keys (c ∷ cs) [] h = cc
  summary-keys ((m, c) ∷ cs) ((n, d) ∷ ds) h =
      let first : m ≡ n = cc in let rest = summary-keys cs ds cc in rw (first, rest) refl

  no_files : (cs : List (Bytes × Collection C)) → AreUnwritten C [] cs
  unfolding find
  no_files [] = tt
  no_files ((name, c) ∷ cs) = ((refl, refl), no_files cs)

  -- `save` of savable collections under distinct names to an empty directory succeeds, whichever
  -- files open, and from the files that it leaves, which all open then, `load`, into an empty database,
  -- succeeds and reads the collections whose files opened, in the same order, with their names, dimensions and vectors, and with
  -- indices of the same names and parameters.
  pub load-save :
      KeepsParams C
      → (can_open : Bytes → Bool) (draws : Bytes → ℕ → ℕ → ℕ) (db : Database C)
      → DistinctKeys db.collections
      → All (IsSavable C) db.collections
      → (files : Files) × (db' : Database C) × (save C can_open db [] ≡ done (some files, success))
        × (load C (λ path. true) draws files (record { collections = [] }) ≡ done (db', success))
        × (map (summary C) db'.collections ≡ map (summary C) (opened can_open db.collections))
  unfolding save
  load-save laws can_open draws db d s =
      let (files, read, saves, kinds, loads) =
        collections-ReadsBack laws can_open draws db.collections [] s d (no_files db.collections) in
      let kept = opened can_open db.collections in
      let distinct =
        DistinctKeys-keys kept read (sym (summary-keys read kept kinds))
          (opened-DistinctKeys can_open db.collections d) in
      (
        files,
        record { collections = read },
        rw saves refl,
        loads (record { collections = [] }) distinct,
        kinds,
      )
