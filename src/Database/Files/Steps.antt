-- ===== src/Database/Files/Steps.antt =====
-- `save` of one collection, and `load` of one file. The entries that they are for, and the files that a name needs.
use vector_db.Prelude.{
  ℕ, ◌≡◌, refl, sym, ap, ◌∙◌, List, [], ◌∷◌, ◌++◌, done, true, Bool, Bytes, bytes_key, All, length,
  arith,
}
use vector_db.Status.{succeeded}
use vector_db.Name.{is_collection_name_valid}
use vector_db.Assoc.{assign}
use vector_db.Assoc.Laws.{
  Fresh, assign_fresh, assign-Fresh, erase_fresh, find-append_cons, Fresh-tail,
}
use vector_db.Vectors.{Vectors}
use vector_db.Index.{Params}
use vector_db.Index.Interface.{IndexClass}
use vector_db.Collection.{Collection}
use vector_db.Collection.Persist.{serialize, deserialize}
use vector_db.Collection.Persist.RoundTrip.{IsRebuildable, CollectionStorable, described}
use vector_db.Database.{Database, put}
use vector_db.Database.Files.{
  Files, file_path, to_path, extension, save_one, load_one, load_all, load,
}
use vector_db.Database.Files.Paths.{
  IsName, valid-IsName, extension-to_path, extension-file_path, to_path-injective,
}

-- Neither of the files of the name is there.
abbrev pub IsUnwritten : Files → Bytes → Type 0
IsUnwritten files name = Fresh (to_path name) files × Fresh (file_path name) files

tmp_apart : (m n : Bytes) → IsName m → IsName n → ¬ (to_path n ≡ file_path m)
tmp_apart m n v w e =
    let same = sym (extension-to_path n w) ∙ ap extension e ∙ extension-file_path m v in
    ground (arith, ap length same)

-- Another name's file is not one of them.
assign-IsUnwritten :
    (m n bytes : Bytes) (files : Files)
    → IsName m
    → IsName n
    → ¬ (m ≡ n)
    → IsUnwritten files m
    → IsUnwritten (assign (to_path n) bytes files) m
assign-IsUnwritten m n bytes files v w apart (f, g) = (
  assign-Fresh (to_path m) (to_path n) bytes files (λ e. apart (sym (to_path-injective n m w v e)))
      f,
  assign-Fresh (file_path m) (to_path n) bytes files (tmp_apart m n v w) g,
)

module _ {D : Type 0} (C : IndexClass D) where
  -- An entry that `create_collection` made, with what fits the format and indices that can be built again from its vectors.
  abbrev pub IsSavable : Bytes × Collection C → Type 0
  IsSavable (name, c) =
      (name ≡ c.name)
      × (succeeded (is_collection_name_valid name) ≡ true)
      × CollectionStorable C c
      × All (IsRebuildable C c.vectors) c.indices

  -- All of a collection but its indices' contents.
  abbrev pub summary : Bytes × Collection C → Bytes × Bytes × ℕ × Vectors × List (Bytes × Params)
  summary (name, c) = (name, c.name, c.dimension, c.vectors, described C c.indices)

  -- The files that a list of collections would be saved to.
  abbrev pub AreUnwritten : Files → List (Bytes × Collection C) → Type 0
  AreUnwritten files [] = Unit
  AreUnwritten files ((name, c) ∷ cs) = IsUnwritten files name × AreUnwritten files cs

  pub assign-AreUnwritten :
      (n bytes : Bytes) (files : Files) (cs : List (Bytes × Collection C))
      → IsName n
      → All IsSavable cs
      → Fresh n cs
      → AreUnwritten files cs
      → AreUnwritten (assign (to_path n) bytes files) cs
  assign-AreUnwritten n bytes files [] w s d u = tt
  assign-AreUnwritten n bytes files ((m, c) ∷ cs) w ((same, v, s, b), ss) d (u, us) = (
    assign-IsUnwritten m n bytes files (valid-IsName m v) w
        (λ e. find-append_cons n m c [] cs d (sym e)) u,
    assign-AreUnwritten n bytes files cs w ss (Fresh-tail n m c cs d) us,
  )

  pub save_one_lem :
      (can_open : Bytes → Bool) (name bytes : Bytes) (c : Collection C) (files : Files)
      → can_open (file_path name) ≡ true
      → IsUnwritten files name
      → serialize C c ≡ done bytes
      → save_one C can_open name c files ≡ done (assign (to_path name) bytes files)
  unfolding save_one
  save_one_lem can_open name bytes c files opens (f, g) h =
      rw (opens, h, erase_fresh (file_path name) files g) refl

  pub load_one_lem :
      (draws : ℕ → ℕ → ℕ) (name bytes : Bytes) (c : Collection C) (db : Database C)
      → IsName name
      → c.name ≡ name
      → deserialize C draws bytes ≡ done (c, [])
      → Fresh name db.collections
      → load_one C (λ path. true) draws (to_path name) bytes db
        ≡ done (record { collections = db.collections ++ (name, c) ∷ [] })
  unfolding load_one
  load_one_lem draws name bytes c db v same h f =
      rw (extension-to_path name v, h)
        (ap (λ n. done (put C n c db)) same
          ∙ ap (λ l. done (record db { collections = l })) (assign_fresh name c db.collections f))

  pub load_all-read :
      (draws : Bytes → ℕ → ℕ → ℕ) (path bytes : Bytes) (rest : Files) (db db' : Database C)
      → load_one C (λ path. true) (draws path) path bytes db ≡ done db'
      → load C (λ path. true) draws ((path, bytes) ∷ rest) db ≡ load C (λ path. true) draws rest db'
  unfolding load_all
  load_all-read draws path bytes rest db db' h = rw h refl
