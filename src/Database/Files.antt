-- ===== src/Database/Files.antt =====
-- src/impl/core/database.cpp: save and load, over the regular files of the storage directory. The file
-- system does what it is told, but for files that do not open.
pub mod Paths
pub mod Steps
pub mod RoundTrip
use vector_db.Prelude.{
  ℕ, ◌-◌, List, [], ◌∷◌, ◌++◌, Option, none, some, Outcome, done, thrown, undefined, ◌>>=◌, Bool,
  true, false, ◌&&◌, if◌then◌else◌, Bytes, bytes_eq, bytes_key, length, take, nat_eq,
}
use vector_db.Status.{Status, success, internal_error}
use vector_db.Name.{is_empty}
use vector_db.Assoc.{assign, erase}
use vector_db.Index.Interface.{IndexClass}
use vector_db.Collection.{Collection}
use vector_db.Collection.Persist.{serialize, deserialize}
use vector_db.Database.{Database, put}

-- The names of the files and what they hold.
abbrev pub Files : Type 0
Files = List (Bytes × Bytes)

-- From the last dot on.
unfoldable pub last_dot : Bytes → Bytes
last_dot [] = []
last_dot (c ∷ cs) =
    let rest = last_dot cs in if is_empty rest then (if nat_eq c b'.' then c ∷ cs else []) else rest

-- `path::extension`, of a file name other than `.` and `..`: a dot at its start does not count.
unfoldable pub extension : Bytes → Bytes
unfolding last_dot
extension [] = []
extension (c ∷ cs) = last_dot cs

-- `path::replace_extension`, by one that starts with a dot, or by none.
unfoldable pub replace_extension : Bytes → Bytes → Bytes
unfolding extension
replace_extension path new = take (length path - length (extension path)) path ++ new

abbrev pub dot_db : Bytes
dot_db = b'.' ∷ b'd' ∷ b'b' ∷ []

abbrev pub dot_tmp : Bytes
dot_tmp = b'.' ∷ b't' ∷ b'm' ∷ b'p' ∷ []

-- The file that is written, and the one that it is renamed to.
abbrev pub file_path : Bytes → Bytes
file_path name = replace_extension name (dot_db ++ dot_tmp)

abbrev pub to_path : Bytes → Bytes
to_path name = replace_extension (file_path name) []

module _ {D : Type 0} (C : IndexClass D) where
  -- A collection whose file does not open is passed over.
  unfoldable pub save_one : (Bytes → Bool) → Bytes → Collection C → Files → Outcome Files
  unfolding replace_extension serialize assign erase
  save_one can_open name c files =
      let renamed = serialize C c >>= λ bytes.
      done (assign (to_path name) bytes (erase (file_path name) files)) in
      if can_open (file_path name) then renamed else done files

  unfoldable pub save_all : (Bytes → Bool) → List (Bytes × Collection C) → Files → Outcome Files
  unfolding save_one
  save_all can_open [] files = done files
  save_all can_open ((name, c) ∷ rest) files =
      save_one can_open name c files >>= λ files'. save_all can_open rest files'

  -- The `catch`: the files that an exception leaves are not known.
  abbrev pub saved : Outcome Files → Outcome (Option Files × Status)
  saved (done files) = done (some files, success)
  saved thrown = done (none, internal_error)
  saved undefined = undefined

  unfoldable pub save : (Bytes → Bool) → Database C → Files → Outcome (Option Files × Status)
  unfolding save_all
  save can_open db files = saved (save_all can_open db.collections files)

  -- `draws` are the levels for the indices of each file.
  unfoldable pub load_one :
      (Bytes → Bool) → (ℕ → ℕ → ℕ) → Bytes → Bytes → Database C → Outcome (Database C)
  unfolding extension deserialize
  load_one can_open draws path bytes db =
      let loaded = deserialize C draws bytes >>= λ (c, rest). done (put C c.name c db) in
      if bytes_eq (extension path) dot_db && can_open path then loaded else done db

  -- How the loop goes on; the `catch` leaves what was loaded before.
  abbrev load_next :
      (Database C → Outcome (Database C × Status))
      → Database C
      → Outcome (Database C)
      → Outcome (Database C × Status)
  load_next rest db (done db') = rest db'
  load_next rest db thrown = done (db, internal_error)
  load_next rest db undefined = undefined

  unfoldable pub load_all :
      (Bytes → Bool) → (Bytes → ℕ → ℕ → ℕ) → Files → Database C → Outcome (Database C × Status)
  unfolding load_one
  load_all can_open draws [] db = done (db, success)
  load_all can_open draws ((path, bytes) ∷ rest) db =
      load_next (load_all can_open draws rest) db (load_one can_open (draws path) path bytes db)

  -- A directory that does not exist is as one without files.
  abbrev pub load :
      (Bytes → Bool) → (Bytes → ℕ → ℕ → ℕ) → Files → Database C → Outcome (Database C × Status)
  load = load_all
