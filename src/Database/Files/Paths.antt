-- ===== src/Database/Files/Paths.antt =====
-- The file of a collection with a valid name.
use mathlib.Core.List.{append-nil}
use vector_db.Prelude.{
  ◌-◌, ◌≡◌, refl, sym, ap, ◌∙◌, List, [], ◌∷◌, ◌++◌, append_assoc, true, false, Bytes, length,
  length-append, take, arith,
}
use vector_db.Status.{succeeded}
use vector_db.Name.{is_empty, is_collection_name_valid, isalnum, all_of}
use vector_db.Database.Files.{
  last_dot, extension, replace_extension, dot_db, dot_tmp, file_path, to_path,
}

take-append {ℓ} : {A : Type ℓ} (xs ys : List A) → take (length xs) (xs ++ ys) ≡ xs
take-append [] ys = refl
take-append (x ∷ xs) ys = ap (◌∷◌ x) (take-append xs ys)

-- No byte of a name is a dot.
last_dot-name : (cs : Bytes) → all_of cs ≡ true → last_dot cs ≡ []
unfolding all_of isalnum last_dot
last_dot-name [] h = refl
last_dot-name (c ∷ cs) h = ground (arith, last_dot-name cs)

-- Only the end counts, if it has a dot.
last_dot-append :
    (cs end : Bytes) → is_empty (last_dot end) ≡ false → last_dot (cs ++ end) ≡ last_dot end
unfolding last_dot
last_dot-append [] end h = refl
last_dot-append (c ∷ cs) end h = let rest = last_dot-append cs end h in rw (rest, h) refl

-- The name is not empty, and none of its bytes is a dot.
abbrev pub IsName : Bytes → Type 0
IsName name = (is_empty name ≡ false) × (all_of name ≡ true)

pub valid-IsName : (name : Bytes) → succeeded (is_collection_name_valid name) ≡ true → IsName name
unfolding is_collection_name_valid
valid-IsName name h = ground arith

extension-name : (name : Bytes) → IsName name → extension name ≡ []
unfolding extension all_of
extension-name [] (some, chars) = cc
extension-name (c ∷ cs) (some, chars) = last_dot-name cs (ground arith)

extension-append :
    (name end : Bytes)
    → IsName name
    → is_empty (last_dot end) ≡ false
    → extension (name ++ end) ≡ last_dot end
unfolding extension
extension-append [] end (some, chars) h = cc
extension-append (c ∷ cs) end (some, chars) h = last_dot-append cs end h

-- A path without its extension.
replace_extension-append :
    (name end new : Bytes)
    → extension (name ++ end) ≡ end
    → replace_extension (name ++ end) new ≡ name ++ new
unfolding replace_extension
replace_extension-append name end new e =
    let size : length (name ++ end) - length end ≡ length name =
      ground (arith, length-append name end) in
    ap (λ m. take m (name ++ end) ++ new) (ap (λ x. length (name ++ end) - length x) e ∙ size)
    ∙ ap (λ l. l ++ new) (take-append name end)

pub file_path_lem : (name : Bytes) → IsName name → file_path name ≡ name ++ (dot_db ++ dot_tmp)
file_path_lem name v =
    ap (λ p. replace_extension p (dot_db ++ dot_tmp)) (sym (append-nil name))
    ∙ replace_extension-append name [] (dot_db ++ dot_tmp)
        (ap extension (append-nil name) ∙ extension-name name v)

extension-tmp : (name : Bytes) → IsName name → extension ((name ++ dot_db) ++ dot_tmp) ≡ dot_tmp
unfolding last_dot
extension-tmp name v =
    ap extension (append_assoc name dot_db dot_tmp)
    ∙ extension-append name (dot_db ++ dot_tmp) v refl

pub to_path_lem : (name : Bytes) → IsName name → to_path name ≡ name ++ dot_db
to_path_lem name v =
    ap (λ p. replace_extension p []) (file_path_lem name v ∙ sym (append_assoc name dot_db dot_tmp))
    ∙ replace_extension-append (name ++ dot_db) dot_tmp [] (extension-tmp name v)
    ∙ append-nil (name ++ dot_db)

pub extension-to_path : (name : Bytes) → IsName name → extension (to_path name) ≡ dot_db
unfolding last_dot
extension-to_path name v = ap extension (to_path_lem name v) ∙ extension-append name dot_db v refl

pub extension-file_path : (name : Bytes) → IsName name → extension (file_path name) ≡ dot_tmp
extension-file_path name v =
    ap extension (file_path_lem name v ∙ sym (append_assoc name dot_db dot_tmp))
    ∙ extension-tmp name v

-- Different names have different files.
pub to_path-injective : (m n : Bytes) → IsName m → IsName n → to_path m ≡ to_path n → m ≡ n
unfolding last_dot
to_path-injective m n v w e =
    let plain : (l : Bytes) → IsName l → replace_extension (l ++ dot_db) [] ≡ l = λ l u.
      replace_extension-append l dot_db [] (extension-append l dot_db u refl) ∙ append-nil l in
    sym (plain m v)
    ∙ ap (λ p. replace_extension p []) (sym (to_path_lem m v) ∙ e ∙ to_path_lem n w)
    ∙ plain n w
