-- ===== src/FloatVector/RoundTrip.antt =====
-- `deserialize` reads back what `serialize` writes.
use vector_db.Prelude.{
  length-zero, ℕ, ◌^◌, ◌<◌, ◌≡◌, refl, List, [], ◌++◌, Bytes, true, false, Option, none, some, done,
  length, All, All-map, arith, Bool-cases, inl, inr,
}
use vector_db.Stream
use vector_db.Stream.{
  Reader, ◌>>=◌, pure, get_u32, get_u8, get_string, get_le, repeat, put_u32, put_u8, put_string,
  put_all, le_bytes,
}
use vector_db.Stream.RoundTrip.{
  Reads, Reads-bind, Reads-last, le_bytes-Reads, put_string-Reads, repeat-Reads,
}
use vector_db.FloatVector.{FloatVector, Metadata, put_entry, put_metadata, serialize, is_positive}
use vector_db.FloatVector.Values.{IsSized, read_array_sized}
use vector_db.FloatVector.Reading.{deserialize, get_entry, get_metadata, get_bool, get_elements}

abbrev pub EntryFits : Bytes × Bytes → Type 0
EntryFits (key, value) = (length key < 2 ^ 32) × (length value < 2 ^ 32)

abbrev pub MetadataFits : Option Metadata → Type 0
MetadataFits none = Unit
MetadataFits (some m) = (length m < 2 ^ 32) × All EntryFits m

-- What the serialised form can hold: 32-bit elements, and lengths that fit a `uint32_t`.
pub record IsStorable (v : FloatVector) : Type 0 where
  pub is_sized : IsSized v
  pub words : All (λ x. x < 2 ^ 32) v.elements
  pub fits : MetadataFits v.metadata

-- The bytes of a storable vector.
abbrev pub encode : FloatVector → Bytes
encode v = put_u32 v.dimension ++ (put_all put_u32 v.elements ++ put_metadata v.metadata)

pub serialize-encode : (v : FloatVector) → IsStorable v → serialize v ≡ done (encode v)
unfolding serialize
serialize-encode v s = ground (arith, read_array_sized v s.is_sized)

entry-Reads : (e : Bytes × Bytes) → EntryFits e → Reads get_entry (put_entry e) e
entry-Reads (key, value) (hk, hv) =
    Reads-bind get_string (λ k. get_string >>= λ v. pure (k, v)) (put_string key) (put_string value)
      key (key, value) (put_string-Reads key hk)
      (Reads-last get_string (λ v. (key, v)) (put_string value) value (put_string-Reads value hv))

some_metadata-Reads :
    (m : Metadata)
    → MetadataFits (some m)
    → Reads (get_metadata true) (put_u32 (length m) ++ put_all put_entry m) (some m)
some_metadata-Reads m h =
    Reads-bind get_u32 (λ n. repeat n get_entry >>= λ es. pure (some es)) (put_u32 (length m))
      (put_all put_entry m) (length m) (some m) (le_bytes-Reads 4 (length m) h.0)
      (Reads-last (repeat (length m) get_entry) some (put_all put_entry m) m
        (repeat-Reads get_entry put_entry m (All-map entry-Reads m h.1)))

metadata-Reads :
    {A : Type 0} (f : Option Metadata → A) (o : Option Metadata)
    → MetadataFits o
    → Reads (get_bool >>= λ b. get_metadata b >>= λ m. pure (f m)) (put_metadata o) (f o)
unfolding Stream.le_bytes Stream.get_le
metadata-Reads f none h = λ rest. refl
metadata-Reads f (some m) h =
    Reads-bind get_bool (λ b. get_metadata b >>= λ m. pure (f m)) (put_u8 1)
      (put_u32 (length m) ++ put_all put_entry m) true (f (some m)) (λ rest. refl)
      (Reads-last (get_metadata true) f (put_u32 (length m) ++ put_all put_entry m) (some m)
        (some_metadata-Reads m h))

no_elements : (v : FloatVector) → IsSized v → is_positive v.dimension ≡ false → v.elements ≡ []
no_elements v s e = length-zero v.elements (ground (arith, s.in_range, s.sized))

elements-Reads :
    (v : FloatVector)
    → IsStorable v
    → Reads (get_elements v.dimension) (put_all put_u32 v.elements) v.elements
elements-Reads v s = elim (Bool-cases (is_positive v.dimension)) [
  | inl e ↦ rw e (
      rw (← s.is_sized.sized) (
        repeat-Reads get_u32 put_u32 v.elements
          (All-map (λ x h. le_bytes-Reads 4 x h) v.elements s.words)))
  | inr e ↦ rw (e, no_elements v s.is_sized e) (λ rest. refl)
]

abbrev vector : ℕ → List ℕ → Option Metadata → FloatVector
vector d es m = record { elements = es; metadata = m; dimension = d }

pub encode-Reads : (v : FloatVector) → IsStorable v → Reads deserialize (encode v) v
unfolding deserialize
encode-Reads v s =
    Reads-bind get_u32
      (λ d. get_elements d >>= λ es. get_bool >>= λ b. get_metadata b >>= λ m. pure (vector d es m))
      (put_u32 v.dimension) (put_all put_u32 v.elements ++ put_metadata v.metadata) v.dimension v
      (le_bytes-Reads 4 v.dimension (omega (arith, s.is_sized.in_range)))
      (Reads-bind (get_elements v.dimension)
        (λ es. get_bool >>= λ b. get_metadata b >>= λ m. pure (vector v.dimension es m))
        (put_all put_u32 v.elements) (put_metadata v.metadata) v.elements v (elements-Reads v s)
        (metadata-Reads (vector v.dimension v.elements) v.metadata s.fits))

-- Of a storable vector `serialize` writes bytes from which `deserialize` reads an equal vector,
-- and leaves what follows them.
pub deserialize-serialize :
    (v : FloatVector)
    → IsStorable v
    → (bs : Bytes) × (serialize v ≡ done bs)
      × ((rest : Bytes) → deserialize (bs ++ rest) ≡ done (v, rest))
deserialize-serialize v s = (encode v, serialize-encode v s, encode-Reads v s)
