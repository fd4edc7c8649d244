-- ===== src/Stream.antt =====
-- What the serialisers use of `std::ostream` and `std::istream`: a stream is its bytes, and an
-- integer is written as it lies in memory on a little-endian machine.
pub mod RoundTrip
use vector_db.Prelude.{
  ℕ, zero, suc, ◌+◌, ◌*◌, ◌/◌, ◌%◌, ◌^◌, List, [], ◌∷◌, ◌++◌, Bytes, Outcome, done, thrown,
  undefined, length, take,
}

-- The low `n` bytes of `x`.
unfoldable pub le_bytes : ℕ → ℕ → Bytes
le_bytes zero x = []
le_bytes (suc n) x = x % 256 ∷ le_bytes n (x / 256)

-- `os.write(&x, sizeof(x))` for `uint32_t`, `int` and `float`; `uint64_t` and `size_t`; one byte.
abbrev pub put_u32 : ℕ → Bytes
put_u32 = le_bytes 4

abbrev pub put_u64 : ℕ → Bytes
put_u64 = le_bytes 8

abbrev pub put_u8 : ℕ → Bytes
put_u8 = le_bytes 1

-- The length as a `uint32_t`, and that many bytes of the text.
abbrev pub put_string : Bytes → Bytes
put_string s = put_u32 (length s) ++ take (length s % 2 ^ 32) s

-- The items of a container, one behind the other.
abbrev pub put_all {ℓ} : {A : Type ℓ} → (A → Bytes) → List A → Bytes
put_all put [] = []
put_all put (x ∷ xs) = put x ++ put_all put xs

-- A read past the end leaves its variable with an indeterminate value, which the deserialisers go
-- on to use: `undefined`.
abbrev pub Reader {ℓ} : Type ℓ → Type ℓ
Reader A = Bytes → Outcome (A × Bytes)

infixl 5 ◌>>=◌
abbrev pub ◌>>=◌ {ℓ κ} : {A : Type ℓ} {B : Type κ} → Reader A → (A → Reader B) → Reader B
◌>>=◌ m f bs = elim (m bs) [ done (a, rest) ↦ f a rest | thrown ↦ thrown | undefined ↦ undefined ]

abbrev pub pure {ℓ} : {A : Type ℓ} → A → Reader A
pure a bs = done (a, bs)

unfoldable pub get_le : ℕ → Reader ℕ
get_le zero bs = done (0, bs)
get_le (suc n) [] = undefined
get_le (suc n) (b ∷ bs) = elim (get_le n bs) [
  | done (high, rest) ↦ done (b + 256 * high, rest)
  | thrown ↦ thrown
  | undefined ↦ undefined
]

abbrev pub get_u32 : Reader ℕ
get_u32 = get_le 4

abbrev pub get_u64 : Reader ℕ
get_u64 = get_le 8

abbrev pub get_u8 : Reader ℕ
get_u8 = get_le 1

unfoldable pub get_bytes : ℕ → Reader Bytes
get_bytes zero bs = done ([], bs)
get_bytes (suc n) [] = undefined
get_bytes (suc n) (b ∷ bs) = elim (get_bytes n bs) [
  | done (s, rest) ↦ done (b ∷ s, rest)
  | thrown ↦ thrown
  | undefined ↦ undefined
]

abbrev pub get_string : Reader Bytes
get_string = do n ← get_u32; get_bytes n

-- A counted loop that reads an item in each round.
unfoldable pub repeat {ℓ} : {A : Type ℓ} → ℕ → Reader A → Reader (List A)
repeat zero r = pure []
repeat (suc n) r = do x ← r; xs ← repeat n r; pure (x ∷ xs)
