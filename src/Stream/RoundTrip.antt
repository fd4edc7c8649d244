-- ===== src/Stream/RoundTrip.antt =====
-- Reading back what was written, with any bytes behind it.
use vector_db.Prelude.{
  ℕ, zero, suc, ◌/◌, ◌%◌, ◌^◌, ◌<◌, ◌≡◌, refl, List, [], ◌∷◌, ◌++◌, append_assoc, Bytes, done,
  length, take, All, arith,
}
use native.Mathlib.Nat.{pow-suc, div-add-mod, mod-eq_of_lt}
use vector_db.Stream.{
  le_bytes, put_u32, put_string, Reader, ◌>>=◌, pure, get_le, get_bytes, get_string, repeat,
  put_all,
}

-- The reader takes just the bytes `bs` off the front, and gives `a`.
abbrev pub Reads {ℓ} : {A : Type ℓ} → Reader A → Bytes → A → Type ℓ
Reads r bs a = (rest : Bytes) → r (bs ++ rest) ≡ done (a, rest)

pub Reads-bind {ℓ κ} :
    {A : Type ℓ} {B : Type κ} (m : Reader A) (f : A → Reader B) (xs ys : Bytes) (a : A) (b : B)
    → Reads m xs a
    → Reads (f a) ys b
    → Reads (m >>= f) (xs ++ ys) b
Reads-bind m f xs ys a b p q rest = rw (append_assoc xs ys rest, p (ys ++ rest), ◌>>=◌) (q rest)

-- The last read of a reader, before a step that reads no more.
pub Reads-end {ℓ κ} :
    {A : Type ℓ} {B : Type κ} (m : Reader A) (f : A → Reader B) (xs : Bytes) (a : A) (b : B)
    → Reads m xs a
    → ((rest : Bytes) → f a rest ≡ done (b, rest))
    → Reads (m >>= f) xs b
Reads-end m f xs a b p q rest = rw (p rest, ◌>>=◌) (q rest)

pub Reads-last {ℓ κ} :
    {A : Type ℓ} {B : Type κ} (m : Reader A) (f : A → B) (xs : Bytes) (a : A)
    → Reads m xs a
    → Reads (m >>= λ x. pure (f x)) xs (f a)
Reads-last m f xs a p = Reads-end m (λ x. pure (f x)) xs a (f a) p (λ rest. refl)

pub le_bytes-Reads : (n x : ℕ) → x < 256 ^ n → Reads (get_le n) (le_bytes n x) x
unfolding get_le le_bytes
le_bytes-Reads zero x h rest = let e : x ≡ 0 = omega arith in rw e
le_bytes-Reads (suc n) x h rest =
    let h' : x / 256 < 256 ^ n = omega (arith, pow-suc 256 n) in
    rw (le_bytes-Reads n (x / 256) h' rest) (ground (arith, div-add-mod x 256))

pub get_bytes-Reads : (s : Bytes) → Reads (get_bytes (length s)) s s
unfolding get_bytes
get_bytes-Reads [] rest = refl
get_bytes-Reads (c ∷ s) rest = rw (get_bytes-Reads s rest)

take-length {ℓ} : {A : Type ℓ} (xs : List A) → take (length xs) xs ≡ xs
take-length [] = refl
take-length (x ∷ xs) = rw (take-length xs)

pub put_string-Reads : (s : Bytes) → length s < 2 ^ 32 → Reads get_string (put_string s) s
put_string-Reads s h =
    Reads-bind (get_le 4) get_bytes (put_u32 (length s)) (take (length s % 2 ^ 32) s) (length s) s
      (le_bytes-Reads 4 (length s) h) (rw (mod-eq_of_lt h, take-length s) (get_bytes-Reads s))

-- A loop over written items reads them all.
pub repeat-Reads {ℓ} :
    {A : Type ℓ} (r : Reader A) (put : A → Bytes) (xs : List A)
    → All (λ x. Reads r (put x) x) xs
    → Reads (repeat (length xs) r) (put_all put xs) xs
unfolding repeat
repeat-Reads r put [] p = λ rest. refl
repeat-Reads r put (x ∷ xs) (p, ps) =
    Reads-bind r (λ y. repeat (length xs) r >>= λ ys. pure (y ∷ ys)) (put x) (put_all put xs) x
      (x ∷ xs) p
      (Reads-last (repeat (length xs) r) (λ ys. x ∷ ys) (put_all put xs) xs
        (repeat-Reads r put xs ps))
