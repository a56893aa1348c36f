-- ===== src/Common/Lists.antt =====
-- Lists measured and indexed by native numbers, and byte buffers read with zeros past their end.
use Prim.Native.Nat.{ℕ, zero, suc, ◌+◌, ◌-◌, ◌≤◌, ◌<◌, min}
use mathlib.Core.Path.{◌≡◌, refl, ap, ◌∙◌}
use mathlib.Core.List.{List, [], ◌∷◌, ◌++◌}
use native.Mathlib.Omega.{arith}
use duckdb_object_storage.Common.Tests.{ltb, leb, if◌then◌else◌}
use mathlib.Core.Bool.{◌&&◌}

module _ {ℓ} {A : Type ℓ} where
  abbrev pub length : List A → ℕ
  length [] = 0
  length (x ∷ xs) = suc (length xs)

  abbrev pub take : ℕ → List A → List A
  take zero xs = []
  take (suc n) [] = []
  take (suc n) (x ∷ xs) = x ∷ take n xs

  abbrev pub drop : ℕ → List A → List A
  drop zero xs = xs
  drop (suc n) [] = []
  drop (suc n) (x ∷ xs) = drop n xs

  abbrev pub replicate : ℕ → A → List A
  replicate zero a = []
  replicate (suc n) a = a ∷ replicate n a

  abbrev pub All {κ} : (A → Type κ) → List A → Type κ
  All P [] = Unit {κ}
  All P (x ∷ xs) = P x × All P xs

  pub length-append : (xs ys : List A) → length (xs ++ ys) ≡ length xs + length ys
  length-append [] ys = omega arith
  length-append (x ∷ xs) ys = omega (arith, length-append xs ys)

  pub length-take : (n : ℕ) (xs : List A) → length (take n xs) ≡ min n (length xs)
  length-take zero xs = omega arith
  length-take (suc n) [] = omega arith
  length-take (suc n) (x ∷ xs) = omega (arith, length-take n xs)

  pub length-drop : (n : ℕ) (xs : List A) → length (drop n xs) ≡ length xs - n
  length-drop zero xs = omega arith
  length-drop (suc n) [] = omega arith
  length-drop (suc n) (x ∷ xs) = omega (arith, length-drop n xs)

  pub length-replicate : (n : ℕ) (a : A) → length (replicate n a) ≡ n
  length-replicate zero a = refl
  length-replicate (suc n) a = ap suc (length-replicate n a)

-- The byte at an index, or 0 past the end.
unfoldable pub byte : List ℕ → ℕ → ℕ
byte [] i = 0
byte (x ∷ xs) zero = x
byte (x ∷ xs) (suc i) = byte xs i

pub byte_past : (xs : List ℕ) (i : ℕ) → length xs ≤ i → byte xs i ≡ 0
unfolding byte
byte_past [] i h = refl
byte_past (x ∷ xs) zero h = absurd (omega arith)
byte_past (x ∷ xs) (suc i) h = byte_past xs i (omega arith)

pub byte-append :
    (xs ys : List ℕ) (i : ℕ)
    → byte (xs ++ ys) i ≡ (if ltb i (length xs) then byte xs i else byte ys (i - length xs))
unfolding byte
byte-append [] ys i = ground arith
byte-append (x ∷ xs) ys zero = ground arith
byte-append (x ∷ xs) ys (suc i) = ground (arith, byte-append xs ys i)

pub byte-take :
    (n : ℕ) (xs : List ℕ) (i : ℕ) → byte (take n xs) i ≡ (if ltb i n then byte xs i else 0)
unfolding byte
byte-take zero xs i = ground arith
byte-take (suc n) [] i = ground arith
byte-take (suc n) (x ∷ xs) zero = ground arith
byte-take (suc n) (x ∷ xs) (suc i) = ground (arith, byte-take n xs i)

pub byte-drop : (n : ℕ) (xs : List ℕ) (i : ℕ) → byte (drop n xs) i ≡ byte xs (n + i)
unfolding byte
byte-drop zero xs i = ap (byte xs) {x = i} {y = 0 + i} (omega arith)
byte-drop (suc n) [] i = refl
byte-drop (suc n) (x ∷ xs) i =
    byte-drop n xs i ∙ ap (byte (x ∷ xs)) {x = suc (n + i)} {y = suc n + i} (omega arith)

pub byte-replicate : (n i : ℕ) → byte (replicate n 0) i ≡ 0
unfolding byte
byte-replicate zero i = refl
byte-replicate (suc n) zero = refl
byte-replicate (suc n) (suc i) = byte-replicate n i

-- `Vec::resize(n, 0)`
unfoldable pub resize : ℕ → List ℕ → List ℕ
resize n xs = take n xs ++ replicate (n - length xs) 0

pub byte-resize : (n : ℕ) (xs : List ℕ) (i : ℕ) → length xs ≤ n → byte (resize n xs) i ≡ byte xs i
unfolding resize
byte-resize n xs i h = ground (
  arith,
  byte-append (take n xs) (replicate (n - length xs) 0) i,
  byte-take n xs i,
  length-take n xs,
  byte-replicate (n - length xs) (i - length (take n xs)),
  byte_past xs i,
)

pub length-resize : (n : ℕ) (xs : List ℕ) → length (resize n xs) ≡ n
unfolding resize
length-resize n xs = omega (
  arith,
  length-append (take n xs) (replicate (n - length xs) 0),
  length-take n xs,
  length-replicate {A = ℕ} (n - length xs) 0,
)

-- `buf[at..at + bytes.len()].copy_from_slice(bytes)`, for a range inside the buffer.
unfoldable pub splice : List ℕ → ℕ → List ℕ → List ℕ
splice buf at bytes = take at buf ++ (bytes ++ drop (at + length bytes) buf)

pub length-splice :
    (buf : List ℕ) (at : ℕ) (bytes : List ℕ)
    → at + length bytes ≤ length buf
    → length (splice buf at bytes) ≡ length buf
unfolding splice
length-splice buf at bytes h = omega (
  arith,
  length-append (take at buf) (bytes ++ drop (at + length bytes) buf),
  length-append bytes (drop (at + length bytes) buf),
  length-take at buf,
  length-drop (at + length bytes) buf,
)

-- A copy changes the bytes of its range, and no other.
pub byte-splice :
    (buf : List ℕ) (at : ℕ) (bytes : List ℕ) (i : ℕ)
    → at + length bytes ≤ length buf
    → byte (splice buf at bytes) i
      ≡ (if leb at i && ltb i (at + length bytes) then byte bytes (i - at) else byte buf i)
unfolding splice
byte-splice buf at bytes i h = ground (
  arith,
  byte-append (take at buf) (bytes ++ drop (at + length bytes) buf) i,
  byte-append bytes (drop (at + length bytes) buf) (i - length (take at buf)),
  length-take at buf,
  byte-take at buf i,
  byte-drop (at + length bytes) buf (i - length (take at buf) - length bytes),
)

-- Two buffers of one length with the same bytes are one buffer.
pub bytes_ext :
    (xs ys : List ℕ)
    → length xs ≡ length ys
    → ((i : ℕ) → i < length xs → byte xs i ≡ byte ys i)
    → xs ≡ ys
unfolding byte
bytes_ext [] [] e h = refl
bytes_ext [] (y ∷ ys) e h = absurd (omega arith)
bytes_ext (x ∷ xs) [] e h = absurd (omega arith)
bytes_ext (x ∷ xs) (y ∷ ys) e h =
    cc (h 0 (omega arith), bytes_ext xs ys (omega arith) (λ i p. h (suc i) (omega arith)))
