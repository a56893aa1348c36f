-- ===== src/Chunks/Parse.antt =====
-- `parse_chunk_idx` of rust/src/chunk_manager.rs, with the standard library's check of UTF-8.
use mathlib.Core.List.{append_assoc, append-nil}
use duckdb_object_storage.Common.{
  ℕ, ◌<◌, ◌≡◌, refl, sym, ◌∙◌, Bool, true, false, ◌&&◌, Option, none, some, List, [], ◌∷◌, ◌++◌,
  arith, ltb, leb, lt→ltb, ◌==◌, ne→==, if◌then◌else◌, All, IsU64,
}
use duckdb_object_storage.Error.{Error, Result, ok, err, decode_error}
use duckdb_object_storage.Keys.{Bytes, chunk_key}
use duckdb_object_storage.Keys.Hex.{
  hex, hex-IsPlain, IsPlain, from_str_radix_16, from_str_radix_16-hex,
}
use duckdb_object_storage.Keys.Prefixes.{chunk_key_parts}

-- The ranges of the bytes that follow a leading byte of UTF-8.
continuations : ℕ → Option (List (ℕ × ℕ))
continuations b =
    let tail : ℕ × ℕ = (0x80, 0xbf) in
    if ltb b 0x80
    then some []
    else if leb 0xc2 b && leb b 0xdf
    then some (tail ∷ [])
    else if b == 0xe0
    then some ((0xa0, 0xbf) ∷ tail ∷ [])
    else if b == 0xed
    then some ((0x80, 0x9f) ∷ tail ∷ [])
    else if leb 0xe1 b && leb b 0xef
    then some (tail ∷ tail ∷ [])
    else if b == 0xf0
    then some ((0x90, 0xbf) ∷ tail ∷ tail ∷ [])
    else if leb 0xf1 b && leb b 0xf3
    then some (tail ∷ tail ∷ tail ∷ [])
    else if b == 0xf4
    then some ((0x80, 0x8f) ∷ tail ∷ tail ∷ [])
    else none

-- `std::str::from_utf8` succeeds; the first argument is what must still follow.
is_utf8 : List (ℕ × ℕ) → Bytes → Bool
is_utf8 [] [] = true
is_utf8 (range ∷ ranges) [] = false
is_utf8 [] (b ∷ bs) = elim (continuations b) [ none ↦ false | some ranges ↦ is_utf8 ranges bs ]
is_utf8 ((lo, hi) ∷ ranges) (b ∷ bs) = leb lo b && leb b hi && is_utf8 ranges bs

-- `key.rsplit('/').next()`: what follows the last slash; the first argument is what follows the
-- last slash that was read.
last_segment : Bytes → Bytes → Bytes
last_segment segment [] = segment
last_segment segment (b ∷ bs) = last_segment (if b == b'/' then [] else segment ++ (b ∷ [])) bs

unfoldable pub parse_chunk_idx : Bytes → Result Error ℕ
unfolding continuations is_utf8 last_segment
parse_chunk_idx key =
    if is_utf8 [] key
    then elim (from_str_radix_16 (last_segment [] key)) [ none ↦ err decode_error | some i ↦ ok i ]
    else err decode_error

ascii-continuations : (b : ℕ) → b < 128 → continuations b ≡ some []
unfolding continuations
ascii-continuations b h = rw (lt→ltb b 128 h)

is_utf8-ascii : (bs : Bytes) → All (λ b. b < 128) bs → is_utf8 [] bs ≡ true
unfolding is_utf8
is_utf8-ascii [] a = refl
is_utf8-ascii (b ∷ bs) a = rw (ascii-continuations b a.0, is_utf8) (is_utf8-ascii bs a.1)

-- A segment without a slash is read whole, and what stands before a slash is forgotten.
last_segment_plain : (segment bs : Bytes) → All IsPlain bs → last_segment segment bs ≡ segment ++ bs
unfolding last_segment
last_segment_plain segment [] a = sym (append-nil segment)
last_segment_plain segment (b ∷ bs) a =
    rw (ne→== b b'/' a.0.1)
      (last_segment_plain (segment ++ (b ∷ [])) bs a.1 ∙ append_assoc segment (b ∷ []) bs)

last_segment-append :
    (segment bs rest : Bytes) → All IsPlain rest → last_segment segment (bs ++ (b'/' ∷ rest)) ≡ rest
unfolding last_segment
last_segment-append segment [] rest a = last_segment_plain [] rest a
last_segment-append segment (b ∷ bs) rest a =
    last_segment-append (if b == b'/' then [] else segment ++ (b ∷ [])) bs rest a

All-append {ℓ κ} :
    {A : Type ℓ} (P : A → Type κ) (xs ys : List A) → All P xs → All P ys → All P (xs ++ ys)
All-append P [] ys a b = b
All-append P (x ∷ xs) ys a b = (a.0, All-append P xs ys a.1 b)

All-ascii : (bs : Bytes) → All IsPlain bs → All (λ b. b < 128) bs
All-ascii [] a = tt
All-ascii (b ∷ bs) a = (a.0.0, All-ascii bs a.1)

-- The chunk index that a chunk key was made from is read back, for every u64.
pub parse_chunk_idx-chunk_key :
    (f i : ℕ) → IsU64 f → IsU64 i → parse_chunk_idx (chunk_key f i) ≡ ok i
unfolding parse_chunk_idx
parse_chunk_idx-chunk_key f i uf ui = rw (chunk_key_parts f i) (
    rw (is_utf8-ascii (b'c' ∷ b'/' ∷ (hex 16 f ++ (b'/' ∷ hex 16 i))) ascii) (
      rw (last_segment-append [] (b'c' ∷ b'/' ∷ hex 16 f) (hex 16 i) plain_i)
        (rw (from_str_radix_16-hex i ui))))
  where
    plain_i : All IsPlain (hex 16 i)
    plain_i = hex-IsPlain 16 i (omega arith)

    ascii : All (λ b. b < 128) (b'c' ∷ b'/' ∷ (hex 16 f ++ (b'/' ∷ hex 16 i)))
    ascii = (
      omega arith,
      (
        omega arith,
        All-append (λ b. b < 128) (hex 16 f) (b'/' ∷ hex 16 i)
            (All-ascii (hex 16 f) (hex-IsPlain 16 f (omega arith)))
            (omega arith, All-ascii (hex 16 i) plain_i),
      ),
    )
