-- ===== src/Keys/Prefixes.antt =====
-- The keys of one file are contiguous, ascend by chunk index, and meet no other key family.
use mathlib.Core.List.{append_assoc, append-nil}
use mathlib.Core.Path.{ap₂}
use duckdb_object_storage.Common.{
  ℕ, ◌≡◌, refl, sym, ap, ◌∙◌, true, false, ◌&&◌, ◌||◌, List, [], ◌∷◌, ◌++◌, arith, ltb, leb, ◌==◌,
  IsU64,
}
use duckdb_object_storage.Keys.Hex.{hex}
use duckdb_object_storage.Keys.Order.{
  lex_le, lex_le-append, lex_le-hex, starts_with, starts_with-hex, starts_with_between,
}
use duckdb_object_storage.Keys.{Bytes, chunk_prefix, chunk_key, metadata_key}

-- A chunk key with its parts bracketed to the right.
pub chunk_key_parts : (f i : ℕ) → chunk_key f i ≡ b'c' ∷ b'/' ∷ (hex 16 f ++ (b'/' ∷ hex 16 i))
unfolding chunk_key
chunk_key_parts f i =
    ap (λ (t : List ℕ). b'c' ∷ b'/' ∷ t) (append_assoc (hex 16 f) (b'/' ∷ []) (hex 16 i))

indices_compare : (i j : ℕ) → IsU64 i → IsU64 j → lex_le (hex 16 i) (hex 16 j) ≡ leb i j
unfolding lex_le
indices_compare i j ui uj =
    ap₂ lex_le (sym (append-nil (hex 16 i))) (sym (append-nil (hex 16 j)))
    ∙ lex_le-hex 16 i j [] [] (omega arith) (omega arith)
    ∙ ground arith

-- Chunk keys ascend by file ID first and by chunk index next.
pub chunk_key-order :
    (f g i j : ℕ)
    → IsU64 f
    → IsU64 g
    → IsU64 i
    → IsU64 j
    → lex_le (chunk_key f i) (chunk_key g j) ≡ (ltb f g || ((f == g) && leb i j))
chunk_key-order f g i j uf ug ui uj = rw (chunk_key_parts f i) (
    rw (chunk_key_parts g j) (
      lex_le-append (b'c' ∷ b'/' ∷ []) _ _
      ∙ lex_le-hex 16 f g (b'/' ∷ hex 16 i) (b'/' ∷ hex 16 j) (omega arith) (omega arith)
      ∙ ap (λ b. ltb f g || ((f == g) && b))
          (lex_le-append (b'/' ∷ []) _ _ ∙ indices_compare i j ui uj)))

-- The scan prefix of a file matches the chunk keys of that file, and of no other.
pub chunk_prefix-chunk_key :
    (f g j : ℕ) → IsU64 f → IsU64 g → starts_with (chunk_prefix f) (chunk_key g j) ≡ (f == g)
unfolding chunk_prefix starts_with
chunk_prefix-chunk_key f g j uf ug = rw (chunk_key_parts g j) (
    starts_with-hex 16 f g (b'/' ∷ []) (b'/' ∷ hex 16 j) (omega arith) (omega arith) ∙ ground arith)

-- No chunk scan meets a metadata record.
pub chunk_prefix-metadata_key : (f g : ℕ) → starts_with (chunk_prefix f) (metadata_key g) ≡ false
unfolding chunk_prefix metadata_key starts_with
chunk_prefix-metadata_key f g = refl

lex_le_refl : (xs : List ℕ) → lex_le xs xs ≡ true
unfolding lex_le
lex_le_refl [] = refl
lex_le_refl (x ∷ xs) = ground (arith, lex_le_refl xs)

-- Two chunks have one key only if they are the same chunk of the same file.
pub chunk_key_injective :
    (f g i j : ℕ)
    → IsU64 f
    → IsU64 g
    → IsU64 i
    → IsU64 j
    → chunk_key f i ≡ chunk_key g j
    → (f ≡ g) × (i ≡ j)
chunk_key_injective f g i j uf ug ui uj e =
    let le : lex_le (chunk_key f i) (chunk_key g j) ≡ true = rw e (lex_le_refl (chunk_key g j)) in
    let ge : lex_le (chunk_key g j) (chunk_key f i) ≡ true = rw e (lex_le_refl (chunk_key g j)) in
    ground (arith, chunk_key-order f g i j uf ug ui uj, chunk_key-order g f j i ug uf uj ui)

-- Whatever lies between two chunk keys of a file in the byte order has the prefix of that file.
pub chunk_key_between :
    (f i j : ℕ) (key : Bytes)
    → lex_le (chunk_key f i) key ≡ true
    → lex_le key (chunk_key f j) ≡ true
    → starts_with (chunk_prefix f) key ≡ true
unfolding chunk_key
chunk_key_between f i j key = starts_with_between (chunk_prefix f) (hex 16 i) (hex 16 j) key
