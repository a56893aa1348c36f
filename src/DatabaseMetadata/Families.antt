-- ===== src/DatabaseMetadata/Families.antt =====
-- The keys of the catalog meet no other key family, and name one path or one file each.
use duckdb_object_storage.Common.{
  ℕ, zero, suc, ◌≡◌, refl, ap, ◌∙◌, false, inl, inr, arith, ◌==◌, ==→eq, length, drop, IsU64,
  Bool-cases,
}
use duckdb_object_storage.Keys.{chunk_prefix, metadata_key}
use duckdb_object_storage.Keys.Hex.{hex, from_str_radix_16, from_str_radix_16-hex}
use duckdb_object_storage.Keys.Order.{bytes_eq, bytes_eq→eq, bytes_eq_refl, starts_with}
use duckdb_object_storage.DatabaseMetadata.{FilePath, path_key, next_file_id_key}

pub path_key-metadata_key : (p : FilePath) (f : ℕ) → bytes_eq (path_key p) (metadata_key f) ≡ false
unfolding path_key metadata_key bytes_eq
path_key-metadata_key p f = refl

pub path_key-next : (p : FilePath) → bytes_eq (path_key p) next_file_id_key ≡ false
unfolding path_key bytes_eq
path_key-next p = refl

pub chunk_prefix-path_key :
    (f : ℕ) (p : FilePath) → starts_with (chunk_prefix f) (path_key p) ≡ false
unfolding chunk_prefix path_key starts_with
chunk_prefix-path_key f p = refl

pub chunk_prefix-next : (f : ℕ) → starts_with (chunk_prefix f) next_file_id_key ≡ false
unfolding chunk_prefix starts_with
chunk_prefix-next f = refl

length-hex : (n v : ℕ) → length (hex n v) ≡ n
unfolding hex
length-hex zero v = refl
length-hex (suc n) v = ap suc (length-hex n _)

length-metadata_key : (f : ℕ) → length (metadata_key f) ≡ 18
unfolding metadata_key
length-metadata_key f = ap (λ (n : ℕ). suc (suc n)) (length-hex 16 f)

pub next-metadata_key : (f : ℕ) → bytes_eq next_file_id_key (metadata_key f) ≡ false
next-metadata_key f = elim (Bool-cases (bytes_eq next_file_id_key (metadata_key f))) [
  | inl e ↦ absurd (
      omega
        (arith, ap length (bytes_eq→eq next_file_id_key (metadata_key f) e), length-metadata_key f))
  | inr e ↦ e
]

metadata_key_injective : (f g : ℕ) → IsU64 f → IsU64 g → metadata_key f ≡ metadata_key g → f ≡ g
unfolding metadata_key
metadata_key_injective f g uf ug e =
    let digits : hex 16 f ≡ hex 16 g = ap (drop 2) e in
    let parsed : from_str_radix_16 (hex 16 f) ≡ from_str_radix_16 (hex 16 g) =
      ap from_str_radix_16 digits in
    cc (from_str_radix_16-hex f uf, from_str_radix_16-hex g ug)

-- Two metadata keys are equal exactly if they are those of one file.
pub metadata_key_eq :
    (f g : ℕ) → IsU64 f → IsU64 g → bytes_eq (metadata_key f) (metadata_key g) ≡ (f == g)
metadata_key_eq f g uf ug = elim (Bool-cases (f == g)) [
  | inl e ↦
      let same : f ≡ g = ==→eq f g e in
      rw e (
        ap (λ (i : ℕ). bytes_eq (metadata_key i) (metadata_key g)) same
        ∙ bytes_eq_refl (metadata_key g))
  | inr e ↦ elim (Bool-cases (bytes_eq (metadata_key f) (metadata_key g))) [
    | inl h ↦
        let same : f ≡ g =
          metadata_key_injective f g uf ug (bytes_eq→eq (metadata_key f) (metadata_key g) h) in
        absurd (ground arith)
    | inr h ↦ rw e h
  ]
]

-- Two path keys are equal exactly if the paths are.
pub path_key_eq : (p q : FilePath) → bytes_eq (path_key p) (path_key q) ≡ bytes_eq p q
unfolding path_key bytes_eq
path_key_eq p q = refl

pub metadata_key-next : (f : ℕ) → bytes_eq (metadata_key f) next_file_id_key ≡ false
metadata_key-next f = elim (Bool-cases (bytes_eq (metadata_key f) next_file_id_key)) [
  | inl e ↦ absurd (
      omega
        (arith, ap length (bytes_eq→eq (metadata_key f) next_file_id_key e), length-metadata_key f))
  | inr e ↦ e
]
