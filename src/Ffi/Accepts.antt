-- ===== src/Ffi/Accepts.antt =====
-- Which cache configurations rust/src/ffi.rs accepts, and what it makes of them.
use duckdb_object_storage.Common.{
  ℕ, ◌^◌, ◌%◌, ◌<◌, ◌≡◌, refl, Bool, true, false, not, ◌||◌, ◌⊎◌, inl, inr, Option, none, some, [],
  ◌∷◌, arith, ltb, ltb→lt, lt→ltb, ◌==◌, ==→eq, if◌then◌else◌, Bool-cases,
}
use duckdb_object_storage.Error.{Error, Result, ok, err, argument_error, ◌>>=◌}
use duckdb_object_storage.Keys.{Bytes}
use duckdb_object_storage.Cache.{CacheConfig, CacheLibrary}
use duckdb_object_storage.FileSystem.{is_some}
use duckdb_object_storage.Ffi.Config.{
  FfiCacheConfig, try_from, optional_thread_count, optional_string, check_persistent,
  parse_cache_config,
}

-- A result that is a value under a condition, and otherwise an invalid argument.
abbrev pub Decides : {A : Type 0} → Type 0 → Result Error A → A → Type 0
Decides condition result value =
    ((result ≡ ok value) × condition) ⊎ ((result ≡ err argument_error) × ¬ condition)

Decides-bind :
    {A B : Type 0} {P Q : Type 0} (first : Result Error A) (rest : A → Result Error B) (a : A)
    (b : B)
    → Decides P first a
    → Decides Q (rest a) b
    → Decides (P × Q) (first >>= rest) b
Decides-bind first rest a b (inr (e, failed)) d = inr (rw e refl, λ both. failed both.0)
Decides-bind first rest a b (inl (e, p)) (inl (f, q)) = inl (rw e f, (p, q))
Decides-bind first rest a b (inl (e, p)) (inr (f, failed)) = inr (rw e f, λ both. failed both.1)

-- What a path of the C side names: an empty one is no path.
abbrev pub named : Option Bytes → Option Bytes
named none = none
named (some []) = none
named (some (b ∷ path)) = some (b ∷ path)

abbrev pub IsEncoded : (Bytes → Bool) → Option Bytes → Type 0
IsEncoded is_utf8 none = Unit {0}
IsEncoded is_utf8 (some text) = is_utf8 text ≡ true

optional_string-Decides :
    (is_utf8 : Bytes → Bool) (text : Option Bytes)
    → Decides (IsEncoded is_utf8 text) (optional_string is_utf8 text) (named text)
unfolding optional_string
optional_string-Decides is_utf8 none = inl (refl, tt)
optional_string-Decides is_utf8 (some []) = elim (Bool-cases (is_utf8 [])) [
  | inl e ↦ inl (rw e refl, e)
  | inr e ↦ inr (rw e refl, λ h. cc)
]
optional_string-Decides is_utf8 (some (b ∷ text)) = elim (Bool-cases (is_utf8 (b ∷ text))) [
  | inl e ↦ inl (rw e refl, e)
  | inr e ↦ inr (rw e refl, λ h. cc)
]

try_from-Decides : (usize_bits n : ℕ) → Decides (n < 2 ^ usize_bits) (try_from usize_bits n) n
unfolding try_from
try_from-Decides usize_bits n = elim (Bool-cases (ltb n (2 ^ usize_bits))) [
  | inl e ↦ inl (rw e refl, ltb→lt n (2 ^ usize_bits) e)
  | inr e ↦ inr (rw e refl, λ h. cc (lt→ltb n (2 ^ usize_bits) h))
]

-- A count of the C side: zero asks for the default.
abbrev pub counted : ℕ → Option ℕ
counted n = if n == 0 then none else some n

abbrev pub IsCount : ℕ → ℕ → Type 0
IsCount usize_bits n = (n ≡ 0) ⊎ (n < 2 ^ usize_bits)

optional_thread_count-Decides :
    (usize_bits n : ℕ)
    → Decides (IsCount usize_bits n) (optional_thread_count usize_bits n) (counted n)
unfolding optional_thread_count
optional_thread_count-Decides usize_bits n = elim (Bool-cases (n == 0)) [
  | inl e ↦ inl (rw e refl, inl (==→eq n 0 e))
  | inr e ↦ elim (try_from-Decides usize_bits n) [
    | inl (fits, below) ↦ inl (rw e (rw fits refl), inr below)
    | inr (over, above) ↦
        inr (rw e (rw over refl), λ h. elim h [ inl z ↦ ground arith | inr below ↦ above below ])
  ]
]

-- What a persistent cache needs of its sizes.
abbrev pub IsPersistent : Bool → ℕ → ℕ → Type 0
IsPersistent false size part_size = Unit {0}
IsPersistent true size part_size = (0 < size) × (0 < part_size) × (part_size % 1024 ≡ 0)

check_persistent-Decides :
    (persistent : Bool) (size part_size : ℕ)
    → Decides
        (IsPersistent persistent size part_size)
        (check_persistent persistent size part_size)
        tt
unfolding check_persistent
check_persistent-Decides false size part_size = inl (refl, tt)
check_persistent-Decides true size part_size = elim (Bool-cases (size == 0)) [
  | inl empty ↦ inr (rw empty refl, λ h. ground arith)
  | inr some_size ↦ elim (Bool-cases ((part_size == 0) || not (part_size % 1024 == 0))) [
    | inl bad ↦ inr (rw some_size (rw bad refl), λ h. ground arith)
    | inr good ↦ inl (rw some_size (rw good refl), (ground arith, ground arith, ground arith))
  ]
]

-- What `parse_cache_config` asks: UTF-8, numbers that fit the platform, and sizes that a persistent
-- cache can use, if there is a path for one.
abbrev pub IsCacheConfig : ℕ → (Bytes → Bool) → FfiCacheConfig → Type 0
IsCacheConfig usize_bits is_utf8 c =
    IsEncoded is_utf8 c.persistent_cache_path
    × ((c.persistent_cache_size_bytes < 2 ^ usize_bits)
        × ((c.persistent_cache_part_size_bytes < 2 ^ usize_bits)
            × (IsPersistent (is_some (named c.persistent_cache_path)) c.persistent_cache_size_bytes
                  c.persistent_cache_part_size_bytes
                × (IsCount usize_bits c.cache_shards × Unit {0}))))

-- The configuration that is accepted.
abbrev pub configured : FfiCacheConfig → CacheConfig
configured c = record {
  block_cache_size_bytes = c.block_cache_size_bytes;
  metadata_cache_size_bytes = c.metadata_cache_size_bytes;
  cache_shards = counted c.cache_shards;
  persistent_cache_path = named c.persistent_cache_path;
  persistent_cache_size_bytes = c.persistent_cache_size_bytes;
  persistent_cache_part_size_bytes = c.persistent_cache_part_size_bytes;
  persistent_cache_on_flush = not (c.persistent_cache_on_flush == 0);
  persistent_cache_on_compaction = not (c.persistent_cache_on_compaction == 0);
}

-- A cache configuration of the C side is accepted exactly if its path is UTF-8, its persistent sizes and
-- its shard count fit the platform, and, where it has a path that is not empty, its size is not zero and
-- its part size is a positive multiple of 1024. It is then taken field by field, with an empty path and a
-- shard count of zero as none and every flag that is not zero as set. Every other one is refused as an
-- invalid argument.
pub parse_cache_config_lem :
    (usize_bits : ℕ) (is_utf8 : Bytes → Bool) (lib : CacheLibrary) (c : FfiCacheConfig)
    → Decides
        (IsCacheConfig usize_bits is_utf8 c)
        (parse_cache_config usize_bits is_utf8 lib (some c))
        (configured c)
unfolding parse_cache_config
parse_cache_config_lem usize_bits is_utf8 lib c =
    Decides-bind _ _ _ _ (optional_string-Decides is_utf8 c.persistent_cache_path) (
      Decides-bind _ _ _ _ (try_from-Decides usize_bits c.persistent_cache_size_bytes) (
        Decides-bind _ _ _ _ (try_from-Decides usize_bits c.persistent_cache_part_size_bytes) (
          Decides-bind _ _ _ _
            (check_persistent-Decides (is_some (named c.persistent_cache_path))
              c.persistent_cache_size_bytes c.persistent_cache_part_size_bytes)
            (Decides-bind _ _ _ _ (optional_thread_count-Decides usize_bits c.cache_shards)
              (inl (refl, tt))))))
