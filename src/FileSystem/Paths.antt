-- ===== src/FileSystem/Paths.antt =====
-- rust/src/fs.rs: the strings that name a database: its group, its path and its cache ID.
use Prim.Native.Nat.{bit_xor}
use duckdb_object_storage.Common.{
  ℕ, ◌*◌, Bool, false, not, Option, none, some, List, [], ◌∷◌, ◌++◌, ◌==◌, if◌then◌else◌, wrap,
}
use duckdb_object_storage.Keys.{Bytes}
use duckdb_object_storage.Keys.Order.{starts_with, bytes_eq}

-- `PREFIX`: duckdb_objfs:
abbrev pub prefix : Bytes
prefix =
    b'd' ∷ b'u' ∷ b'c' ∷ b'k' ∷ b'd' ∷ b'b' ∷ b'_' ∷ b'o' ∷ b'b' ∷ b'j' ∷ b'f' ∷ b's' ∷ b':' ∷ []

-- `NAME`: SlateDBFileSystem
abbrev pub name : Bytes
name =
    b'S' ∷ b'l' ∷ b'a' ∷ b't' ∷ b'e' ∷ b'D' ∷ b'B' ∷ b'F' ∷ b'i' ∷ b'l' ∷ b'e' ∷ b'S' ∷ b'y' ∷ b's'
    ∷ b't' ∷ b'e' ∷ b'm' ∷ []

-- .wal, .wal.checkpoint and .wal.recovery
abbrev pub wal : Bytes
wal = b'.' ∷ b'w' ∷ b'a' ∷ b'l' ∷ []

abbrev pub wal_checkpoint : Bytes
wal_checkpoint =
    b'.' ∷ b'w' ∷ b'a' ∷ b'l' ∷ b'.' ∷ b'c' ∷ b'h' ∷ b'e' ∷ b'c' ∷ b'k' ∷ b'p' ∷ b'o' ∷ b'i' ∷ b'n'
    ∷ b't' ∷ []

abbrev pub wal_recovery : Bytes
wal_recovery =
    b'.' ∷ b'w' ∷ b'a' ∷ b'l' ∷ b'.' ∷ b'r' ∷ b'e' ∷ b'c' ∷ b'o' ∷ b'v' ∷ b'e' ∷ b'r' ∷ b'y' ∷ []

-- `DATABASE_COMPANION_SUFFIXES`
abbrev pub database_companion_suffixes : List Bytes
database_companion_suffixes = wal ∷ wal_checkpoint ∷ wal_recovery ∷ []

abbrev cons_some : ℕ → Option Bytes → Option Bytes
cons_some b none = none
cons_some b (some rest) = some (b ∷ rest)

-- `str::strip_suffix`
unfoldable pub strip_suffix : Bytes → Bytes → Option Bytes
strip_suffix suffix [] = if bytes_eq [] suffix then some [] else none
strip_suffix suffix (b ∷ path) =
    if bytes_eq (b ∷ path) suffix then some [] else cons_some b (strip_suffix suffix path)

-- `str::ends_with` of one character
unfoldable pub ends_with : ℕ → Bytes → Bool
ends_with c [] = false
ends_with c (b ∷ []) = b == c
ends_with c (b ∷ b' ∷ path) = ends_with c (b' ∷ path)

-- What names a database: neither empty nor the path of a directory.
unfoldable pub is_database : Bytes → Bool
is_database [] = false
is_database (b ∷ path) = not (ends_with b'/' (b ∷ path))

unfoldable pub group_without : Option Bytes → Bytes → Bytes
group_without none other = other
group_without (some database) other = if is_database database then database else other

unfoldable pub group_among : List Bytes → Bytes → Bytes
group_among [] path = path
group_among (suffix ∷ suffixes) path =
    group_without (strip_suffix suffix path) (group_among suffixes path)

unfoldable pub database_group : Bytes → Bytes
database_group path = group_among database_companion_suffixes path

-- `str::replace` of one character
unfoldable pub replace : ℕ → Bytes → Bytes → Bytes
replace c by [] = []
replace c by (b ∷ path) = if b == c then by ++ replace c by path else b ∷ replace c by path

-- The group with every % as %25 and every / as %2F.
unfoldable pub flatten : Bytes → Bytes
flatten group =
    replace b'/' (b'%' ∷ b'2' ∷ b'F' ∷ []) (replace b'%' (b'%' ∷ b'2' ∷ b'5' ∷ []) group)

-- `slatedb_path`, from the filesystem's `database_path`.
unfoldable pub slatedb_path : Bytes → Bytes → Bytes
slatedb_path database_path group = database_path ++ (b'/' ∷ flatten group)

hash_bytes : ℕ → Bytes → ℕ
hash_bytes hash [] = hash
hash_bytes hash (b ∷ value) = hash_bytes (wrap (bit_xor hash b * 1099511628211)) value

unfoldable pub stable_hash : Bytes → ℕ
unfolding hash_bytes
stable_hash value = hash_bytes 14695981039346656037 value

-- `db_cache_id`, from the filesystem's `store_location` and `database_path`.
unfoldable pub db_cache_id : Bytes → Bytes → Bytes → ℕ
db_cache_id store_location database_path group =
    stable_hash (store_location ++ (b'|' ∷ slatedb_path database_path group))

unfoldable pub can_handle : Bytes → Bool
can_handle path = starts_with prefix path
