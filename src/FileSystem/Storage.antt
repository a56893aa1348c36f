-- ===== src/FileSystem/Storage.antt =====
-- rust/src/fs.rs: the storage that a filesystem is opened on. An OpenDAL builder is the list of the
-- settings that the source makes, in order; what OpenDAL builds from them is a parameter.
use duckdb_object_storage.Common.{
  Bool, true, false, not, ◌&&◌, Option, none, some, List, [], ◌∷◌, ◌++◌, if◌then◌else◌,
}
use duckdb_object_storage.Error.{
  Error, Result, ok, err, argument_error, io_error, IoErrorKind, from_io, map_err, ◌>>=◌, ◌>>◌,
}
use duckdb_object_storage.Keys.{Bytes}
use duckdb_object_storage.Cache.{CacheConfig, default_config}
use duckdb_object_storage.FileSystem.{
  Backend, SlateDbFileSystem, open_with_cache_config, contains, is_some,
}

pub record S3StorageConfig : Type 0 where
  pub bucket : Bytes
  pub root : Option Bytes
  pub endpoint : Option Bytes
  pub region : Option Bytes
  pub key_id : Option Bytes
  pub secret : Option Bytes
  pub session_token : Option Bytes
  pub use_ssl : Bool
  pub virtual_host_style : Bool

-- The methods of the S3 builder that the source calls.
pub data S3Setting : Type 0 where
  bucket root endpoint region access_key_id secret_access_key session_token : Bytes → S3Setting
  disable_config_load disable_ec2_metadata skip_signature enable_virtual_host_style : S3Setting

abbrev optional {ℓ} : {A : Type ℓ} → (A → List S3Setting) → Option A → List S3Setting
optional settings none = []
optional settings (some a) = settings a

-- ://, https:// and http://
abbrev scheme_mark : Bytes
scheme_mark = b':' ∷ b'/' ∷ b'/' ∷ []

abbrev https : Bytes
https = b'h' ∷ b't' ∷ b't' ∷ b'p' ∷ b's' ∷ b':' ∷ b'/' ∷ b'/' ∷ []

abbrev http : Bytes
http = b'h' ∷ b't' ∷ b't' ∷ b'p' ∷ b':' ∷ b'/' ∷ b'/' ∷ []

unfoldable pub endpoint_url : Bool → Bytes → Bytes
endpoint_url use_ssl url =
    if contains url scheme_mark then url else if use_ssl then https ++ url else http ++ url

unfoldable pub credentials : Option Bytes → Option Bytes → Option Bytes → List S3Setting
credentials (some key) (some password) token =
    access_key_id key ∷ secret_access_key password ∷ optional (λ t. session_token t ∷ []) token
credentials (some key) none token = skip_signature ∷ []
credentials none password token = skip_signature ∷ []

-- The settings of `build_s3_operator`, in the order of its calls.
unfoldable pub s3_settings : S3StorageConfig → List S3Setting
s3_settings config =
    (bucket config.bucket ∷ disable_config_load ∷ disable_ec2_metadata ∷ [])
    ++ (optional (λ r. root r ∷ []) config.root
        ++ (optional (λ e. endpoint (endpoint_url config.use_ssl e) ∷ []) config.endpoint
            ++ (optional (λ r. region r ∷ []) config.region
                ++ (credentials config.key_id config.secret config.session_token
                    ++ (if config.virtual_host_style
                        then enable_virtual_host_style ∷ []
                        else [])))))

abbrev is_empty : Bytes → Bool
is_empty [] = true
is_empty (b ∷ bytes) = false

abbrev differ : Bool → Bool → Bool
differ true b = not b
differ false b = b

unfoldable pub check_s3 : S3StorageConfig → Result Error (Unit {0})
check_s3 config =
    if is_empty config.bucket
    then err argument_error
    else if differ (is_some config.key_id) (is_some config.secret)
    then err argument_error
    else if is_some config.session_token && not (is_some config.key_id)
    then err argument_error
    else ok tt

-- What the crate calls of OpenDAL and of the operating system to get at its storage. Paths of the
-- operating system are their own type, since not every one is UTF-8.
pub record OpenDal : Type 1 where
  pub Operator : Type 0
  pub BuildError : Type 0
  pub OsPath : Type 0
  pub new_s3 : List S3Setting → Result BuildError Operator
  pub new_memory : Result BuildError Operator
  -- The local service, by its root and its directory for atomic writes.
  pub new_fs : Bytes → Bytes → Result BuildError Operator
  pub scheme : Operator → Bytes
  pub name : Operator → Bytes
  pub root : Operator → Bytes
  pub to_str : OsPath → Option Bytes
  pub join : OsPath → Bytes → OsPath
  pub create_dir_all : OsPath → Result IoErrorKind (Unit {0})

-- .atomic-write
abbrev atomic_write : Bytes
atomic_write =
    b'.' ∷ b'a' ∷ b't' ∷ b'o' ∷ b'm' ∷ b'i' ∷ b'c' ∷ b'-' ∷ b'w' ∷ b'r' ∷ b'i' ∷ b't' ∷ b'e' ∷ []

abbrev utf8_or : Option Bytes → Result Error Bytes
utf8_or none = err argument_error
utf8_or (some text) = ok text

module _ (dal : OpenDal) where
  unfoldable pub build_s3_operator : S3StorageConfig → Result Error dal.Operator
  build_s3_operator config =
      check_s3 config >> map_err (λ _. io_error) (dal.new_s3 (s3_settings config))

  -- The scheme, the name and the root of the backing store.
  unfoldable pub store_location : dal.Operator → Bytes
  store_location operator =
      dal.scheme operator ++ (scheme_mark ++ (dal.name operator ++ dal.root operator))

  module _ (B : Backend) where
    unfoldable pub open_operator :
        Bytes → dal.Operator → CacheConfig → Result Error (SlateDbFileSystem B)
    open_operator database_path operator cache_config =
        open_with_cache_config B database_path (store_location operator) cache_config

    unfoldable pub open_s3_with_cache_config :
        Bytes → S3StorageConfig → CacheConfig → Result Error (SlateDbFileSystem B)
    open_s3_with_cache_config database_path config cache_config = do
      operator ← build_s3_operator config
      open_operator database_path operator cache_config

    unfoldable pub open_in_memory_with_cache_config :
        Bytes → CacheConfig → Result Error (SlateDbFileSystem B)
    open_in_memory_with_cache_config database_path cache_config = do
      operator ← map_err (λ _. io_error) dal.new_memory
      open_operator database_path operator cache_config

    unfoldable pub open_local_with_cache_config :
        Bytes → dal.OsPath → CacheConfig → Result Error (SlateDbFileSystem B)
    open_local_with_cache_config database_path local_root cache_config = do
      root_str ← utf8_or (dal.to_str local_root)
      _ ← map_err from_io (dal.create_dir_all local_root)
      atomic_write_dir ← utf8_or (dal.to_str (dal.join local_root atomic_write))
      operator ← map_err (λ _. io_error) (dal.new_fs root_str atomic_write_dir)
      open_operator database_path operator cache_config

    -- The same with the default caches.
    unfoldable pub open_with_defaults : Bytes → dal.Operator → Result Error (SlateDbFileSystem B)
    open_with_defaults database_path operator =
        open_operator database_path operator (default_config B.lib)

    unfoldable pub open_s3 : Bytes → S3StorageConfig → Result Error (SlateDbFileSystem B)
    open_s3 database_path config = do
      operator ← build_s3_operator config
      open_with_defaults database_path operator

    unfoldable pub open_in_memory : Bytes → Result Error (SlateDbFileSystem B)
    open_in_memory database_path =
        open_in_memory_with_cache_config database_path (default_config B.lib)

    unfoldable pub open_local : Bytes → dal.OsPath → Result Error (SlateDbFileSystem B)
    open_local database_path local_root =
        open_local_with_cache_config database_path local_root (default_config B.lib)
