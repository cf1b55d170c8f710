-- ===== src/Judge/FileCache/Host.antt =====
-- app/modules/judge/file_cache.py: the files of the cache, its settings and the remote storage.
-- A text is the list of its code points and a file the list of its bytes. The clock reads whole
-- seconds and is read once in an operation.
use acoj_worker.Common.{
  ℕ, ◌-◌, ltb, Bool, Option, none, some, ◌++◌, take, Text, codes, is_empty, is_some, Dict, get, put,
  remove, [], ◌∷◌, mem, length, drop, ◌==◌, nat_eq, list_eq, if◌then◌else◌, Result, ok, raise,
}
use acoj_worker.Judge.Checker.{Bytes}

-- What `_store` writes beside the data.
pub record Meta : Type 0 where
  pub etag : Text
  pub sha256 : Text
  pub size_bytes : ℕ
  pub object_name : Text
  pub cached_at : ℕ
  pub last_accessed_at : ℕ
  pub last_validated_at : ℕ

-- The files below CACHE_ROOT, the data and the metadata of each key, and those of
-- `_download_direct`. The files are written by the cache only, so a meta file has all its fields.
-- Keys that are different texts have different files.
pub record Cache : Type 0 where
  pub data_files : Dict Text Bytes
  pub meta_files : Dict Text Meta
  pub direct_files : Dict Text Bytes

pub record CacheSettings : Type 0 where
  pub root : Text
  pub enabled : Bool
  pub max_bytes : ℕ
  pub ttl_seconds : ℕ

-- `get_storage()`: the two methods, if the storage has them. `head_object` gives the ETag.
pub record Remote : Type 0 where
  pub head_object : Option (Text → Result Text)
  pub download_bytes : Option (Text → Result Bytes)

abbrev pub revalidate_interval : ℕ
revalidate_interval = 60

abbrev pub touch_cooldown : ℕ
touch_cooldown = 60

abbrev pub lru_grace_period : ℕ
lru_grace_period = 60

-- `_cache_key`
unfoldable pub cache_key : (sha256 object_name : Text) → Text
cache_key sha256 object_name =
    if is_empty sha256 then codes "name:" ++ object_name else codes "sha256:" ++ sha256

-- `_data_path`
unfoldable pub data_path : CacheSettings → Text → Text
data_path cfg key = cfg.root ++ codes "/" ++ take 2 key ++ codes "/" ++ key

abbrev pub slash : ℕ
slash = 47

abbrev pub meta_suffix : Text
meta_suffix = codes ".meta.json"

-- `_meta_path`, from CACHE_ROOT on
unfoldable pub meta_path : Text → Text
meta_path key = take 2 key ++ slash ∷ (key ++ meta_suffix)

-- `Path.name`: what stands behind the last slash
unfoldable pub file_name : Text → Text
file_name [] = []
file_name (c ∷ s) = let rest = file_name s in if mem slash (c ∷ s) then rest else c ∷ s

-- `name[: -len(".meta.json")]`, if the name has that ending
unfoldable pub without_suffix : Text → Option Text
without_suffix name =
    let n = length name - length meta_suffix in
    if drop n name == meta_suffix then some (take n name) else none

-- `_key_from_meta_path`. Of a key with a slash it gives the part behind the last slash, since the
-- file of such a key is in a directory below.
unfoldable pub key_from_meta_path : (meta_file : Text) → Option Text
key_from_meta_path meta_file = without_suffix (file_name meta_file)

-- `dpath.exists()`
abbrev pub exists_data : Text → Cache → Bool
exists_data key c = is_some (get key c.data_files)

-- `_read_meta`
abbrev pub read_meta : Text → Cache → Option Meta
read_meta key c = get key c.meta_files

-- `_write_meta`
abbrev pub write_meta : Text → Meta → Cache → Cache
write_meta key meta c = record c { meta_files = put key meta c.meta_files }

-- `_touch_meta`
unfoldable pub touch_meta : (now : ℕ) → Text → Cache → Cache
touch_meta now key c = elim (read_meta key c) [
  | none ↦ c
  | some meta ↦
      if ltb (now - meta.last_accessed_at) touch_cooldown
      then c
      else write_meta key (record meta { last_accessed_at = now }) c
]

-- `_update_meta`, with the two times that 3b sets
unfoldable pub validate_meta : (now : ℕ) → Text → Cache → Cache
validate_meta now key c = elim (read_meta key c) [
  | none ↦ c
  | some meta ↦ write_meta key (record meta { last_validated_at = now; last_accessed_at = now }) c
]

-- `_remove_entry`; the files are there or not, and `unlink` does not fail.
unfoldable pub remove_entry : Text → Cache → Cache
remove_entry key c = record c {
  data_files = remove key c.data_files;
  meta_files = remove key c.meta_files;
}

-- `_head_or_none`
unfoldable pub head_or_none : Remote → Text → Option Text
head_or_none remote object_name = elim (remote.head_object) [
  | none ↦ none
  | some head ↦ elim (head object_name) [ ok etag ↦ some etag | raise x ↦ none ]
]
