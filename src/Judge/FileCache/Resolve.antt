-- ===== src/Judge/FileCache/Resolve.antt =====
-- app/modules/judge/file_cache.py: resolve_or_download. `digest` is `sha256(...).hexdigest()`. The
-- texts of the two exceptions leave out the names and the hashes that the code puts in.
use acoj_worker.Common.{
  ℕ, ◌-◌, ltb, Bool, false, not, ◌&&◌, Option, none, some, map, length, Text, is_empty, put, nat_eq,
  list_eq, ◌==◌, if◌then◌else◌, runtime_error, Result, ok, raise,
}
use acoj_worker.Common.Exec.{Exec}
use acoj_worker.Judge.Checker.{Bytes}
use acoj_worker.Judge.FileCache.Host.{
  Meta, Cache, CacheSettings, Remote, revalidate_interval, cache_key, data_path, exists_data,
  read_meta, touch_meta, validate_meta, remove_entry, head_or_none,
}
use acoj_worker.Judge.FileCache.Evict.{evict_lru_if_needed}

-- `object_name.replace("/", "_")`
unfoldable pub flat_name : Text → Text
flat_name object_name = map (λ ch. if ch == 47 then 95 else ch) object_name

-- `_download_direct`
unfoldable pub download_direct : Remote → (object_name : Text) → Exec Cache (Option Text)
download_direct remote object_name c = elim (remote.download_bytes) [
  | none ↦ (ok none, c)
  | some download ↦ elim (download object_name) [
    | raise x ↦ (raise x, c)
    | ok content ↦ (
      ok (some (flat_name object_name)),
      record c { direct_files = put (flat_name object_name) content c.direct_files },
    )
  ]
]

-- `_download`
unfoldable pub download : Remote → Text → Result Bytes
download remote object_name = elim (remote.download_bytes) [
  | none ↦ raise (runtime_error "Storage does not support download_bytes")
  | some f ↦ f object_name
]

-- `meta and (time.time() - meta.get("last_validated_at", 0)) < REVALIDATE_INTERVAL`
unfoldable pub is_fresh : (now : ℕ) → Option Meta → Bool
is_fresh now none = false
is_fresh now (some meta) = ltb (now - meta.last_validated_at) revalidate_interval

-- `meta and meta.get("etag") == remote_etag`
unfoldable pub has_etag : Text → Option Meta → Bool
has_etag etag none = false
has_etag etag (some meta) = meta.etag == etag

module _ (cfg : CacheSettings) (locked : Text → Bool) (digest : Bytes → Text) (now : ℕ) where
  -- `_store`: the data, the meta file, and the LRU check.
  unfoldable pub store :
      (key : Text) → (content : Bytes) → (sha256 etag object_name : Text) → Cache → Cache
  store key content sha256 etag object_name c = evict_lru_if_needed cfg locked now 0 (record c {
    data_files = put key content c.data_files;
    meta_files =
        put key
          (record {
            etag = etag;
            sha256 = sha256;
            size_bytes = length content;
            object_name = object_name;
            cached_at = now;
            last_accessed_at = now;
            last_validated_at = now;
          })
          c.meta_files;
  })

  -- 3c: the content is downloaded, checked against a hash that is given, and stored.
  unfoldable pub store_checked :
      (object_name sha256 key etag : Text) → Result Bytes → Exec Cache (Option Text)
  store_checked object_name sha256 key etag (raise x) c = (raise x, c)
  store_checked object_name sha256 key etag (ok content) c =
      if is_empty sha256
      then (ok (some (data_path cfg key)), store key content (digest content) etag object_name c)
      else if digest content == sha256
      then (ok (some (data_path cfg key)), store key content sha256 etag object_name c)
      else (raise (runtime_error "SHA256 mismatch"), c)

  -- 3: what is done with the answer of the remote storage.
  unfoldable pub ask_remote :
      Remote → (object_name sha256 key : Text) → Option Text → Exec Cache (Option Text)
  ask_remote remote object_name sha256 key none c =
      if not (is_empty sha256) && exists_data key c
      then (ok (some (data_path cfg key)), touch_meta now key c)
      else (ok none, if exists_data key c then remove_entry key c else c)
  ask_remote remote object_name sha256 key (some etag) c =
      if exists_data key c && has_etag etag (read_meta key c)
      then (ok (some (data_path cfg key)), validate_meta now key c)
      else store_checked object_name sha256 key etag (download remote object_name)
          (if exists_data key c then remove_entry key c else c)

  -- `_resolve_or_download_locked`
  unfoldable pub resolve_or_download_locked :
      Remote → (object_name sha256 key : Text) → Exec Cache (Option Text)
  resolve_or_download_locked remote object_name sha256 key c =
      if not (is_empty sha256) && exists_data key c
      then (ok (some (data_path cfg key)), touch_meta now key c)
      else if is_empty sha256 && (exists_data key c && is_fresh now (read_meta key c))
      then (ok (some (data_path cfg key)), touch_meta now key c)
      else ask_remote remote object_name sha256 key (head_or_none remote object_name) c

  -- `resolve_or_download`
  unfoldable pub resolve_or_download :
      Remote → (object_name sha256 : Text) → Exec Cache (Option Text)
  resolve_or_download remote object_name sha256 c =
      if not cfg.enabled
      then download_direct remote object_name c
      else resolve_or_download_locked remote object_name sha256 (cache_key sha256 object_name) c
