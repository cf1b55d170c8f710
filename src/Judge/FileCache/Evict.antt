-- ===== src/Judge/FileCache/Evict.antt =====
-- app/modules/judge/file_cache.py: invalidate, purge_expired and the LRU eviction. `locked` says
-- which keys another thread has locked, so that `_try_key_lock` does not get them.
use acoj_worker.Common.{
  ℕ, ◌+◌, ◌-◌, ◌*◌, ◌/◌, ltb, leb, Bool, not, List, [], ◌∷◌, select, Text, Dict, is_empty, Option,
  some, none, if◌then◌else◌,
}
use acoj_worker.Judge.FileCache.Host.{
  Meta, Cache, CacheSettings, lru_grace_period, cache_key, remove_entry, meta_path,
  key_from_meta_path,
}

-- An element of `_collect_stats`.
pub record Stat : Type 0 where
  pub key : Text
  pub size : ℕ
  pub last_accessed_at : ℕ

unfoldable pub collect_stats : Dict Text Meta → List Stat
collect_stats [] = []
collect_stats ((k, meta) ∷ d) =
    let rest = collect_stats d in
    elim (key_from_meta_path (meta_path k)) [
      | none ↦ rest
      | some key ↦
          if is_empty key
          then rest
          else record {
            key = key;
            size = meta.size_bytes;
            last_accessed_at = meta.last_accessed_at;
          }
            ∷ rest
    ]

unfoldable pub calculate_total_size : Dict Text Meta → ℕ
calculate_total_size [] = 0
calculate_total_size ((k, meta) ∷ d) = meta.size_bytes + calculate_total_size d

-- `candidates.sort(key=...)`, a stable sort
unfoldable pub insert_stat : Stat → List Stat → List Stat
insert_stat e [] = e ∷ []
insert_stat e (x ∷ xs) =
    let rest = insert_stat e xs in
    if leb e.last_accessed_at x.last_accessed_at then e ∷ x ∷ xs else x ∷ rest

unfoldable pub sort_stats : List Stat → List Stat
sort_stats [] = []
sort_stats (x ∷ xs) = insert_stat x (sort_stats xs)

-- The loop of `_evict_lru`.
unfoldable pub evict_candidates :
    (locked : Text → Bool) → (need_bytes freed : ℕ) → List Stat → Cache → Cache
evict_candidates locked need_bytes freed [] c = c
evict_candidates locked need_bytes freed (e ∷ es) c =
    let skipped = evict_candidates locked need_bytes freed es c in
    let removed = evict_candidates locked need_bytes (freed + e.size) es (remove_entry e.key c) in
    if leb need_bytes freed then c else if locked e.key then skipped else removed

abbrev pub is_old : (now : ℕ) → Stat → Bool
is_old now e = ltb lru_grace_period (now - e.last_accessed_at)

-- `_evict_lru`
unfoldable pub evict_lru : (locked : Text → Bool) → (now need_bytes : ℕ) → Cache → Cache
evict_lru locked now need_bytes c =
    evict_candidates locked need_bytes 0
      (sort_stats (select (is_old now) (collect_stats c.meta_files))) c

-- `_evict_lru_if_needed`; the product with EVICT_TARGET_RATIO, 0.8, is exact here.
unfoldable pub evict_lru_if_needed :
    CacheSettings → (locked : Text → Bool) → (now new_size : ℕ) → Cache → Cache
evict_lru_if_needed cfg locked now new_size c =
    let total = calculate_total_size c.meta_files in
    if leb (total + new_size) cfg.max_bytes
    then c
    else evict_lru locked now ((5 * (total + new_size) - 4 * cfg.max_bytes) / 5) c

-- `invalidate`
unfoldable pub invalidate : CacheSettings → (object_name sha256 : Text) → Cache → Cache
invalidate cfg object_name sha256 c =
    if not cfg.enabled then c else remove_entry (cache_key sha256 object_name) c

-- What `purge_expired` does with the key of a meta file whose `last_accessed_at` is too old.
abbrev pub purge_key : (locked : Text → Bool) → Option Text → Cache → Cache
purge_key locked none c = c
purge_key locked (some key) c =
    if is_empty key then c else if locked key then c else remove_entry key c

-- The loop of `purge_expired`, over the meta files that are there when it starts.
unfoldable pub purge_from :
    CacheSettings → (locked : Text → Bool) → (now : ℕ) → Dict Text Meta → Cache → Cache
purge_from cfg locked now [] c = c
purge_from cfg locked now ((k, meta) ∷ d) c =
    let expired = ltb cfg.ttl_seconds (now - meta.last_accessed_at) in
    purge_from cfg locked now d
      (if expired then purge_key locked (key_from_meta_path (meta_path k)) c else c)

-- `purge_expired`
unfoldable pub purge_expired : CacheSettings → (locked : Text → Bool) → (now : ℕ) → Cache → Cache
purge_expired cfg locked now c =
    if not cfg.enabled then c else purge_from cfg locked now c.meta_files c
