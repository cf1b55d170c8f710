-- ===== src/Judge/FileCache/Sound.antt =====
-- The content that the cache has under a hash has that hash.
use acoj_worker.Common.{
  ℕ, ◌+◌, ◌-◌, ltb, leb, Bool, true, false, not, ◌&&◌, Option, none, some, List, [], ◌∷◌, ◌++◌,
  Text, codes, is_empty, Dict, get, get-put, get-remove, nat_eq, list_eq, ◌==◌, if◌then◌else◌,
  Result, ok, raise, ◌≡◌, refl, arith, list_beq_iff, ◌∙◌,
}
use acoj_worker.Judge.Checker.{Bytes}
use acoj_worker.Judge.FileCache.Host.{
  Meta, Cache, CacheSettings, Remote, cache_key, exists_data, read_meta, touch_meta, validate_meta,
  remove_entry, head_or_none, meta_path, key_from_meta_path,
}
use acoj_worker.Judge.FileCache.Evict.{
  Stat, evict_candidates, evict_lru, evict_lru_if_needed, invalidate, purge_key, purge_from,
  purge_expired,
}
use acoj_worker.Judge.FileCache.Resolve.{
  download_direct, download, store, store_checked, is_fresh, has_etag, ask_remote,
  resolve_or_download_locked, resolve_or_download,
}

-- What is cached in `c` is cached in `c'` too, with the same content.
abbrev pub Within : Cache → Cache → Type 0
Within c c' = (k : Text) (d : Bytes) → get k c.data_files ≡ some d → get k c'.data_files ≡ some d

abbrev pub IsSound : (digest : Bytes → Text) → Cache → Type 0
IsSound digest c =
    (sha256 : Text) (d : Bytes)
    → get (codes "sha256:" ++ sha256) c.data_files ≡ some d
    → digest d ≡ sha256

touch_meta-Within : (now : ℕ) (key : Text) (c : Cache) → Within (touch_meta now key c) c
unfolding touch_meta
touch_meta-Within now key c k d h = ground arith

validate_meta-Within : (now : ℕ) (key : Text) (c : Cache) → Within (validate_meta now key c) c
unfolding validate_meta
validate_meta-Within now key c k d h = ground arith

pub remove_entry-Within : (key : Text) (c : Cache) → Within (remove_entry key c) c
unfolding remove_entry
remove_entry-Within key c k d h = let r = get-remove key k c.data_files in ground arith

remove_if-Within :
    (b : Bool) (key : Text) (c : Cache) → Within (if b then remove_entry key c else c) c
remove_if-Within true key c = remove_entry-Within key c
remove_if-Within false key c = λ k d h. h

if-Within :
    (b : Bool) (c1 c2 c : Cache) → Within c1 c → Within c2 c → Within (if b then c1 else c2) c
if-Within true c1 c2 c h1 h2 = h1
if-Within false c1 c2 c h1 h2 = h2

evict_candidates-Within :
    (locked : Text → Bool) (need_bytes freed : ℕ) (es : List Stat) (c : Cache)
    → Within (evict_candidates locked need_bytes freed es c) c
unfolding evict_candidates
evict_candidates-Within locked need_bytes freed [] c = λ k d h. h
evict_candidates-Within locked need_bytes freed (e ∷ es) c =
    if-Within (leb need_bytes freed) c _ c (λ k d h. h)
      (if-Within (locked e.key) _ _ c (evict_candidates-Within locked need_bytes freed es c)
        (λ k d h. remove_entry-Within e.key c k d (
          evict_candidates-Within locked need_bytes (freed + e.size) es (remove_entry e.key c) k d
            h)))

evict_lru_if_needed-Within :
    (cfg : CacheSettings) (locked : Text → Bool) (now new_size : ℕ) (c : Cache)
    → Within (evict_lru_if_needed cfg locked now new_size c) c
unfolding evict_lru_if_needed evict_lru
evict_lru_if_needed-Within cfg locked now new_size c =
    if-Within _ c _ c (λ k d h. h) (evict_candidates-Within locked _ 0 _ c)

purge_key-Within :
    (locked : Text → Bool) (key : Option Text) (c : Cache) → Within (purge_key locked key c) c
purge_key-Within locked none c = λ k d h. h
purge_key-Within locked (some key) c =
    if-Within (is_empty key) c _ c (λ k d h. h)
      (if-Within (locked key) c (remove_entry key c) c (λ k d h. h) (remove_entry-Within key c))

pub purge_from-Within :
    (cfg : CacheSettings) (locked : Text → Bool) (now : ℕ) (metas : Dict Text Meta) (c : Cache)
    → Within (purge_from cfg locked now metas c) c
unfolding purge_from
purge_from-Within cfg locked now [] c k d h = h
purge_from-Within cfg locked now ((key, meta) ∷ metas) c k d h =
    let expired = ltb cfg.ttl_seconds (now - meta.last_accessed_at) in
    let purged = purge_key locked (key_from_meta_path (meta_path key)) c in
    if-Within expired purged c c (purge_key-Within locked (key_from_meta_path (meta_path key)) c)
      (λ k' d' h'. h') k d
      (purge_from-Within cfg locked now metas (if expired then purged else c) k d h)

-- The two upkeep operations only remove.
pub purge_expired-Within :
    (cfg : CacheSettings) (locked : Text → Bool) (now : ℕ) (c : Cache)
    → Within (purge_expired cfg locked now c) c
unfolding purge_expired
purge_expired-Within cfg locked now c =
    if-Within (not cfg.enabled) c _ c (λ k d h. h) (purge_from-Within cfg locked now c.meta_files c)

pub invalidate-Within :
    (cfg : CacheSettings) (object_name sha256 : Text) (c : Cache)
    → Within (invalidate cfg object_name sha256 c) c
unfolding invalidate
invalidate-Within cfg object_name sha256 c =
    if-Within (not cfg.enabled) c _ c (λ k d h. h) (remove_entry-Within _ c)

download_direct-Within :
    (remote : Remote) (object_name : Text) (c : Cache)
    → Within (download_direct remote object_name c).1 c
unfolding download_direct
download_direct-Within remote object_name c k d h = ground arith

-- A key of a hash is the key of no name, and of no other hash.
cache_key-sha256 :
    (sha256 object_name s : Text)
    → cache_key sha256 object_name ≡ codes "sha256:" ++ s
    → (is_empty sha256 ≡ false) × (sha256 ≡ s)
unfolding cache_key
cache_key-sha256 [] object_name s h = absurd (ground arith)
cache_key-sha256 (x ∷ xs) object_name s h = (refl, ground arith)

module _ (cfg : CacheSettings) (locked : Text → Bool) (digest : Bytes → Text) (now : ℕ) where
  store-IsSound :
      (key : Text) (content : Bytes) (sha256 etag object_name : Text) (c : Cache)
      → ((s : Text) → key ≡ codes "sha256:" ++ s → digest content ≡ s)
      → IsSound digest c
      → IsSound digest (store cfg locked digest now key content sha256 etag object_name c)
  unfolding store
  store-IsSound key content sha256 etag object_name c fits sound s d h =
      let there = evict_lru_if_needed-Within cfg locked now 0 _ (codes "sha256:" ++ s) d h in
      let g = get-put key (codes "sha256:" ++ s) content c.data_files in
      let same = list_beq_iff key (codes "sha256:" ++ s) in
      let before = sound s d in let found = fits s in ground arith

  abbrev Sound : Result (Option Text) × Cache → Type 0
  Sound rc = IsSound digest rc.1

  if-Sound :
      (b : Bool) (x y : Result (Option Text) × Cache)
      → (b ≡ true → Sound x)
      → (b ≡ false → Sound y)
      → Sound (if b then x else y)
  if-Sound true x y hx hy = hx refl
  if-Sound false x y hx hy = hy refl

  store_checked-Sound :
      (object_name sha256 etag : Text) (content : Result Bytes) (c : Cache)
      → IsSound digest c
      → Sound (
          store_checked cfg locked digest now object_name sha256
            (cache_key sha256 object_name)
            etag
            content
            c)
  unfolding store_checked
  store_checked-Sound object_name sha256 etag (raise x) c sound = sound
  store_checked-Sound object_name sha256 etag (ok content) c sound =
      if-Sound (is_empty sha256) _ _
        (λ none_given.
          store-IsSound (cache_key sha256 object_name) content (digest content) etag object_name c
            (λ s same.
              let (given, _) = cache_key-sha256 sha256 object_name s same in absurd (ground arith))
            sound)
        (λ given.
          if-Sound (digest content == sha256) _ _
            (λ equal.
              store-IsSound (cache_key sha256 object_name) content sha256 etag object_name c
                (λ s same.
                  let (_, hash) = cache_key-sha256 sha256 object_name s same in
                  (list_beq_iff (digest content) sha256).0 equal ∙ hash)
                sound)
            (λ differs. sound))

  ask_remote-Sound :
      (remote : Remote) (object_name sha256 : Text) (head : Option Text) (c : Cache)
      → IsSound digest c
      → Sound (
          ask_remote cfg locked digest now remote object_name sha256
            (cache_key sha256 object_name)
            head
            c)
  unfolding ask_remote
  ask_remote-Sound remote object_name sha256 none c sound =
      let key = cache_key sha256 object_name in
      if-Sound (not (is_empty sha256) && exists_data key c) _ _
        (λ _ s d h. sound s d (touch_meta-Within now key c _ d h))
        (λ _ s d h. sound s d (remove_if-Within (exists_data key c) key c _ d h))
  ask_remote-Sound remote object_name sha256 (some etag) c sound =
      let key = cache_key sha256 object_name in
      if-Sound (exists_data key c && has_etag etag (read_meta key c)) _ _
        (λ _ s d h. sound s d (validate_meta-Within now key c _ d h))
        (λ _.
          store_checked-Sound object_name sha256 etag (download remote object_name)
            (if exists_data key c then remove_entry key c else c)
            (λ s d h. sound s d (remove_if-Within (exists_data key c) key c _ d h)))

  -- `resolve_or_download` keeps it that the content under each hash has that hash, whatever the
  -- remote storage answers, also where it raises.
  pub resolve_or_download-IsSound :
      (remote : Remote) (object_name sha256 : Text) (c : Cache)
      → IsSound digest c
      → IsSound digest (resolve_or_download cfg locked digest now remote object_name sha256 c).1
  unfolding resolve_or_download resolve_or_download_locked download_direct
  resolve_or_download-IsSound remote object_name sha256 c sound =
      let key = cache_key sha256 object_name in
      if-Sound (not cfg.enabled) _ _
        (λ _ s d h. sound s d (download_direct-Within remote object_name c _ d h))
        (λ _.
          if-Sound (not (is_empty sha256) && exists_data key c) _ _
            (λ _ s d h. sound s d (touch_meta-Within now key c _ d h))
            (λ _.
              if-Sound (is_empty sha256 && (exists_data key c && is_fresh now (read_meta key c))) _
                _ (λ _ s d h. sound s d (touch_meta-Within now key c _ d h))
                (λ _.
                  ask_remote-Sound remote object_name sha256 (head_or_none remote object_name) c
                    sound)))
