-- ===== src/Judge/FileCache/History.antt =====
-- The cache after any sequence of its operations.
use acoj_worker.Common.{
  ℕ, Bool, true, false, some, List, [], ◌∷◌, ◌++◌, Text, codes, is_empty, get, nat_eq, list_eq, ok,
  ◌≡◌, refl, subst, arith,
}
use acoj_worker.Judge.Checker.{Bytes}
use acoj_worker.Judge.FileCache.Host.{
  Cache, CacheSettings, Remote, cache_key, data_path, touch_meta,
}
use acoj_worker.Judge.FileCache.Evict.{invalidate, purge_expired}
use acoj_worker.Judge.FileCache.Resolve.{resolve_or_download, resolve_or_download_locked}
use acoj_worker.Judge.FileCache.Sound.{
  IsSound, purge_expired-Within, invalidate-Within, resolve_or_download-IsSound,
}

-- A call, with the time, the keys that other threads hold, and the remote storage as it is then.
pub data Call : Type 0 where
  resolve : (now : ℕ) → (locked : Text → Bool) → Remote → (object_name sha256 : Text) → Call
  invalidate_one : (object_name sha256 : Text) → Call
  purge : (now : ℕ) → (locked : Text → Bool) → Call

abbrev pub no_files : Cache
no_files = record { data_files = []; meta_files = []; direct_files = [] }

touch_meta-data :
    (now : ℕ) (key : Text) (c : Cache) → (touch_meta now key c).data_files ≡ c.data_files
unfolding touch_meta
touch_meta-data now key c = ground arith

cache_key-given :
    (sha256 object_name : Text)
    → is_empty sha256 ≡ false
    → cache_key sha256 object_name ≡ codes "sha256:" ++ sha256
unfolding cache_key
cache_key-given [] object_name h = absurd (ground arith)
cache_key-given (x ∷ xs) object_name h = refl

module _ (cfg : CacheSettings) (digest : Bytes → Text) where
  unfoldable pub run_call : Call → Cache → Cache
  run_call (resolve now locked remote object_name sha256) c =
      (resolve_or_download cfg locked digest now remote object_name sha256 c).1
  run_call (invalidate_one object_name sha256) c = invalidate cfg object_name sha256 c
  run_call (purge now locked) c = purge_expired cfg locked now c

  unfoldable pub run_calls : List Call → Cache → Cache
  run_calls [] c = c
  run_calls (call ∷ calls) c = run_calls calls (run_call call c)

  run_call-IsSound : (call : Call) (c : Cache) → IsSound digest c → IsSound digest (run_call call c)
  unfolding run_call
  run_call-IsSound (resolve now locked remote object_name sha256) c sound =
      resolve_or_download-IsSound cfg locked digest now remote object_name sha256 c sound
  run_call-IsSound (invalidate_one object_name sha256) c sound =
      λ s d h. sound s d (invalidate-Within cfg object_name sha256 c _ d h)
  run_call-IsSound (purge now locked) c sound =
      λ s d h. sound s d (purge_expired-Within cfg locked now c _ d h)

  run_calls-IsSound :
      (calls : List Call) (c : Cache) → IsSound digest c → IsSound digest (run_calls calls c)
  unfolding run_calls
  run_calls-IsSound [] c sound = sound
  run_calls-IsSound (call ∷ calls) c sound =
      run_calls-IsSound calls (run_call call c) (run_call-IsSound call c sound)

  -- With the cache enabled, and after any calls on an empty cache: a file that is cached under a
  -- hash that is not empty has that hash, and when it is asked for again, its path is returned and
  -- the file stays as it is, whatever the remote storage is.
  pub run_calls-hit :
      (calls : List Call) (now : ℕ) (locked : Text → Bool) (remote : Remote)
      (object_name sha256 : Text) (content : Bytes)
      → cfg.enabled ≡ true
      → is_empty sha256 ≡ false
      → get (cache_key sha256 object_name) (run_calls calls no_files).data_files ≡ some content
      → (digest content ≡ sha256)
        × (let (found, after) =
              resolve_or_download cfg locked digest now remote object_name sha256
                (run_calls calls no_files) in
            (found ≡ ok (some (data_path cfg (cache_key sha256 object_name))))
            × (get (cache_key sha256 object_name) after.data_files ≡ some content))
  unfolding get resolve_or_download resolve_or_download_locked
  run_calls-hit calls now locked remote object_name sha256 content on given cached =
      let c = run_calls calls no_files in
      let key = cache_key sha256 object_name in
      let kept = touch_meta-data now key c in
      let sound = run_calls-IsSound calls no_files (λ s d h. absurd (ground arith)) in
      (
        sound sha256 content (
            subst (λ k. get k c.data_files ≡ some content)
              (cache_key-given sha256 object_name given) cached),
        (ground arith, ground arith),
      )
