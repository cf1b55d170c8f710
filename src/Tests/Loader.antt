-- ===== src/Tests/Loader.antt =====
-- Runs of data_loader.py and file_cache.py.
use acoj_worker.Common.{
  ℕ, String, Bool, true, false, none, some, List, [], ◌∷◌, Text, codes, get, put, remove, string_eq,
  ◌==◌, list_eq, nat_eq, ok, raise, runtime_error, ◌≡◌, ◌≢◌, refl, arith, mem, if◌then◌else◌,
}
use acoj_worker.Judge.Types.{TestCase}
use acoj_worker.Judge.Checker.{Bytes, DataRef, RefData}
use acoj_worker.Judge.LanguageConfig.{or_text}
use acoj_worker.Judge.DataLoader.{Storage, resolve_file, checked_ref, file_ref, resolve_input_ref}
use acoj_worker.Judge.DataLoader.Integrity.{resolve_input_ref-hash}
use acoj_worker.Judge.FileCache.Host.{
  Meta, Cache, CacheSettings, Remote, cache_key, data_path, head_or_none, remove_entry, slash,
  meta_path, file_name, without_suffix, key_from_meta_path,
}
use acoj_worker.Judge.FileCache.Evict.{
  collect_stats, calculate_total_size, insert_stat, sort_stats, evict_candidates, evict_lru,
  evict_lru_if_needed, purge_from, purge_expired,
}
use acoj_worker.Judge.FileCache.Resolve.{
  download, store, store_checked, ask_remote, resolve_or_download_locked, resolve_or_download,
}
use acoj_worker.Judge.FileCache.Sound.{IsSound, resolve_or_download-IsSound}
use acoj_worker.Judge.FileCache.Purge.{purge_expired-gone}
use acoj_worker.Judge.FileCache.Grace.{evict_lru_if_needed-grace}
use acoj_worker.Judge.FileCache.History.{Call, run_call, run_calls, no_files, run_calls-hit}
use acoj_worker.Tests.Samples.{case_of, remote}

unequal : (a b : String) → (a == b) ≡ false → a ≢ b
unequal a b h e = let iff = string_eq.eqb_iff a b in ground arith

abbrev file_case : TestCase ℕ
file_case = record (case_of 1 none []) { input_file = some "1.in"; input_sha256 = some "ab" }

abbrev ab_ref : DataRef
ab_ref = record {
  path = some "ab";
  data_of = RefData.no_data;
  sha256 = some "ab";
  preview_text = "";
}

resolve_input_ref-hash_example : "ab" ≡ or_text file_case.input_sha256 ""
unfolding resolve_input_ref file_ref checked_ref resolve_file
resolve_input_ref-hash_example =
    resolve_input_ref-hash (remote {S = ℕ}) file_case 0 {ref = ab_ref} {actual = "ab"} refl
      (unequal "1.in" "" refl) (unequal "ab" "" refl) refl (unequal "ab" "" refl)

-- A local storage without files: it gives a path for every name.
abbrev local_storage : Storage ℕ
local_storage = record (remote {S = ℕ}) {
  get_path = some (λ name. ok name);
  path_exists = λ s path. false;
}

missing_file :
    resolve_input_ref local_storage (record file_case { input_inline = some "3" }) 0
    ≡ (raise (runtime_error "测试数据输入文件不存在或无法下载: 1.in"), 0)
unfolding resolve_input_ref file_ref checked_ref resolve_file
missing_file = refl

abbrev cache_settings : CacheSettings
cache_settings = record { root = codes "/c"; enabled = true; max_bytes = 5; ttl_seconds = 100 }

-- A digest that is the content itself.
abbrev digest_of : Bytes → Text
digest_of content = content

abbrev object_store : Remote
object_store = record {
  head_object = some (λ name. ok (codes "v1"));
  download_bytes = some (λ name. ok (97 ∷ 98 ∷ []));
}

abbrev no_lock : Text → Bool
no_lock key = false

abbrev two_calls : List Call
two_calls =
    Call.resolve 10 no_lock object_store (codes "1.in") (97 ∷ 98 ∷ [])
    ∷ Call.resolve 20 no_lock object_store (codes "2.in") []
    ∷ []

run_calls-hit_example :
    (digest_of (97 ∷ 98 ∷ []) ≡ 97 ∷ 98 ∷ [])
    × (let (found, after) =
          resolve_or_download cache_settings no_lock digest_of 300 object_store
            (codes "1.in")
            (97 ∷ 98 ∷ [])
            (run_calls cache_settings digest_of two_calls no_files) in
        (found ≡ ok (some (data_path cache_settings (cache_key (97 ∷ 98 ∷ []) (codes "1.in")))))
        × (get (cache_key (97 ∷ 98 ∷ []) (codes "1.in")) after.data_files ≡ some (97 ∷ 98 ∷ [])))
unfolding get put cache_key run_call run_calls resolve_or_download resolve_or_download_locked
    head_or_none ask_remote download store_checked store evict_lru_if_needed calculate_total_size
run_calls-hit_example =
    run_calls-hit cache_settings digest_of two_calls 300 no_lock object_store (codes "1.in")
      (97 ∷ 98 ∷ []) (97 ∷ 98 ∷ []) refl refl refl

resolve_or_download-IsSound_example :
    IsSound digest_of
      (resolve_or_download cache_settings no_lock digest_of 10 object_store
        (codes "1.in")
        []
        no_files).1
unfolding get
resolve_or_download-IsSound_example =
    resolve_or_download-IsSound cache_settings no_lock digest_of 10 object_store (codes "1.in") []
      no_files (λ s d h. absurd (ground arith))

-- Two files of four bytes where the limit is five: the old one goes, the recent one stays.
abbrev meta_at : ℕ → Meta
meta_at time = record {
  etag = [];
  sha256 = [];
  size_bytes = 4;
  object_name = [];
  cached_at = time;
  last_accessed_at = time;
  last_validated_at = time;
}

abbrev two_files : Cache
two_files = record {
  data_files = (1 ∷ [], 7 ∷ []) ∷ (2 ∷ [], 8 ∷ []) ∷ [];
  meta_files = (1 ∷ [], meta_at 0) ∷ (2 ∷ [], meta_at 90) ∷ [];
  direct_files = [];
}

evict_two_files : evict_lru_if_needed cache_settings no_lock 100 0 two_files ≡ record {
  data_files = (2 ∷ [], 8 ∷ []) ∷ [];
  meta_files = (2 ∷ [], meta_at 90) ∷ [];
  direct_files = [];
}
unfolding get remove remove_entry collect_stats calculate_total_size insert_stat sort_stats
    evict_candidates evict_lru evict_lru_if_needed key_from_meta_path without_suffix file_name
    meta_path
evict_two_files = refl

evict_lru_if_needed-grace_example :
    get (2 ∷ []) (evict_lru_if_needed cache_settings no_lock 100 0 two_files).data_files
    ≡ get (2 ∷ []) two_files.data_files
unfolding collect_stats key_from_meta_path without_suffix file_name meta_path
evict_lru_if_needed-grace_example =
    evict_lru_if_needed-grace (2 ∷ []) cache_settings no_lock 100 0 two_files
      ((λ e. absurd (ground arith)), ((λ e. refl), tt))

-- The file of "1.in" and that of "a/1.in", which stays.
abbrev expired_files : Cache
expired_files = record {
  data_files = (codes "name:1.in", 7 ∷ []) ∷ (codes "name:a/1.in", 8 ∷ []) ∷ [];
  meta_files = (codes "name:1.in", meta_at 0) ∷ (codes "name:a/1.in", meta_at 0) ∷ [];
  direct_files = [];
}

purge_expired_files :
    (purge_expired cache_settings no_lock 150 expired_files).data_files
    ≡ (codes "name:a/1.in", 8 ∷ []) ∷ []
unfolding purge_expired purge_from get remove remove_entry key_from_meta_path without_suffix
    file_name meta_path
purge_expired_files = refl

purge_expired-gone_example :
    get (codes "name:1.in") (purge_expired cache_settings no_lock 150 expired_files).data_files ≡ (
      if mem slash (codes "name:1.in")
      then get (codes "name:1.in") expired_files.data_files
      else none)
unfolding get
purge_expired-gone_example =
    purge_expired-gone cache_settings no_lock 150 (codes "name:1.in") (meta_at 0) refl refl refl
      expired_files refl refl
