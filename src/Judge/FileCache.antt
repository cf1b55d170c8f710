-- ===== src/Judge/FileCache.antt =====
-- app/modules/judge/file_cache.py: `Host` is what the cache stands on, `Evict` the removal of
-- entries, `Resolve` the lookup and the download.
pub mod Host
pub mod Names
pub mod Evict
pub mod Resolve
pub mod Sound
pub mod Grace
pub mod History
pub mod Purge
