-- ===== src/Judge/FileCache/Grace.antt =====
-- The LRU eviction spares what has been read within the grace period.
use acoj_worker.Common.{
  ℕ, ◌+◌, leb, Bool, true, false, List, [], ◌∷◌, select, All, Text, get, get-remove, nat_eq,
  list_eq, ==_of_ne, if◌then◌else◌, ◌≡◌, ◌≢◌, refl, ◌∙◌, arith, Bool-cases, inl, inr,
}
use acoj_worker.Judge.FileCache.Host.{Cache, CacheSettings, remove_entry}
use acoj_worker.Judge.FileCache.Evict.{
  Stat, collect_stats, insert_stat, sort_stats, evict_candidates, is_old, evict_lru,
  evict_lru_if_needed,
}

All-if :
    (P : Stat → Type 0) (b : Bool) (xs ys : List Stat)
    → All P xs
    → All P ys
    → All P (if b then xs else ys)
All-if P true xs ys hx hy = hx
All-if P false xs ys hx hy = hy

All-insert_stat :
    (P : Stat → Type 0) (e : Stat) (es : List Stat) → P e → All P es → All P (insert_stat e es)
unfolding insert_stat
All-insert_stat P e [] pe h = (pe, tt)
All-insert_stat P e (x ∷ xs) pe (px, h) =
    All-if P (leb e.last_accessed_at x.last_accessed_at) (e ∷ x ∷ xs) (x ∷ insert_stat e xs)
      (pe, (px, h)) (px, All-insert_stat P e xs pe h)

All-sort_stats : (P : Stat → Type 0) (es : List Stat) → All P es → All P (sort_stats es)
unfolding sort_stats
All-sort_stats P [] h = tt
All-sort_stats P (e ∷ es) (pe, h) = All-insert_stat P e (sort_stats es) pe (All-sort_stats P es h)

module _ (key : Text) where
  abbrev IsOther : Stat → Type 0
  IsOther e = e.key ≢ key

  abbrev Same : Cache → Cache → Type 0
  Same c' c = get key c'.data_files ≡ get key c.data_files

  if-Same : (b : Bool) (c1 c2 c : Cache) → Same c1 c → Same c2 c → Same (if b then c1 else c2) c
  if-Same true c1 c2 c h1 h2 = h1
  if-Same false c1 c2 c h1 h2 = h2

  remove_entry-other : (k : Text) (c : Cache) → k ≢ key → Same (remove_entry k c) c
  unfolding remove_entry
  remove_entry-other k c ne = rw (get-remove k key c.data_files, ==_of_ne k key ne) refl

  evict_candidates-others :
      (locked : Text → Bool) (need_bytes freed : ℕ) (es : List Stat) (c : Cache)
      → All IsOther es
      → Same (evict_candidates locked need_bytes freed es c) c
  unfolding evict_candidates
  evict_candidates-others locked need_bytes freed [] c h = refl
  evict_candidates-others locked need_bytes freed (e ∷ es) c (other, h) =
      if-Same (leb need_bytes freed) c _ c refl (
        if-Same (locked e.key) _ _ c (evict_candidates-others locked need_bytes freed es c h) (
          evict_candidates-others locked need_bytes (freed + e.size) es (remove_entry e.key c) h
          ∙ remove_entry-other e.key c other))

  -- The metadata, if taken for those of `key`, are of the last 60 seconds.
  abbrev pub IsRecent : (now : ℕ) → Stat → Type 0
  IsRecent now e = e.key ≡ key → is_old now e ≡ false

  candidates-IsOther :
      (now : ℕ) (es : List Stat) → All (IsRecent now) es → All IsOther (select (is_old now) es)
  candidates-IsOther now [] h = tt
  candidates-IsOther now (e ∷ es) (recent, h) =
      let rest = candidates-IsOther now es h in
      elim (Bool-cases (is_old now e)) [
        | inl old ↦ rw old (λ same. absurd (ground arith), rest)
        | inr fresh ↦ rw fresh rest
      ]

  -- When all metadata that the eviction takes for those of a key, by the names of their files, are
  -- of the last 60 seconds, the eviction leaves the data of the key as they are, however many bytes are over the limit.
  pub evict_lru_if_needed-grace :
      (cfg : CacheSettings) (locked : Text → Bool) (now new_size : ℕ) (c : Cache)
      → All (IsRecent now) (collect_stats c.meta_files)
      → get key (evict_lru_if_needed cfg locked now new_size c).data_files ≡ get key c.data_files
  unfolding evict_lru_if_needed evict_lru
  evict_lru_if_needed-grace cfg locked now new_size c recent = if-Same _ c _ c refl (
      evict_candidates-others locked _ 0 _ c
        (All-sort_stats IsOther _ (candidates-IsOther now (collect_stats c.meta_files) recent)))
