-- ===== src/Judge/FileCache/Purge.antt =====
-- What the TTL purge removes.
use acoj_worker.Common.{
  ℕ, ◌-◌, ltb, Bool, true, false, none, some, [], ◌∷◌, Text, Dict, get, get-remove, nat_eq, list_eq,
  list_beq_iff, mem, is_empty, Option, ◌≢◌, ==_of_ne, ap, ◌==◌, ==-refl, if◌then◌else◌, ◌≡◌, refl,
  subst, sym, arith, Bool-cases, Option-cases, inl, inr,
}
use acoj_worker.Judge.FileCache.Host.{
  Meta, Cache, CacheSettings, remove_entry, slash, meta_path, key_from_meta_path,
}
use acoj_worker.Judge.FileCache.Names.{key_from_meta_path-same, key_from_meta_path-no_slash}
use acoj_worker.Judge.FileCache.Evict.{purge_key, purge_from, purge_expired}
use acoj_worker.Judge.FileCache.Sound.{Within, purge_from-Within}

some-same : {A : Type 0} {a b : A} → some a ≡ some b → a ≡ b
some-same h = cc

none-Within :
    (k : Text) (c' c : Cache) → Within c' c → get k c.data_files ≡ none → get k c'.data_files ≡ none
none-Within k c' c within h = elim (Option-cases (get k c'.data_files)) [
  | inl e ↦ e
  | inr (d, e) ↦ absurd (let back = within k d e in ground arith)
]

remove_entry-gone : (k : Text) (c : Cache) → get k (remove_entry k c).data_files ≡ none
unfolding remove_entry
remove_entry-gone k c = rw (get-remove k k c.data_files, ==-refl k) refl

remove_entry-kept :
    (key k : Text) (c : Cache)
    → mem slash key ≡ false
    → mem slash k ≡ true
    → get k (remove_entry key c).data_files ≡ get k c.data_files
unfolding remove_entry
remove_entry-kept key k c hkey hk =
    let other : key ≢ k = λ same. cc (hk, ap (mem slash) same) in
    rw (get-remove key k c.data_files, ==_of_ne key k other) refl

-- No key that the purge takes from a meta file is one with a slash.
purge_key-kept :
    (locked : Text → Bool) (k : Text) (key : Option Text) (c : Cache)
    → ((x : Text) → key ≡ some x → mem slash x ≡ false)
    → mem slash k ≡ true
    → get k (purge_key locked key c).data_files ≡ get k c.data_files
purge_key-kept locked k none c none_has h = refl
purge_key-kept locked k (some key) c none_has h =
    let removed = remove_entry-kept key k c (none_has key refl) h in ground arith

module _ (cfg : CacheSettings) (locked : Text → Bool) (now : ℕ) where
  -- What is there after the round of the loop for one meta file.
  abbrev purge_one : Text → Meta → Cache → Cache
  purge_one key meta c =
      if ltb cfg.ttl_seconds (now - meta.last_accessed_at)
      then purge_key locked (key_from_meta_path (meta_path key)) c
      else c

  purge_from-kept :
      (k : Text) (metas : Dict Text Meta) (c : Cache)
      → mem slash k ≡ true
      → get k (purge_from cfg locked now metas c).data_files ≡ get k c.data_files
  unfolding purge_from
  purge_from-kept k [] c h = refl
  purge_from-kept k ((j, m) ∷ metas) c h =
      let key = key_from_meta_path (meta_path j) in
      let one =
        purge_key-kept locked k key c (λ x. key_from_meta_path-no_slash (meta_path j) {key = x})
          h in
      let rest = purge_from-kept k metas (purge_one j m c) h in ground arith

  module _ (k : Text) (meta : Meta)
      (expired : ltb cfg.ttl_seconds (now - meta.last_accessed_at) ≡ true) (free : locked k ≡ false)
      (some_key : is_empty k ≡ false) where
    -- The step of the loop at the entry itself.
    step-gone : (c : Cache) → mem slash k ≡ false → get k (purge_one k meta c).data_files ≡ none
    step-gone c flat =
        rw (expired, key_from_meta_path-same k flat, some_key, free) (remove_entry-gone k c)

    head_of :
        (j : Text) (m : Meta) (metas : Dict Text Meta)
        → (j == k) ≡ true
        → get k ((j, m) ∷ metas) ≡ some meta
        → some m ≡ some meta
    unfolding get
    head_of j m metas e h = rw e at h

    tail_of :
        (j : Text) (m : Meta) (metas : Dict Text Meta)
        → (j == k) ≡ false
        → get k ((j, m) ∷ metas) ≡ some meta
        → get k metas ≡ some meta
    unfolding get
    tail_of j m metas e h = rw e at h

    purge_from-gone :
        (metas : Dict Text Meta) (c : Cache)
        → mem slash k ≡ false
        → get k metas ≡ some meta
        → get k (purge_from cfg locked now metas c).data_files ≡ none
    unfolding purge_from get
    purge_from-gone [] c flat h = cc
    purge_from-gone ((j, m) ∷ metas) c flat h = elim (Bool-cases (j == k)) [
      | inl e ↦
          let same_key : j ≡ k = (list_beq_iff j k).0 e in
          let same_meta : m ≡ meta = some-same (head_of j m metas e h) in
          none-Within k (purge_from cfg locked now metas (purge_one j m c)) (purge_one j m c)
            (purge_from-Within cfg locked now metas (purge_one j m c))
            (subst (λ x. get k (purge_one j x c).data_files ≡ none) (sym same_meta)
              (subst (λ key. get k (purge_one key meta c).data_files ≡ none) (sym same_key)
                (step-gone c flat)))
      | inr e ↦ purge_from-gone metas (purge_one j m c) flat (tail_of j m metas e h)
    ]

    -- With the cache enabled, the data of an entry that has not been read for longer than the TTL,
    -- and whose key is not empty and not locked by another thread, are gone after `purge_expired`
    -- when its key has no slash, and stay as they are when it has one.
    pub purge_expired-gone :
        (c : Cache)
        → cfg.enabled ≡ true
        → get k c.meta_files ≡ some meta
        → get k (purge_expired cfg locked now c).data_files
          ≡ (if mem slash k then get k c.data_files else none)
    unfolding purge_expired
    purge_expired-gone c on h = elim (Bool-cases (mem slash k)) [
      | inl deep ↦ let kept = purge_from-kept k c.meta_files c deep in ground arith
      | inr flat ↦ let gone = purge_from-gone c.meta_files c flat h in ground arith
    ]
