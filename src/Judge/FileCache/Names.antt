-- ===== src/Judge/FileCache/Names.antt =====
-- app/modules/judge/file_cache.py, `_key_from_meta_path`: the key that the name of a meta file has.
use acoj_worker.Common.{
  ℕ, zero, suc, ◌-◌, false, some, [], ◌∷◌, ◌++◌, length, length-append, take, drop, mem,
  mem-append_right, mem-here, Text, nat_eq, list_eq, ◌==◌, ◌≡◌, refl, ap, arith, Bool-cases, inl,
  inr,
}
use acoj_worker.Judge.FileCache.Host.{
  slash, meta_suffix, meta_path, file_name, without_suffix, key_from_meta_path,
}

file_name-no_slash : (s : Text) → mem slash (file_name s) ≡ false
unfolding file_name
file_name-no_slash [] = refl
file_name-no_slash (c ∷ s) =
    let rest = file_name-no_slash s in
    elim (Bool-cases (mem slash (c ∷ s))) [ inl e ↦ rw e rest | inr e ↦ rw e e ]

-- A text without a slash is its own name.
file_name-whole : (s : Text) → mem slash s ≡ false → file_name s ≡ s
unfolding file_name
file_name-whole [] h = refl
file_name-whole (c ∷ s) h = rw h refl

file_name-behind : (xs s : Text) → mem slash s ≡ false → file_name (xs ++ slash ∷ s) ≡ s
unfolding file_name
file_name-behind [] s h = file_name-whole s h
file_name-behind (x ∷ xs) s h =
    let there = mem-append_right slash (x ∷ xs) (slash ∷ s) (mem-here slash s) in
    rw there (file_name-behind xs s h)

mem-append_none :
    (xs ys : Text) → mem slash xs ≡ false → mem slash ys ≡ false → mem slash (xs ++ ys) ≡ false
mem-append_none [] ys hx hy = hy
mem-append_none (x ∷ xs) ys hx hy = let rest = mem-append_none xs ys in ground arith

mem-take_none : (n : ℕ) (xs : Text) → mem slash xs ≡ false → mem slash (take n xs) ≡ false
mem-take_none zero xs h = refl
mem-take_none (suc n) [] h = refl
mem-take_none (suc n) (x ∷ xs) h = let rest = mem-take_none n xs in ground arith

take-front : (xs ys : Text) → take (length xs) (xs ++ ys) ≡ xs
take-front [] ys = refl
take-front (x ∷ xs) ys = ap (◌∷◌ x) (take-front xs ys)

drop-front : (xs ys : Text) → drop (length xs) (xs ++ ys) ≡ ys
drop-front [] ys = refl
drop-front (x ∷ xs) ys = drop-front xs ys

without_suffix-append : (k : Text) → without_suffix (k ++ meta_suffix) ≡ some k
unfolding without_suffix
without_suffix-append k =
    let size : length (k ++ meta_suffix) - length meta_suffix ≡ length k =
      let sum = length-append k meta_suffix in omega arith in
    rw (size, drop-front k meta_suffix, take-front k meta_suffix) refl

-- A key without a slash is the key of its meta file.
pub key_from_meta_path-same :
    (k : Text) → mem slash k ≡ false → key_from_meta_path (meta_path k) ≡ some k
unfolding key_from_meta_path meta_path
key_from_meta_path-same k h =
    rw (file_name-behind (take 2 k) (k ++ meta_suffix) (mem-append_none k meta_suffix h refl))
      (without_suffix-append k)

-- No key of a meta file has a slash.
pub key_from_meta_path-no_slash :
    (path : Text) {key : Text} → key_from_meta_path path ≡ some key → mem slash key ≡ false
unfolding key_from_meta_path without_suffix
key_from_meta_path-no_slash path {key} h =
    let n = length (file_name path) - length meta_suffix in
    let kept = mem-take_none n (file_name path) (file_name-no_slash path) in
    elim (Bool-cases (drop n (file_name path) == meta_suffix)) [
      | inl e ↦ ground arith
      | inr e ↦ absurd (ground arith)
    ]
