-- ===== src/Web/RateLimit/Window.antt =====
-- rate_limit.py: the counter of a key and the requests of its window.
use acoj_worker.Common.{
  ℕ, ◌+◌, ◌-◌, ◌≤◌, ◌<◌, Bool, true, false, List, [], ◌∷◌, ◌++◌, mem, select, length, ltb, Text,
  nat_eq, if◌then◌else◌, All, All-append, Bool-cases, ◌≡◌, refl, ap, subst, sym, ◌∙◌, arith, inl,
  inr,
}
use acoj_worker.Web.RateLimit.{Windows, IsWindows, insert_score, increment, increment_and_check}

-- Of the times, the latest first, those that the window ending now has, the latest last
abbrev pub in_window : (window now : ℕ) → List ℕ → List ℕ
in_window window now [] = []
in_window window now (u ∷ older) =
    in_window window now older ++ (if ltb now (u + window) then u ∷ [] else [])

-- Each request comes after those before it.
abbrev pub IsDescending : List ℕ → Type 0
IsDescending [] = Unit
IsDescending (t ∷ older) = All (λ u. u < t) older × IsDescending older

select-append : (p : ℕ → Bool) (xs ys : List ℕ) → select p (xs ++ ys) ≡ select p xs ++ select p ys
select-append p [] ys = refl
select-append p (x ∷ xs) ys = let ih = select-append p xs ys in ground arith

select-eq : (p q : ℕ → Bool) (xs : List ℕ) → ((u : ℕ) → p u ≡ q u) → select p xs ≡ select q xs
select-eq p q [] h = refl
select-eq p q (x ∷ xs) h = let here = h x in let ih = select-eq p q xs h in ground arith

select-all-eq : (p : ℕ → Bool) (xs : List ℕ) → ((u : ℕ) → p u ≡ true) → select p xs ≡ xs
select-all-eq p [] h = refl
select-all-eq p (x ∷ xs) h = let here = h x in let ih = select-all-eq p xs h in ground arith

insert_score-last : (n : ℕ) (xs : List ℕ) → All (λ u. u < n) xs → insert_score n xs ≡ xs ++ n ∷ []
insert_score-last n [] h = refl
insert_score-last n (x ∷ xs) (h, hs) = let ih = insert_score-last n xs hs in ground arith

mem-none : (n : ℕ) (xs : List ℕ) → All (λ u. u < n) xs → mem n xs ≡ false
mem-none n [] h = refl
mem-none n (x ∷ xs) (h, hs) = let ih = mem-none n xs hs in ground arith

module _ (window : ℕ) where
  -- A later window of the same times
  select-in_window :
      (earlier now : ℕ) (times : List ℕ)
      → earlier ≤ now
      → select (λ u. ltb now (u + window)) (in_window window earlier times)
        ≡ in_window window now times
  select-in_window earlier now [] h = refl
  select-in_window earlier now (u ∷ older) h =
      let ih = select-in_window earlier now older h in
      let parts =
        select-append (λ u. ltb now (u + window)) (in_window window earlier older)
          (if ltb earlier (u + window) then u ∷ [] else []) in
      ground arith

  All-in_window :
      (n now : ℕ) (times : List ℕ)
      → All (λ u. u < n) times
      → All (λ u. u < n) (in_window window now times)
  All-in_window n now [] h = tt
  All-in_window n now (u ∷ older) (h, hs) =
      let rest = All-in_window n now older hs in
      All-append (λ v. v < n) (in_window window now older)
        (if ltb now (u + window) then u ∷ [] else []) rest
        (elim (ltb now (u + window)) as (λ b. All (λ v. v < n) (if b then u ∷ [] else [])) [
          | true ↦ (h, tt)
          | false ↦ tt
        ])

  module _ (w : Windows) (laws : IsWindows w) (key : Text) where
    increment-scores :
        (now : ℕ) (s : w.Redis)
        → All (λ u. u < now) (w.scores key s)
        → w.scores key (increment w key window now s)
          ≡ select (λ u. ltb now (u + window)) (w.scores key s ++ now ∷ [])
    unfolding increment
    increment-scores now s h =
        let added : w.scores key (w.zadd key now s) ≡ w.scores key s ++ now ∷ [] =
          let law = laws.scores-zadd key now s in
          let new = mem-none now (w.scores key s) h in
          let last = insert_score-last now (w.scores key s) h in ground arith in
        elim (Bool-cases (ltb now window)) [
          | inl early ↦ rw early (
              added
              ∙ sym (
                  select-all-eq (λ u. ltb now (u + window)) (w.scores key s ++ now ∷ [])
                    (λ u. ground arith)))
          | inr late ↦ rw late (
              laws.scores-zremrangebyscore key (now - window) (w.zadd key now s)
              ∙ ap (select (λ u. ltb (now - window) u)) added
              ∙ select-eq (λ u. ltb (now - window) u) (λ u. ltb now (u + window))
                  (w.scores key s ++ now ∷ []) (λ u. ground arith))
        ]

    -- The requests of the key, the latest first
    abbrev pub after : List ℕ → w.Redis → w.Redis
    after [] s = s
    after (t ∷ older) s = increment w key window t (after older s)

    abbrev latest : List ℕ → ℕ
    latest [] = 0
    latest (t ∷ older) = t

    latest-le : (n : ℕ) (times : List ℕ) → All (λ u. u < n) times → latest times ≤ n
    latest-le n [] h = omega arith
    latest-le n (t ∷ older) (h, hs) = omega arith

    scores-after :
        (times : List ℕ) (s : w.Redis)
        → w.scores key s ≡ []
        → IsDescending times
        → w.scores key (after times s) ≡ in_window window (latest times) times
    scores-after [] s empty h = empty
    scores-after (t ∷ older) s empty (h, hs) =
        let before = scores-after older s empty hs in
        let below =
          subst (All (λ u. u < t)) (sym before) (All-in_window t (latest older) older h) in
        let earlier = in_window window (latest older) older in
        increment-scores t (after older s) below
        ∙ ap (λ us. select (λ u. ltb t (u + window)) (us ++ t ∷ [])) before
        ∙ select-append (λ u. ltb t (u + window)) earlier (t ∷ [])
        ∙ ap (λ us. us ++ select (λ u. ltb t (u + window)) (t ∷ []))
            (select-in_window (latest older) t older (latest-le t older h))

    -- When no two requests of a key come at one time and the key starts without scores, the count of a
    -- request is the number of the key's requests in the window that ends with it, itself included.
    pub increment_and_check-in_window :
        (now : ℕ) (older : List ℕ) (s : w.Redis)
        → w.scores key s ≡ []
        → IsDescending (now ∷ older)
        → (increment_and_check w key window now (after older s)).0
          ≡ length (in_window window now (now ∷ older))
    unfolding increment_and_check
    increment_and_check-in_window now older s empty h =
        ap (λ (us : List ℕ). length us) (scores-after (now ∷ older) s empty h)
