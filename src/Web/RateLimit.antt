-- ===== src/Web/RateLimit.antt =====
-- app/middleware/rate_limit.py: how many requests of a client or an account pass. Redis and the
-- patterns are parameters. The expiry of a key, as long as its window, is not modelled, nor a Redis
-- that is missing or fails, where each request passes.
pub mod Window
use acoj_worker.Common.{
  ℕ, zero, suc, ◌-◌, ◌*◌, Bool, true, false, not, Option, none, some, List, [], ◌∷◌, ◌++◌, mem,
  select, length, leb, ltb, Text, codes, is_empty, nat_eq, ◌==◌, if◌then◌else◌, ◌≡◌,
}

-- Of a sorted set, the scores in their order: `zcard` is their number.
pub record Windows : Type 1 where
  pub Redis : Type 0
  pub scores : Text → Redis → List ℕ
  pub zadd : Text → (now : ℕ) → Redis → Redis
  pub zremrangebyscore : Text → (upper : ℕ) → Redis → Redis

abbrev pub insert_score : ℕ → List ℕ → List ℕ
insert_score n [] = n ∷ []
insert_score n (u ∷ us) = let rest = insert_score n us in if leb n u then n ∷ u ∷ us else u ∷ rest

-- A member is the text of its score, so that a score is in the set once.
pub record IsWindows (w : Windows) : Type 0 where
  pub scores-zadd :
      (key : Text) (now : ℕ) (s : w.Redis)
      → w.scores key (w.zadd key now s)
        ≡ (if mem now (w.scores key s) then w.scores key s else insert_score now (w.scores key s))
  pub scores-zremrangebyscore :
      (key : Text) (upper : ℕ) (s : w.Redis)
      → w.scores key (w.zremrangebyscore key upper s) ≡ select (λ u. ltb upper u) (w.scores key s)

pub data Scope : Type 0 where
  by_ip by_user by_either : Scope

pub record Rule : Type 0 where
  pub pattern : Text
  pub limit : ℕ
  pub window_sec : ℕ
  pub scope : Scope

-- `rl:user:...` and `rl:ip:...`
abbrev pub user_key : (uid pattern : Text) → Text
user_key uid pattern = codes "rl:user:" ++ uid ++ codes ":" ++ pattern

abbrev pub ip_key : (client_ip : Option Text) → (pattern : Text) → Text
ip_key none pattern = codes "rl:ip:unknown:" ++ pattern
ip_key (some ip) pattern =
    codes "rl:ip:" ++ (if is_empty ip then codes "unknown" else ip) ++ codes ":" ++ pattern

abbrev pub key_of_user : Option Text → (pattern : Text) → Option Text
key_of_user none pattern = none
key_of_user (some uid) pattern = if is_empty uid then none else some (user_key uid pattern)

abbrev pub get_or_else : Option Text → Text → Text
get_or_else none d = d
get_or_else (some t) d = t

-- The key of a rule, `none` where the loop goes on to the next rule
abbrev pub key_of_rule : Scope → (uid client_ip : Option Text) → (pattern : Text) → Option Text
key_of_rule Scope.by_ip uid client_ip pattern = some (ip_key client_ip pattern)
key_of_rule Scope.by_user uid client_ip pattern = key_of_user uid pattern
key_of_rule Scope.by_either uid client_ip pattern =
    some (get_or_else (key_of_user uid pattern) (ip_key client_ip pattern))

-- The first rule whose pattern is in the path and that has a key
unfoldable pub rule_of :
    (matches : Text → Bool) → (uid client_ip : Option Text) → List Rule → Option (Rule × Text)
rule_of matches uid client_ip [] = none
rule_of matches uid client_ip (rule ∷ rules) =
    let rest = rule_of matches uid client_ip rules in
    let here : Option (Rule × Text) = elim (key_of_rule rule.scope uid client_ip rule.pattern) [
      | none ↦ rest
      | some key ↦ some (rule, key)
    ] in
    if matches rule.pattern then here else rest

module _ (w : Windows) where
  -- The pipeline of `_increment_and_check`, where a window that starts before 0 removes nothing
  unfoldable pub increment : (key : Text) → (window now : ℕ) → w.Redis → w.Redis
  increment key window now s =
      let added = w.zadd key now s in
      if ltb now window then added else w.zremrangebyscore key (now - window) added

  unfoldable pub increment_and_check : (key : Text) → (window now : ℕ) → w.Redis → ℕ × w.Redis
  increment_and_check key window now s =
      let s' = increment key window now s in (length (w.scores key s'), s')

  -- Whether the request passes, `none` where no rule has a key
  abbrev pub with_rule : (ticks now : ℕ) → Option (Rule × Text) → w.Redis → Bool × w.Redis
  with_rule ticks now none s = (true, s)
  with_rule ticks now (some (rule, key)) s =
      let (count, s') = increment_and_check key (rule.window_sec * ticks) now s in
      (leb count rule.limit, s')

  -- `dispatch`, at a time in ticks of which a second has `ticks`
  unfoldable pub dispatch :
      (ticks : ℕ)
      → List Rule
      → (matches : Text → Bool) → (uid client_ip : Option Text) → (now : ℕ) → w.Redis
      → Bool × w.Redis
  dispatch ticks rules matches uid client_ip now s =
      with_rule ticks now (rule_of matches uid client_ip rules) s
