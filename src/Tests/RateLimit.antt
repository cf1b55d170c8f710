-- ===== src/Tests/RateLimit.antt =====
-- Runs of rate_limit.py on a Redis that is a function of the key.
use acoj_worker.Common.{
  ℕ, true, false, none, some, List, [], ◌∷◌, mem, select, length, ltb, Text, codes, nat_eq, list_eq,
  ◌==◌, ==-refl, if◌then◌else◌, ◌≡◌, refl, arith,
}
use acoj_worker.Web.RateLimit.{
  Windows, IsWindows, insert_score, Scope, Rule, rule_of, increment, increment_and_check, dispatch,
}
use acoj_worker.Web.RateLimit.Window.{in_window, after, increment_and_check-in_window}

abbrev function : Windows
function = record {
  Redis = Text → List ℕ;
  scores = λ key s. s key;
  zadd = λ key now s j.
      if key == j then (if mem now (s j) then s j else insert_score now (s j)) else s j;
  zremrangebyscore = λ key upper s j. if key == j then select (λ u. ltb upper u) (s j) else s j;
}

function-IsWindows : IsWindows function
function-IsWindows = record {
  scores-zadd = λ key now s. let same = ==-refl key in ground arith;
  scores-zremrangebyscore = λ key upper s. let same = ==-refl key in ground arith;
}

abbrev login : Rule
login = record { pattern = codes "login"; limit = 1; window_sec = 60; scope = Scope.by_ip }

-- The second request of a window of 60 seconds does not pass, and one behind it does.
dispatch_sample :
    (dispatch function 1
      (login ∷ [])
      (λ pattern. true)
      none
      (some (codes "1.2.3.4"))
      130
      (dispatch function 1
        (login ∷ [])
        (λ pattern. true)
        none
        (some (codes "1.2.3.4"))
        100
        (λ key. [])).1).0
    ≡ false
unfolding dispatch rule_of increment_and_check increment
dispatch_sample = refl

increment_and_check-in_window_example :
    (increment_and_check function
      (codes "k")
      60
      170
      (after 60 function function-IsWindows (codes "k") (150 ∷ 100 ∷ []) (λ key. []))).0
    ≡ length (in_window 60 170 (170 ∷ 150 ∷ 100 ∷ []))
increment_and_check-in_window_example =
    increment_and_check-in_window 60 function function-IsWindows (codes "k") 170 (150 ∷ 100 ∷ [])
      (λ key. []) refl ((omega arith, (omega arith, tt)), ((omega arith, tt), (tt, tt)))
