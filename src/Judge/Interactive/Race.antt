-- ===== src/Judge/Interactive/Race.antt =====
-- app/modules/judge/modes/interactive.py: the two threads, the two waits and the verdict.
use acoj_worker.Common.{
  ℕ, ◌*◌, max, Bool, true, false, not, ◌||◌, Option, none, some, is_some, get_or, nat_eq, ◌==◌,
  if◌then◌else◌,
}
use acoj_worker.Common.Exec.{Exec}
use acoj_worker.Judge.Types.{Verdict}
use acoj_worker.Judge.Mapper.{to_oj_result}
use acoj_worker.Judge.Metrics.{is_ok}
use acoj_worker.Judge.LanguageConfig.{JudgeLimits}
use acoj_worker.Judge.Interactive.Host.{PathRun, Done, InteractiveHost}

-- The local variables that the `finally` block reads, beside the world: whether the descriptors
-- are open (`fd >= 0`) and whether the programs exist (`is not None`).
pub record Local (S : Type 0) : Type 0 where
  pub host : S
  pub fd_ab : Bool
  pub fd_ba : Bool
  pub user_program : Bool
  pub interactor_program : Bool

-- A call that does not touch the variables.
abbrev pub on_host : {S A : Type 0} → Exec S A → Exec (Local S) A
on_host m l = let (r, s) = m l.host in (r, record l { host = s })

-- `_try_run_user` returns None at once where there is no program.
abbrev pub user_thread : Bool → Done → Done
user_thread true d = d
user_thread false d = record d { user = elim (d.user) [ none ↦ none | some r ↦ some none ] }

-- `user_first is not None and user_first.status != Status.AC`
abbrev pub has_failed : Option PathRun → Bool
has_failed none = false
has_failed (some r) = not (is_ok r.status)

-- `should_release_fifos`
unfoldable pub should_release : Done → Bool
should_release d = has_failed (get_or d.user none) || is_some d.interactor

-- `pending` is not empty
abbrev pub is_pending : Done → Bool
is_pending d = not (is_some d.user) || not (is_some d.interactor)

-- The futures that are done after both waits; only pending ones are waited for again.
abbrev pub merge : Done → Done → Done
merge first more = record {
  user = elim (first.user) [ none ↦ more.user | some r ↦ some r ];
  interactor = elim (first.interactor) [ none ↦ more.interactor | some r ↦ some r ];
}

-- `max((problem["time_limit_ms"] * 5) / 1000.0, 10)` seconds
abbrev pub timeout_ms : ℕ → ℕ
timeout_ms time_limit_ms = max (time_limit_ms * 5) 10000

unfoldable pub interactive_verdict : Option PathRun → Option PathRun → Verdict
interactive_verdict (some user) (some interactor) =
    if not (is_ok user.status)
    then to_oj_result user.status
    else if not (is_ok interactor.status)
    then to_oj_result interactor.status
    else if not (interactor.run.exit_code == 0)
    then Verdict.wa
    else Verdict.ac
interactive_verdict _ _ = Verdict.se

module _ {S : Type 0} (host : InteractiveHost S) where
  -- `if fd_AB >= 0: os.close(fd_AB); fd_AB = -1`, and the same for `fd_BA`
  unfoldable pub release_ab : Local S → Local S
  release_ab l = if l.fd_ab then record l { host = host.close_ab l.host; fd_ab = false } else l

  unfoldable pub release_ba : Local S → Local S
  release_ba l = if l.fd_ba then record l { host = host.close_ba l.host; fd_ba = false } else l

  abbrev pub release : Local S → Local S
  release l = release_ba (release_ab l)

  -- From `pool.submit` to `pool.shutdown`: the results that `holder` has, and the variables.
  unfoldable pub race :
      (time_limit_ms : ℕ) → (user_limits interactor_limits : JudgeLimits) → Local S → Done × Local S
  race time_limit_ms user_limits interactor_limits l =
      let (first', s) =
        host.wait_first (timeout_ms time_limit_ms) user_limits interactor_limits l.host in
      let first = user_thread l.user_program first' in
      let released =
        if should_release first then release (record l { host = s }) else record l { host = s } in
      if is_pending first
      then (let (more', s') =
            host.wait_pending (if should_release first then 1000 else timeout_ms time_limit_ms)
              released.host in
          let all_done = merge first (user_thread l.user_program more') in
          let waited = record released { host = s' } in
          (all_done, if is_pending all_done then release waited else waited))
      else (first, released)

  -- The `finally` block of a case; `has_client` says whether there is a `user_client`.
  unfoldable pub cleanup : (has_client : Bool) → Local S → S
  cleanup has_client l =
      let closed = release l in
      let s1 =
        if closed.interactor_program
        then host.close_interactor_program closed.host
        else closed.host in
      let s2 = if closed.user_program then host.close_user_program s1 else s1 in
      let s3 = if has_client then host.close_user_client s2 else s2 in
      host.remove_work_dir (host.close_interactor_client s3)
