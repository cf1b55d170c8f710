-- ===== src/Judge/Interactive/Balance.antt =====
-- app/modules/judge/modes/interactive.py: `fd_AB` and `fd_BA` against the descriptors that are open.
use acoj_worker.Common.{
  ℕ, ◌+◌, ◌-◌, String, Bool, true, false, ◌≡◌, refl, ◌∙◌, arith, if◌then◌else◌,
}
use acoj_worker.Judge.LanguageConfig.{JudgeLimits}
use acoj_worker.Judge.SandboxConfig.{IsolationConfig, CgroupConfig}
use acoj_worker.Judge.Interactive.Host.{Done, InteractiveHost}
use acoj_worker.Judge.Interactive.Race.{
  Local, user_thread, should_release, is_pending, merge, timeout_ms, release_ab, release_ba,
  release, race, cleanup,
}

-- `held s` counts open FIFO descriptors: the close of `fd_AB` closes `ab` of them, that of `fd_BA`
-- `ba`, and nothing else that a case calls after `os.open` opens or closes one.
pub record CountsDescriptors {S : Type 0} (host : InteractiveHost S) (held : S → ℕ) (ab ba : ℕ)
    : Type 0 where
  pub close_ab : (s : S) → held (host.close_ab s) ≡ held s - ab
  pub close_ba : (s : S) → held (host.close_ba s) ≡ held s - ba
  pub prepare_user :
      (key source : String) (i : IsolationConfig) (c : CgroupConfig) (s : S)
      → held (host.prepare_user key source i c s).1 ≡ held s
  pub prepare_interactor :
      (key source : String) (i : IsolationConfig) (c : CgroupConfig) (s : S)
      → held (host.prepare_interactor key source i c s).1 ≡ held s
  pub wait_first :
      (timeout : ℕ) (u i : JudgeLimits) (s : S) → held (host.wait_first timeout u i s).1 ≡ held s
  pub wait_pending : (timeout : ℕ) (s : S) → held (host.wait_pending timeout s).1 ≡ held s
  pub interactor_stderr : (s : S) → held (host.interactor_stderr s).1 ≡ held s
  pub close_interactor_program : (s : S) → held (host.close_interactor_program s) ≡ held s
  pub close_user_program : (s : S) → held (host.close_user_program s) ≡ held s
  pub close_user_client : (s : S) → held (host.close_user_client s) ≡ held s
  pub close_interactor_client : (s : S) → held (host.close_interactor_client s) ≡ held s
  pub remove_work_dir : (s : S) → held (host.remove_work_dir s) ≡ held s

abbrev count_if : Bool → ℕ → ℕ
count_if true n = n
count_if false n = 0

module _ {S : Type 0} (host : InteractiveHost S) (held : S → ℕ) (ab ba : ℕ)
    (counts : CountsDescriptors host held ab ba) where
  -- The variables `fd_AB` and `fd_BA` say which of the two are still open.
  abbrev pub Balanced : ℕ → Local S → Type 0
  Balanced n l = held l.host ≡ n + count_if l.fd_ab ab + count_if l.fd_ba ba

  release_ab-Balanced : (n : ℕ) (l : Local S) → Balanced n l → Balanced n (release_ab host l)
  unfolding release_ab
  release_ab-Balanced n l h = let c = counts.close_ab l.host in ground arith

  release_ba-Balanced : (n : ℕ) (l : Local S) → Balanced n l → Balanced n (release_ba host l)
  unfolding release_ba
  release_ba-Balanced n l h = let c = counts.close_ba l.host in ground arith

  pub release-Balanced : (n : ℕ) (l : Local S) → Balanced n l → Balanced n (release host l)
  release-Balanced n l h = release_ba-Balanced n (release_ab host l) (release_ab-Balanced n l h)

  release_if :
      (b : Bool) (n : ℕ) (l : Local S) → Balanced n l → Balanced n (if b then release host l else l)
  release_if true n l h = release-Balanced n l h
  release_if false n l h = h

  -- After `finally` none of the two is open.
  release-closed : (n : ℕ) (l : Local S) → Balanced n l → held (release host l).host ≡ n
  unfolding release_ab release_ba
  release-closed n l h =
      let a = counts.close_ab l.host in
      let b = counts.close_ba l.host in
      let c = counts.close_ba (host.close_ab l.host) in ground arith

  held_if :
      (b : Bool) (f : S → S) (s : S)
      → ((s' : S) → held (f s') ≡ held s')
      → held (if b then f s else s) ≡ held s
  held_if true f s h = h s
  held_if false f s h = refl

  pub cleanup-closed :
      (has_client : Bool) (n : ℕ) (l : Local S)
      → Balanced n l
      → held (cleanup host has_client l) ≡ n
  unfolding cleanup
  cleanup-closed has_client n l h =
      counts.remove_work_dir _
      ∙ counts.close_interactor_client _
      ∙ held_if has_client host.close_user_client _ counts.close_user_client
      ∙ held_if (release host l).user_program host.close_user_program _ counts.close_user_program
      ∙ held_if (release host l).interactor_program host.close_interactor_program _
          counts.close_interactor_program
      ∙ release-closed n l h

  either :
      (b : Bool) (n : ℕ) (x y : Done × Local S)
      → Balanced n x.1
      → Balanced n y.1
      → Balanced n (if b then x else y).1
  either true n x y hx hy = hx
  either false n x y hx hy = hy

  pub race-Balanced :
      (time_limit_ms : ℕ) (u i : JudgeLimits) (n : ℕ) (l : Local S)
      → Balanced n l
      → Balanced n (race host time_limit_ms u i l).1
  unfolding race
  race-Balanced time_limit_ms u i n l h =
      let started = host.wait_first (timeout_ms time_limit_ms) u i l.host in
      let first = user_thread l.user_program started.0 in
      let running : Local S = record l { host = started.1 } in
      let released = if should_release first then release host running else running in
      let more =
        host.wait_pending (if should_release first then 1000 else timeout_ms time_limit_ms)
          released.host in
      let all_done = merge first (user_thread l.user_program more.0) in
      let waited : Local S = record released { host = more.1 } in
      let ready =
        release_if (should_release first) n running (counts.wait_first _ u i l.host ∙ h) in
      either (is_pending first) n
        (all_done, if is_pending all_done then release host waited else waited) (first, released)
        (release_if (is_pending all_done) n waited (counts.wait_pending _ released.host ∙ ready))
        ready
