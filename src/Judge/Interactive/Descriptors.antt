-- ===== src/Judge/Interactive/Descriptors.antt =====
-- Each of the two FIFO descriptors of a case is closed once, whoever closes it.
use acoj_worker.Common.{
  ℕ, ◌+◌, String, Bool, true, false, not, ◌&&◌, Option, some, is_some, ◌≡◌, ◌∙◌, arith, Result, ok,
  raise, if◌then◌else◌, ◌==◌, string_eq,
}
use acoj_worker.Common.Exec.{Exec, pure, continue, ◌>>=◌}
use acoj_worker.Judge.Float.{FloatOps}
use acoj_worker.Judge.Types.{Verdict, Language, Grader, Problem, TestCase}
use acoj_worker.Judge.SandboxConfig.{IsolationConfig, CgroupConfig}
use acoj_worker.Judge.Metrics.{compile_metrics_from_process}
use acoj_worker.Judge.LanguageConfig.{LanguageSpec, or_text}
use acoj_worker.Judge.Spj.Host.{Program}
use acoj_worker.Judge.Interactive.Host.{InteractiveHost}
use acoj_worker.Judge.Interactive.Race.{Local, on_host, race}
use acoj_worker.Judge.Interactive.Balance.{
  CountsDescriptors, Balanced, cleanup-closed, race-Balanced,
}
use acoj_worker.Judge.Interactive.Run.{
  key_of, peak, case_limits, interactor_limits, failed_case, interactive_case, run_pair,
  run_interactor, with_interactor, run_user, case_body, judge_opened,
}

module _ {S : Type 0} (host : InteractiveHost S) (held : S → ℕ) (ab ba : ℕ)
    (counts : CountsDescriptors host held ab ba) where
  module _ {F : Type 0} ⦃fl : FloatOps F⦄ (isolation : IsolationConfig) (cgroup : CgroupConfig)
      (grader : Grader) (grader_key source : String) (language : Option Language)
      (spec : Option LanguageSpec) (grader_spec : LanguageSpec) (per_case : F)
      (problem : Problem F) where
    -- A block of a case keeps the count, whether it returns or raises.
    abbrev KeepsBalance : {A : Type 0} → Exec (Local S) A → Type 0
    KeepsBalance m =
        (n : ℕ) (l : Local S)
        → Balanced host held ab ba counts n l
        → Balanced host held ab ba counts n (m l).1

    bind-KeepsBalance :
        {A B : Type 0} (m : Exec (Local S) A) (f : A → Exec (Local S) B)
        → KeepsBalance m
        → ((a : A) → KeepsBalance (f a))
        → KeepsBalance (m >>= f)
    bind-KeepsBalance m f km kf n l h = go (m l).0 (m l).1 (km n l h)
      where
        go :
            (r : Result _) (l' : Local S)
            → Balanced host held ab ba counts n l'
            → Balanced host held ab ba counts n (continue r f l').1
        go (ok a) l' h' = kf a n l' h'
        go (raise x) l' h' = h'

    if-KeepsBalance :
        {A : Type 0} (b : Bool) (m k : Exec (Local S) A)
        → KeepsBalance m
        → KeepsBalance k
        → KeepsBalance (if b then m else k)
    if-KeepsBalance true m k hm hk = hm
    if-KeepsBalance false m k hm hk = hk

    run_pair-KeepsBalance :
        (tc : TestCase F) (compile : ℕ × ℕ)
        → KeepsBalance (
            run_pair host isolation cgroup grader grader_key source language spec grader_spec
              per_case problem tc compile)
    unfolding run_pair
    run_pair-KeepsBalance tc compile n l h =
        let raced =
          race host problem.time_limit_ms (case_limits tc problem)
            (interactor_limits grader problem) l in
        bind-KeepsBalance (on_host host.interactor_stderr)
          (λ text. pure (compile, interactive_case per_case tc.case_no raced.0 text))
          (λ n' l' h'. counts.interactor_stderr l'.host ∙ h') (λ text n' l' h'. h') n raced.1
          (race-Balanced host held ab ba counts problem.time_limit_ms (case_limits tc problem)
            (interactor_limits grader problem) n l h)

    run_interactor-KeepsBalance :
        (tc : TestCase F) (compile : ℕ × ℕ) (program : Program)
        → KeepsBalance (
            run_interactor host isolation cgroup grader grader_key source language spec grader_spec
              per_case problem tc compile program)
    unfolding run_interactor
    run_interactor-KeepsBalance tc compile program n l h =
        let failed =
          (pure {S = Local S}
            (compile, failed_case tc.case_no Verdict.ie program.compile.message)) in
        if-KeepsBalance (not program.compiled) failed
          (run_pair host isolation cgroup grader grader_key source language spec grader_spec
            per_case problem tc compile)
          (λ n' l' h'. h') (run_pair-KeepsBalance tc compile) n
          (record l { interactor_program = true }) h

    with_interactor-KeepsBalance :
        (tc : TestCase F) (compile : ℕ × ℕ)
        → KeepsBalance (
            with_interactor host isolation cgroup grader grader_key source language spec grader_spec
              per_case problem tc compile)
    unfolding with_interactor
    with_interactor-KeepsBalance tc compile =
        bind-KeepsBalance
          (on_host (host.prepare_interactor grader_key (or_text grader.source "") isolation cgroup))
          (run_interactor host isolation cgroup grader grader_key source language spec grader_spec
            per_case problem tc compile)
          (λ n l h.
            counts.prepare_interactor grader_key (or_text grader.source "") isolation cgroup l.host
            ∙ h)
          (run_interactor-KeepsBalance tc compile)

    run_user-KeepsBalance :
        (tc : TestCase F) (compile : ℕ × ℕ) (program : Program)
        → KeepsBalance (
            run_user host isolation cgroup grader grader_key source language spec grader_spec
              per_case problem tc compile program)
    unfolding run_user
    run_user-KeepsBalance tc compile program n l h =
        let peaked = peak compile (compile_metrics_from_process (some program.compile)) in
        let failed =
          (pure {S = Local S}
            (peaked, failed_case tc.case_no Verdict.ce program.compile.message)) in
        if-KeepsBalance (not program.compiled) failed
          (with_interactor host isolation cgroup grader grader_key source language spec grader_spec
            per_case problem tc peaked)
          (λ n' l' h'. h') (with_interactor-KeepsBalance tc peaked) n
          (record l { user_program = true }) h

    case_body-KeepsBalance :
        (tc : TestCase F) (compile : ℕ × ℕ)
        → KeepsBalance (
            case_body host isolation cgroup grader grader_key source language spec grader_spec
              per_case problem tc compile)
    unfolding case_body
    case_body-KeepsBalance tc compile =
        if-KeepsBalance (is_some spec && not (source == "")) _ _
          (bind-KeepsBalance (on_host (host.prepare_user (key_of language) source isolation cgroup))
            (run_user host isolation cgroup grader grader_key source language spec grader_spec
              per_case problem tc compile)
            (λ n l h. counts.prepare_user (key_of language) source isolation cgroup l.host ∙ h)
            (run_user-KeepsBalance tc compile))
          (with_interactor-KeepsBalance tc compile)

    judge_opened-counts :
        (tc : TestCase F) (compile : ℕ × ℕ) (n : ℕ) (s : S)
        → held s ≡ n + ab + ba
        → held
            (judge_opened host isolation cgroup grader grader_key source language spec grader_spec
              per_case problem tc compile s).1
          ≡ n
    unfolding judge_opened
    judge_opened-counts tc compile n s h =
        let opened : Local S = record {
          host = s;
          fd_ab = true;
          fd_ba = true;
          user_program = false;
          interactor_program = false;
        } in
        cleanup-closed host held ab ba counts (is_some spec) n _
          (case_body-KeepsBalance tc compile n opened h)

module _ {S : Type 0} (host : InteractiveHost S) (held_ab held_ba : S → ℕ)
    (counts_ab : CountsDescriptors host held_ab 1 0)
    (counts_ba : CountsDescriptors host held_ba 0 1) {F : Type 0} ⦃fl : FloatOps F⦄
    (isolation : IsolationConfig) (cgroup : CgroupConfig) (grader : Grader)
    (grader_key source : String) (language : Option Language) (spec : Option LanguageSpec)
    (grader_spec : LanguageSpec) (per_case : F) (problem : Problem F) where
  -- Where the close of `fd_AB` closes one descriptor of the one FIFO, that of `fd_BA` one of the
  -- other, and no other call of a case opens or closes any, a case that starts with one of its own
  -- open on either FIFO closes exactly one of the one and one of the other, on every path: the
  -- program or the interactor does not compile, a thread ends first or none does, a call raises.
  pub judge_opened-closes :
      (tc : TestCase F) (compile : ℕ × ℕ) (n m : ℕ) (s : S)
      → held_ab s ≡ n + 1
      → held_ba s ≡ m + 1
      → let after =
          (judge_opened host isolation cgroup grader grader_key source language spec grader_spec
            per_case problem tc compile s).1 in
        (held_ab after ≡ n) × (held_ba after ≡ m)
  judge_opened-closes tc compile n m s hab hba = (
    judge_opened-counts host held_ab 1 0 counts_ab isolation cgroup grader grader_key source
        language spec grader_spec per_case problem tc compile n s (omega arith),
    judge_opened-counts host held_ba 0 1 counts_ba isolation cgroup grader grader_key source
        language spec grader_spec per_case problem tc compile m s (omega arith),
  )
