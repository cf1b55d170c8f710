-- ===== src/Judge/Standard/Run.antt =====
-- app/modules/judge/modes/standard.py: StandardMode.judge.
use acoj_worker.Common.{
  String, Bool, false, not, ◌&&◌, List, [], ◌∷◌, min, max, length, get_or, nat_eq, string_eq,
  if◌then◌else◌,
}
use acoj_worker.Common.Exec.{Exec, pure, lift, try_finally, ◌>>=◌, ◌>>◌}
use acoj_worker.Judge.Float.{FloatOps}
use acoj_worker.Judge.Types.{Language, Problem, TestCase, Payload, JudgeResult}
use acoj_worker.Judge.Settings.{JudgeSettings}
use acoj_worker.Judge.SandboxConfig.{build_isolation_config, build_cgroup_config}
use acoj_worker.Judge.Scoring.{error_verdict}
use acoj_worker.Judge.LanguageConfig.{LanguageSpec, build_languages_config}
use acoj_worker.Judge.DataLoader.{JudgeCase, build_judge_cases}
use acoj_worker.Judge.Standard.Host.{BatchResult, RunRequest, Host}
use acoj_worker.Judge.Standard.Batch.{judge_cases, pad_skipped, has_batch, report}
use acoj_worker.Judge.Entries.{item, language_item}

module _ {S : Type 0} (host : Host S) where
  unfoldable pub run_request :
      JudgeSettings → (key source : String) → List JudgeCase → (stop : Bool) → S → RunRequest
  run_request cfg key source cases stop s = record {
    language = key;
    source = source;
    cases = cases;
    isolation = build_isolation_config (host.path_exists s) cfg;
    cgroup = build_cgroup_config cfg;
    stop_on_first_failure = stop;
    parallelism = if stop then 1 else min (max 1 cfg.sandbox_standard_parallelism) (length cases);
  }

module _ {F : Type 0} ⦃fl : FloatOps F⦄ where
  module _ {S : Type 0} (host : Host S) where
    -- From the batch result to the report.
    unfoldable pub judge_batch :
        (submission_id : String)
        → Problem F
        → List (TestCase F)
        → (stop : Bool) → BatchResult
        → Exec S (JudgeResult F)
    judge_batch submission_id problem tcs stop batch s =
        let (raw, had_failure) =
          judge_cases host.decode (host.file_at s) stop false 0 tcs batch.cases in
        (
          report submission_id (has_batch tcs) problem tcs (pad_skipped stop had_failure raw tcs)
              batch,
          s,
        )

    -- From the creation of the client on; the two `close` calls stand in the `finally` block.
    unfoldable pub with_client :
        JudgeSettings
        → (submission_id source : String) → Language
        → LanguageSpec
        → Problem F
        → List (TestCase F)
        → List JudgeCase
        → Exec S (JudgeResult F)
    with_client cfg submission_id source language spec problem tcs cases =
        let stop = not (get_or problem.partial false) && not (has_batch tcs) in
        host.create_client spec
        >> try_finally
            (do
              batch ← λ s. host.run_cases (run_request host cfg language.key source cases stop s) s
              try_finally (judge_batch submission_id problem tcs stop batch) host.close_batch)
            host.close_client

    -- `judge`, once the entries of the payload have been read
    unfoldable pub judge_payload :
        JudgeSettings
        → (submission_id source : String) → Language
        → Problem F
        → List (TestCase F)
        → Exec S (JudgeResult F)
    judge_payload cfg submission_id source language problem tcs = do
      spec ← lift (build_languages_config host.split language "main")
      cases ← build_judge_cases host.storage tcs problem
      elim cases [
        | [] ↦ pure (error_verdict submission_id "没有测试点数据")
        | c ∷ cs ↦ with_client cfg submission_id source language spec problem tcs (c ∷ cs)
      ]

    -- Null in place of a language fails after the other entries have been read.
    unfoldable pub judge : JudgeSettings → Payload F → Exec S (JudgeResult F)
    judge cfg payload = do
      language_entry ← item payload.language "'language'"
      source ← item payload.source "'source'"
      tcs ← item payload.test_cases "'test_cases'"
      language ← language_item language_entry
      judge_payload cfg payload.submission_id source language payload.problem tcs
