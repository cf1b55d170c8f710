-- ===== src/Judge/Standard/Closing.antt =====
-- The sandbox client and the batch result are closed on every path.
use acoj_worker.Common.{
  ℕ, ◌+◌, ◌-◌, String, Bool, true, false, ◌&&◌, Option, none, some, List, [], ◌∷◌, ◌≡◌, refl, ◌∙◌,
  arith, ok, raise, Exception, Result, if◌then◌else◌, get_or, not, string_eq, ◌==◌,
}
use acoj_worker.Common.Exec.{Exec, pure, lift, continue, ◌>>=◌, try_finally}
use acoj_worker.Judge.Float.{FloatOps}
use acoj_worker.Judge.Types.{Language, Problem, TestCase, Payload, JudgeResult}
use acoj_worker.Judge.Settings.{JudgeSettings}
use acoj_worker.Judge.LanguageConfig.{LanguageSpec, or_text, build_languages_config}
use acoj_worker.Judge.DataLoader.{
  JudgeCase, resolve_file, checked_ref, file_ref, resolve_input_ref, resolve_output_ref,
  build_judge_cases,
}
use acoj_worker.Judge.Standard.Host.{BatchResult, RunRequest, Host}
use acoj_worker.Judge.Standard.Batch.{has_batch}
use acoj_worker.Judge.Entries.{item, language_item}
use acoj_worker.Judge.Standard.Run.{judge_batch, run_request, with_client, judge_payload, judge}

-- `live s` counts the sandbox objects that are open. A call that raises has opened none, and a
-- `close` closes one; loading test data opens none.
pub record Counts {S : Type 0} (host : Host S) (live : S → ℕ) : Type 0 where
  pub create_ok :
      (spec : LanguageSpec) (s : S)
      → (host.create_client spec s).0 ≡ ok tt
      → live (host.create_client spec s).1 ≡ live s + 1
  pub create_raise :
      (spec : LanguageSpec) (s : S) (x : Exception)
      → (host.create_client spec s).0 ≡ raise x
      → live (host.create_client spec s).1 ≡ live s
  pub run_ok :
      (r : RunRequest) (s : S) (b : BatchResult)
      → (host.run_cases r s).0 ≡ ok b
      → live (host.run_cases r s).1 ≡ live s + 1
  pub run_raise :
      (r : RunRequest) (s : S) (x : Exception)
      → (host.run_cases r s).0 ≡ raise x
      → live (host.run_cases r s).1 ≡ live s
  pub close_batch : (s : S) → live (host.close_batch s) ≡ live s - 1
  pub close_client : (s : S) → live (host.close_client s) ≡ live s - 1
  pub load :
      (name sha256 : String) (s : S)
      → live (host.storage.resolve_or_download name sha256 s).1 ≡ live s

module _ {S : Type 0} (host : Host S) (live : S → ℕ) (counts : Counts host live) where
  abbrev Keeps : {A : Type 0} → Exec S A → Type 0
  Keeps m = (s : S) → live (m s).1 ≡ live s

  bind-Keeps :
      {A B : Type 0} (m : Exec S A) (f : A → Exec S B)
      → Keeps m
      → ((a : A) → Keeps (f a))
      → Keeps (m >>= f)
  bind-Keeps m f km kf s = go (m s).0 (m s).1 (km s)
    where
      go : (r : Result _) (s' : S) → live s' ≡ live s → live (continue r f s').1 ≡ live s
      go (ok a) s' h = kf a s' ∙ h
      go (raise x) s' h = h

  Keeps-if :
      {A : Type 0} (b : Bool) (m n : Exec S A) → Keeps m → Keeps n → Keeps (if b then m else n)
  Keeps-if true m n km kn = km
  Keeps-if false m n km kn = kn

  -- An object that `m` opens is closed again, whatever the body does.
  opened-Keeps :
      {A B : Type 0} (m : Exec S A) (f : A → Exec S B) (close : S → S)
      → ((s : S) (a : A) → (m s).0 ≡ ok a → live (m s).1 ≡ live s + 1)
      → ((s : S) (x : Exception) → (m s).0 ≡ raise x → live (m s).1 ≡ live s)
      → ((a : A) → Keeps (f a))
      → ((s : S) → live (close s) ≡ live s - 1)
      → Keeps (m >>= λ a. try_finally (f a) close)
  opened-Keeps m f close opens fails kf closes s = go (m s).0 (m s).1 (opens s) (fails s)
    where
      go :
          (r : Result _) (s' : S)
          → ((a : _) → r ≡ ok a → live s' ≡ live s + 1)
          → ((x : Exception) → r ≡ raise x → live s' ≡ live s)
          → live (continue r (λ a. try_finally (f a) close) s').1 ≡ live s
      go (ok a) s' h h' = omega (arith, h a refl, kf a s', closes (f a s').1)
      go (raise x) s' h h' = h' x refl

  resolve_file-Keeps : (name sha256 : String) → Keeps (resolve_file host.storage name sha256)
  unfolding resolve_file
  resolve_file-Keeps name sha256 s = ground (arith, counts.load name sha256 s)

  checked_ref-Keeps :
      (missing differs name expected : String) (p : Option String)
      → Keeps (checked_ref host.storage missing differs name expected p)
  unfolding checked_ref
  checked_ref-Keeps missing differs name expected none s = refl
  checked_ref-Keeps missing differs name expected (some path) s = ground arith

  file_ref-Keeps :
      (missing differs name expected : String)
      → Keeps (file_ref host.storage missing differs name expected)
  unfolding file_ref
  file_ref-Keeps missing differs name expected =
      bind-Keeps (resolve_file host.storage name expected)
        (checked_ref host.storage missing differs name expected) (resolve_file-Keeps name expected)
        (checked_ref-Keeps missing differs name expected)

  item-Keeps : {A : Type 0} (o : Option A) (key : String) → Keeps (item o key)
  item-Keeps none key s = refl
  item-Keeps (some a) key s = refl

  language_item-Keeps : (o : Option Language) → Keeps (language_item o)
  language_item-Keeps none s = refl
  language_item-Keeps (some l) s = refl

  module _ {F : Type 0} ⦃fl : FloatOps F⦄ where
    resolve_input_ref-Keeps : (tc : TestCase F) → Keeps (resolve_input_ref host.storage tc)
    unfolding resolve_input_ref
    resolve_input_ref-Keeps tc =
        Keeps-if (not (or_text tc.input_file "" == ""))
          (file_ref host.storage "测试数据输入文件不存在或无法下载: " "测试数据文件 hash 不匹配: " (or_text tc.input_file "")
            (or_text tc.input_sha256 ""))
          (pure (host.storage.from_data (get_or tc.input_inline "")))
          (file_ref-Keeps "测试数据输入文件不存在或无法下载: " "测试数据文件 hash 不匹配: " (or_text tc.input_file "")
            (or_text tc.input_sha256 ""))
          (λ s. refl)

    resolve_output_ref-Keeps : (tc : TestCase F) → Keeps (resolve_output_ref host.storage tc)
    unfolding resolve_output_ref
    resolve_output_ref-Keeps tc =
        Keeps-if (not (or_text tc.output_file "" == "")) _ _
          (bind-Keeps
            (file_ref host.storage "测试数据输出文件不存在或无法下载: " "测试数据文件 hash 不匹配: "
              (or_text tc.output_file "") (or_text tc.output_sha256 ""))
            (λ ref. pure (some ref))
            (file_ref-Keeps "测试数据输出文件不存在或无法下载: " "测试数据文件 hash 不匹配: " (or_text tc.output_file "")
              (or_text tc.output_sha256 ""))
            (λ ref s. refl))
          (λ s. refl)

    build_judge_cases-Keeps :
        (tcs : List (TestCase F)) (problem : Problem F)
        → Keeps (build_judge_cases host.storage tcs problem)
    unfolding build_judge_cases
    build_judge_cases-Keeps [] problem = λ s. refl
    build_judge_cases-Keeps (tc ∷ tcs) problem =
        bind-Keeps (resolve_input_ref host.storage tc) _ (resolve_input_ref-Keeps tc) (λ input.
          bind-Keeps (resolve_output_ref host.storage tc) _ (resolve_output_ref-Keeps tc)
            (λ expected.
              bind-Keeps (build_judge_cases host.storage tcs problem) _
                (build_judge_cases-Keeps tcs problem) (λ cases s. refl)))

    with_client-Keeps :
        (cfg : JudgeSettings) (submission_id source : String) (language : Language)
        (spec : LanguageSpec) (problem : Problem F) (tcs : List (TestCase F))
        (cases : List JudgeCase)
        → Keeps (with_client host cfg submission_id source language spec problem tcs cases)
    unfolding with_client judge_batch
    with_client-Keeps cfg submission_id source language spec problem tcs cases =
        let stop = not (get_or problem.partial false) && not (has_batch tcs) in
        let request = λ (s : S). run_request host cfg language.key source cases stop s in
        opened-Keeps {B = JudgeResult F} (host.create_client spec) _ host.close_client
          (λ s a h. counts.create_ok spec s h) (counts.create_raise spec)
          (λ _.
            opened-Keeps {B = JudgeResult F} (λ s. host.run_cases (request s) s)
              (judge_batch host submission_id problem tcs stop) host.close_batch
              (λ s b h. counts.run_ok (request s) s b h)
              (λ s x h. counts.run_raise (request s) s x h) (λ batch s. refl) counts.close_batch)
          counts.close_client

    judge_payload-Keeps :
        (cfg : JudgeSettings) (submission_id source : String) (language : Language)
        (problem : Problem F) (tcs : List (TestCase F))
        → Keeps (judge_payload host cfg submission_id source language problem tcs)
    unfolding judge_payload
    judge_payload-Keeps cfg submission_id source language problem tcs =
        bind-Keeps (lift (build_languages_config host.split language "main")) _ (λ s. refl)
          (λ spec.
            bind-Keeps (build_judge_cases host.storage tcs problem) _
              (build_judge_cases-Keeps tcs problem)
              (elim [
                | [] ↦ λ s. refl
                | c ∷ cs ↦
                    with_client-Keeps cfg submission_id source language spec problem tcs (c ∷ cs)
              ]))

    -- Where the creation of the client and a run open one sandbox object each, or none if they
    -- raise, a close closes one and loading opens none: whether `judge` returns or raises, it
    -- leaves as many sandbox objects open as there were before.
    pub judge-closes :
        (cfg : JudgeSettings) (payload : Payload F) (s : S)
        → live (judge host cfg payload s).1 ≡ live s
    unfolding judge
    judge-closes cfg payload =
        bind-Keeps (item payload.language "'language'") _ (item-Keeps payload.language "'language'")
          (λ entry.
            bind-Keeps (item payload.source "'source'") _ (item-Keeps payload.source "'source'")
              (λ source.
                bind-Keeps (item payload.test_cases "'test_cases'") _
                  (item-Keeps payload.test_cases "'test_cases'")
                  (λ tcs.
                    bind-Keeps (language_item entry) _ (language_item-Keeps entry) (λ language.
                      judge_payload-Keeps cfg payload.submission_id source language payload.problem
                        tcs))))
