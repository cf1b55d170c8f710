-- ===== src/Tests/Hosts.antt =====
-- A world in which the state counts open objects, and one run of each mode.
use acoj_worker.Common.{ℕ, ◌+◌, ◌-◌, String, Bool, true, none, some, List, [], ◌∷◌, Result, ok}
use acoj_worker.Judge.Types.{Status, Language, Payload}
use acoj_worker.Judge.Standard.Host.{Host, CaseRun, BatchResult}
use acoj_worker.Judge.Spj.Host.{SpjHost, Program}
use acoj_worker.Judge.Interactive.Host.{InteractiveHost, PathRun}
use acoj_worker.Tests.Samples.{process, problem, case_of, text_ref, remote}

abbrev pub script_language : Language
script_language = record {
  key = "python3";
  source_filename = none;
  compile_command = none;
  run_command = some "python3";
}

abbrev pub payload : Payload ℕ
payload = record {
  submission_id = "s1";
  judge_mode = none;
  problem = problem;
  language = some (some script_language);
  source = some "print(3)";
  test_cases = some (case_of 1 none [] ∷ case_of 2 none [] ∷ []);
  spj = some (
      some (record {
        source = some "check";
        language = none;
        time_limit_ms = none;
        memory_limit_kb = none;
      }));
  interactor = some (
      some (record {
        source = some "talk";
        language = some (some script_language);
        time_limit_ms = none;
        memory_limit_kb = none;
      }));
}

abbrev pub case_run : Status → List ℕ → CaseRun
case_run status output = record {
  status = status;
  run = process status;
  actual_output = text_ref output;
  expected_output = some (text_ref (51 ∷ []));
  stderr = text_ref [];
}

abbrev pub batch_of : List CaseRun → BatchResult
batch_of runs = record { compile = process Status.ac; message = ""; cases = runs }

abbrev pub split_words : String → Result (List String)
split_words text = ok (text ∷ [])

abbrev pub standard_host : Host ℕ
standard_host = record {
  storage = remote;
  split = split_words;
  decode = λ bytes. bytes;
  file_at = λ s path. none;
  path_exists = λ s path. true;
  create_client = λ spec s. (ok tt, s + 1);
  run_cases = λ request s.
      (ok (batch_of (case_run Status.ac (51 ∷ []) ∷ case_run Status.re [] ∷ [])), s + 1);
  close_batch = λ s. s - 1;
  close_client = λ s. s - 1;
}

abbrev pub program_of : Bool → Program
program_of compiled = record {
  compile = process Status.ac;
  compiled = compiled;
  compile_result = none;
}

abbrev pub spj_host : SpjHost ℕ
spj_host = record {
  storage = remote;
  split = split_words;
  path_exists = λ s path. true;
  create_client = λ spec s. (ok tt, s + 1);
  create_checker_client = λ s. (ok tt, s + 1);
  prepare_program = λ key source isolation cgroup s. (ok (program_of true), s + 1);
  prepare_checker = λ source limits isolation cgroup s. (ok (program_of true), s + 1);
  run = λ input limits isolation cgroup s. (
    ok (record {
      status = Status.ac;
      run = process Status.ac;
      stdout_path = "o";
      stderr_path = "e";
    }),
    s,
  );
  run_checker = λ source input output expected isolation cgroup s. (ok true, s);
  close_checker = λ s. s - 1;
  close_program = λ s. s - 1;
  close_client = λ s. s - 1;
  close_checker_client = λ s. s - 1;
}

abbrev pub path_run : Status → PathRun
path_run status = record { status = status; run = process status; stdout = none }

-- The program ends first, with an error; the interactor follows.
abbrev pub interactive_on :
    {S : Type 0} → (open_ab open_ba close_ab close_ba : S → S) → InteractiveHost S
interactive_on open_ab open_ba close_ab close_ba = record {
  storage = remote;
  split = split_words;
  path_exists = λ s path. true;
  make_work_dir = λ s. (ok tt, s);
  write_input = λ input s. (ok tt, s);
  make_fifos = λ s. (ok tt, s);
  open_ab = λ s. (ok tt, open_ab s);
  open_ba = λ s. (ok tt, open_ba s);
  create_user_client = λ spec s. (ok tt, s);
  create_interactor_client = λ spec s. (ok tt, s);
  prepare_user = λ key source isolation cgroup s. (ok (program_of true), s);
  prepare_interactor = λ key source isolation cgroup s. (ok (program_of true), s);
  wait_first =
      λ timeout u i s. (record { user = some (some (path_run Status.re)); interactor = none }, s);
  wait_pending =
      λ timeout s. (record { user = none; interactor = some (some (path_run Status.ac)) }, s);
  interactor_stderr = λ s. (ok "bye", s);
  close_ab = close_ab;
  close_ba = close_ba;
  close_interactor_program = λ s. s;
  close_user_program = λ s. s;
  close_user_client = λ s. s;
  close_interactor_client = λ s. s;
  remove_work_dir = λ s. s;
}

-- The state counts the descriptors of both FIFOs.
abbrev pub interactive_host : InteractiveHost ℕ
interactive_host = interactive_on (λ s. s + 1) (λ s. s + 1) (λ s. s - 1) (λ s. s - 1)
