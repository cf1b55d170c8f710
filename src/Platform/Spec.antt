-- ===== src/Platform/Spec.antt =====
-- app/platform/module/spec.py: the declarations of a module. A path is the text that `import_string`
-- reads.
use acoj_worker.Common.{ℕ, String, Bool, List}

pub record RouteSpec : Type 0 where
  pub version : String
  pub router : String
  pub prefix : String
  pub tags : List String
  pub order : ℕ

-- `schedule` is a number of seconds, here of microseconds.
pub record BeatScheduleSpec : Type 0 where
  pub name : String
  pub task : String
  pub schedule : ℕ

pub record ServiceRegistration : Type 0 where
  pub interface : String
  pub implementation : String

pub record ModuleSpec : Type 0 where
  pub name : String
  pub enabled : Bool
  pub enabled_key : String
  pub routes : List RouteSpec
  pub models : List String
  pub tasks : List String
  pub beat_schedules : List BeatScheduleSpec
  pub startup_hooks : List String
  pub shutdown_hooks : List String
  pub order : ℕ
  pub config_model : String
  pub config_from_db : Bool
  pub services : List ServiceRegistration
  pub event_handlers : List String
  pub depends_on : List String
