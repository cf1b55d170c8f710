-- ===== src/Judge/Interactive.antt =====
-- app/modules/judge/modes/interactive.py: the INTERACTIVE mode. `Host` is what it calls, `Race` the
-- wait for the two programs, `Run` the loop; the theorems stand in the other children.
pub mod Host
pub mod Race
pub mod Run
pub mod Balance
pub mod Descriptors
pub mod Cases
pub mod Outcome
