-- ===== src/Judge/Standard.antt =====
-- app/modules/judge/modes/standard.py: the STANDARD mode. `Host` is what it calls, `Batch` the
-- part that computes, `Run` the part that acts; the theorems stand in the other children.
pub mod Host
pub mod Batch
pub mod Run
pub mod Stopping
pub mod Closing
pub mod Verdict
