-- ===== src/Judge/Spj.antt =====
-- app/modules/judge/modes/spj.py: the SPECIAL_JUDGE mode. `Host` is what it calls.
pub mod Host
pub mod Run
pub mod Outcome
