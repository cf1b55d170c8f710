-- ===== src/Judge.antt =====
-- app/modules/judge: the judge module. One child for each of its files.
pub mod Float
pub mod Types
pub mod Settings
pub mod SandboxConfig
pub mod Mapper
pub mod Scoring
pub mod Metrics
pub mod PoolMetrics
pub mod Checker
pub mod LanguageConfig
pub mod CaseBuilder
pub mod FileCache
pub mod DataLoader
pub mod Entries
pub mod Standard
pub mod Tally
pub mod Spj
pub mod Interactive
pub mod Orchestrator
