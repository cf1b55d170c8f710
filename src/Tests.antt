-- ===== src/Tests.antt =====
-- Runs on small inputs, and the theorems applied to them. One child for each part of the program.
mod Samples
mod Scoring
mod Checker
mod Hosts
mod Loader
mod Standard
mod Spj
mod Interactive
mod Security
mod Network
mod Platform
mod Session
mod Auth
mod Registry
mod Captcha
mod OneTime
mod PoolMetrics
mod RateLimit
