-- ===== src/Security.antt =====
-- app/core/security: the parts that need no cryptographic library.
pub mod Masking
pub mod PasswordPolicy
pub mod Permission
pub mod PermissionRegistry
pub mod DataScope
pub mod Captcha
pub mod OneTime
pub mod Session
