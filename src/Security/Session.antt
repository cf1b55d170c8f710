-- ===== src/Security/Session.antt =====
-- app/core/security/session.py with the keys of app/platform/cache/keys.py: the login sessions that
-- are kept in Redis. Redis, json and datetime are parameters.
pub mod Services
pub mod Store
pub mod Effects
pub mod Commands
pub mod Index
pub mod Deletion
pub mod Steps
pub mod Revoke
pub mod Prune
