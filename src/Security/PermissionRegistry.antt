-- ===== src/Security/PermissionRegistry.antt =====
-- app/core/security/permission_registry.py: the permissions that the routes of the application ask
-- for, and the copy of them in Redis. The application's routes are an input.
pub mod Routes
pub mod Scan
pub mod Registry
pub mod Keys
pub mod Registered
