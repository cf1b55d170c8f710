-- ===== src/Platform.antt =====
-- app/platform: the modules of the application.
pub mod Spec
pub mod Discovery
pub mod Loader
