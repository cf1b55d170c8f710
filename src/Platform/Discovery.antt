-- ===== src/Platform/Discovery.antt =====
-- app/platform/module/discovery.py: which modules are loaded, and in which order. The manifests that
-- are found and the two environment variables are arguments.
pub mod Visit
pub mod Fuel
pub mod Order
pub mod Complete
pub mod Acyclic
