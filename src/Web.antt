-- ===== src/Web.antt =====
-- app/deps and app/middleware: the checks in front of the handlers of a request.
pub mod Auth
pub mod RateLimit
