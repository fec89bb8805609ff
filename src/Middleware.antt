-- ===== src/Middleware.antt =====
-- The ASGI middleware of the repository.
pub mod ProxyFix
pub mod Dispatcher
pub mod HttpToHttps
