-- ===== src/AppWrappers.antt =====
-- `WSGIWrapper` (app_wrappers.py): an application of WSGI behind the ASGI calls.
pub mod State
pub mod RunApp
pub mod Environ
pub mod HandleHttp
pub mod Lifespan
