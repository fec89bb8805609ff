-- ===== src/HttpStream.antt =====
-- protocol/http_stream.py: `HTTPStream`, between a protocol and an ASGI application.
-- `HttpStream.State` has its fields and the record of its calls, `HttpStream.Calls` the private
-- methods, `HttpStream.Handle` and `HttpStream.AppSend` the two entry points.
pub mod State
pub mod Calls
pub mod Handle
pub mod AppSend
pub mod Grammar
