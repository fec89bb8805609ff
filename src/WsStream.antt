-- ===== src/WsStream.antt =====
-- protocol/ws_stream.py: `WSStream`, the stream of one WebSocket.
pub mod State
pub mod Handshake
pub mod Buffer
pub mod Calls
pub mod Handle
pub mod AppSend
pub mod Loop
pub mod Grammar
pub mod Faults
