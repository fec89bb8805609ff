-- ===== src/H11.antt =====
-- `H11Protocol` (protocol/h11.py): a connection that speaks HTTP/1.1.
pub mod State
pub mod Adapter
pub mod Requests
pub mod Calls
pub mod Handle
pub mod Runs
pub mod Order
