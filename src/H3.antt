-- ===== src/H3.antt =====
-- `H3Protocol` (protocol/h3.py): a connection that speaks HTTP/3.
pub mod State
pub mod Handle
pub mod Runs
pub mod Order
