-- ===== src/H2.antt =====
-- protocol/h2.py
pub mod Buffer
pub mod State
pub mod Calls
pub mod Opening
pub mod Sending
pub mod Handle
pub mod Runs
pub mod Order
pub mod Closing
pub mod Reset
