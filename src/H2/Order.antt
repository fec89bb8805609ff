-- ===== src/H2/Order.antt =====
-- The order of the calls on the streams of an `H2Protocol` (protocol/h2.py).
pub mod Calls
pub mod Opening
pub mod Sending
pub mod Handle
pub mod Whole
pub use anycorn.Connection.Lives.{absent, served, phase, nobody}
use anycorn.Prelude.{ℕ}
use anycorn.Connection.Lives
use anycorn.H2.State.{World}
use anycorn.H2.Calls.{Protocol}

module _ (x : World) where
  -- Every stream is in its turn, and the dictionary holds those that can be called.
  abbrev pub Follows : Protocol x → Type 0
  Follows s = Lives.InTurn s.calls s.streams

  -- So it is but for a stream that has just been made
  abbrev pub NewStream : ℕ → Protocol x → Type 0
  NewStream id s = Lives.NewStream id s.calls s.streams
