-- ===== src/H2/Buffer.antt =====
-- protocol/h2.py `StreamBuffer`: the bytes of a stream that wait for the flow control window, the
-- task that pushes them, and the sending task that pops them.
pub mod Runs
pub mod Marks
use anycorn.Prelude.{
  ℕ, ◌+◌, Bool, true, false, ◌&&◌, List, [], ◌++◌, min, length, take, drop, ltb, leb, ◌==◌,
  if◌then◌else◌,
}
use anycorn.Exec.{Result, ok, err, buffer_complete}
use anycorn.Bytes.{Bytes}
use anycorn.WorkerContext.{EventWrapper, new_event, clear, wait, set}

-- `BUFFER_HIGH_WATER`
abbrev pub buffer_high_water : ℕ
buffer_high_water = 32768

-- `BUFFER_LOW_WATER`
abbrev pub buffer_low_water : ℕ
buffer_low_water = 16384

pub record StreamBuffer : Type 0 where
  pub buffer : Bytes
  pub complete : Bool
  pub is_empty : EventWrapper
  pub paused : EventWrapper

-- `StreamBuffer(event_class)`
abbrev pub new : StreamBuffer
new = record { buffer = []; complete = false; is_empty = new_event; paused = new_event }

-- `drain`
unfoldable pub drain : StreamBuffer → StreamBuffer
unfolding wait
drain b = record b { is_empty = wait b.is_empty }

-- `set_complete`
unfoldable pub set_complete : StreamBuffer → StreamBuffer
set_complete b = record b { complete = true }

-- `close`
unfoldable pub close : StreamBuffer → StreamBuffer
unfolding set
close b = record { buffer = []; complete = true; is_empty = set b.is_empty; paused = set b.paused }

-- `complete`
unfoldable pub is_complete : StreamBuffer → Bool
is_complete b = b.complete && length b.buffer == 0

-- `push`, up to `await self._paused.wait()`.
unfoldable pub push : Bytes → StreamBuffer → Result (Unit {0}) × StreamBuffer
unfolding clear wait
push chunk b =
    let buffer = b.buffer ++ chunk in
    if b.complete then (err buffer_complete, b) else (
      ok tt,
      record b {
        buffer = buffer;
        is_empty = clear b.is_empty;
        paused = if leb buffer_high_water (length buffer) then wait b.paused else b.paused;
      },
    )

-- `pop`
unfoldable pub pop : ℕ → StreamBuffer → Bytes × StreamBuffer
unfolding set
pop max_length b =
    let n = min (length b.buffer) max_length in
    let rest = drop n b.buffer in
    (
      take n b.buffer,
      record b {
        buffer = rest;
        paused = if ltb (length rest) buffer_low_water then set b.paused else b.paused;
        is_empty = if length rest == 0 then set b.is_empty else b.is_empty;
      },
    )
