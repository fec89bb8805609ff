-- ===== src/AppWrappers/State.antt =====
-- What a WSGI application does, and what the wrapper (app_wrappers.py) makes of it.
use anycorn.Prelude.{ℕ, Bool, false, List, [], Option, none}
use anycorn.Exec.{Error, Result}
use anycorn.Bytes.{Bytes, Text, Headers}
use anycorn.Events.{ℤ}

-- Python's `int(s)`, `str(n)`, `s.lower()` and `s.upper()`
pub record Python : Type 0 where
  pub int : Text → Result ℤ
  pub str : ℕ → Text
  pub lower : Text → Text
  pub upper : Text → Text

-- What the application does in turn: it calls `start_response`, with the exception of `exc_info`
-- where there is one, it hands over a piece of the body, or it raises. An exception of
-- `start_response` goes to the application, which may raise it next.
pub data Act : Type 0 where
  start : Text → List (Text × Text) → Option Error → Act
  output : Bytes → Act
  raises : Error → Act

-- The messages that are sent for it
pub data Message : Type 0 where
  response_start : ℤ → Headers → Message
  response_body : Bytes → Bool → Message

-- The local variables of `run_app`, whether the iterable was closed, and the messages in their order
pub record RunApp : Type 0 where
  pub status_code : Option ℤ
  pub headers : Headers
  pub headers_sent : Bool
  pub closed : Bool
  pub messages : List Message

abbrev pub fresh : RunApp
fresh = record {
  status_code = none;
  headers = [];
  headers_sent = false;
  closed = false;
  messages = [];
}
