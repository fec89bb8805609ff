-- ===== src/AppWrappers/RunApp/Settled.antt =====
-- What `run_app` (app_wrappers.py) is to send, read off what the application does.
use anycorn.Prelude.{true, List, [], ◌∷◌, Option, none, some}
use anycorn.Exec.{Error, Result, ok, err}
use anycorn.Bytes.{Text, Headers}
use anycorn.Events.{ℤ}
use anycorn.AppWrappers.State.{Python, Act, start, output, raises, Message, response_body}
use anycorn.AppWrappers.RunApp.{parse_status, encode_headers}

module _ (py : Python) where
  abbrev pub Head : Type 0
  Head = Option ℤ × Headers

  -- A call of `start_response` that is let through
  abbrev pub headers_of : Result Headers → Headers → Headers
  headers_of (ok headers) old = headers
  headers_of (err e) old = old

  abbrev pub head_of : Result ℤ → Result Headers → Head → Head
  head_of (ok status) headers (s, old) = (some status, headers_of headers old)
  head_of (err e) headers old = old

  -- A call before the headers are sent: a second one counts with `exc_info` only.
  abbrev pub called_with : Text → List (Text × Text) → Option Error → Head → Head
  called_with status headers (some e) head =
      head_of (parse_status py status) (encode_headers py headers) head
  called_with status headers none (some s, old) = (some s, old)
  called_with status headers none (none, old) =
      head_of (parse_status py status) (encode_headers py headers) (none, old)

  -- The status and the headers as they are at the first piece of body that is not empty, or at the end
  unfoldable pub settled : List Act → Head → Head
  settled [] head = head
  settled (start status headers exc_info ∷ acts) head =
      settled acts (called_with status headers exc_info head)
  settled (output [] ∷ acts) head = settled acts head
  settled (output (b ∷ chunk) ∷ acts) head = head
  settled (raises e ∷ acts) head = head

  -- The pieces of body that are not empty
  unfoldable pub bodies : List Act → List Message
  bodies [] = []
  bodies (output (b ∷ chunk) ∷ acts) = response_body (b ∷ chunk) true ∷ bodies acts
  bodies (output [] ∷ acts) = bodies acts
  bodies (start status headers exc_info ∷ acts) = bodies acts
  bodies (raises e ∷ acts) = bodies acts
