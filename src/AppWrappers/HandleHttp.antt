-- ===== src/AppWrappers/HandleHttp.antt =====
-- `handle_http` of `WSGIWrapper` (app_wrappers.py).
pub mod Laws
use anycorn.Prelude.{
  ℕ, Bool, true, false, List, [], ◌∷◌, ◌++◌, Option, none, some, length, ltb, if◌then◌else◌,
}
use anycorn.Exec.{Error, Result, ok, err}
use anycorn.Bytes.{Bytes}
use anycorn.Events.{pos}
use anycorn.AppWrappers.State.{Message, response_start, response_body}

-- What the loop over `receive` has come to: it waits for a message, the body is too large, or whole.
pub data Reading : Type 0 where
  waiting : Bytes → Reading
  too_large : Reading
  whole : Bytes → Reading

-- One message with its `body` and `more_body`, and the rest
unfoldable pub read_message : ℕ → Bytes → Bool → Reading → Reading
read_message max_body_size body more_body rest =
    if ltb max_body_size (length body) then too_large else if more_body then rest else whole body

-- The loop, over the messages that `receive` returns
unfoldable pub read_body : ℕ → Bytes → List (Bytes × Bool) → Reading
unfolding read_message
read_body max_body_size body [] = waiting body
read_body max_body_size body ((chunk, more_body) ∷ messages) =
    read_message max_body_size (body ++ chunk) more_body
      (read_body max_body_size (body ++ chunk) messages)

-- What is sent after the application's own messages; an exception of it ends the task.
abbrev pub finished : Result (Unit {0}) × List Message → Result (Unit {0}) × List Message
finished (ok u, messages) = (ok tt, messages ++ (response_body [] false ∷ []))
finished (err e, messages) = (err e, messages)

module _ {Environ : Type 0} where
  -- `environ` is `none` for an `InvalidPathError`.
  unfoldable pub serve :
      (Environ → Result (Unit {0}) × List Message)
      → Option Environ
      → Result (Unit {0}) × List Message
  serve run_app none = finished (ok tt, response_start (pos 404) [] ∷ [])
  serve run_app (some environ) = finished (run_app environ)

  -- What is sent once the loop has ended; nothing while it waits.
  unfoldable pub answer :
      (Bytes → Option Environ)
      → (Environ → Result (Unit {0}) × List Message)
      → Reading
      → Result (Unit {0}) × List Message
  unfolding serve
  answer build_environ run_app (waiting body) = (ok tt, [])
  answer build_environ run_app too_large = finished (ok tt, response_start (pos 400) [] ∷ [])
  answer build_environ run_app (whole body) = serve run_app (build_environ body)

  -- `handle_http`
  unfoldable pub handle_http :
      ℕ
      → (Bytes → Option Environ)
      → (Environ → Result (Unit {0}) × List Message)
      → List (Bytes × Bool)
      → Result (Unit {0}) × List Message
  unfolding read_body answer
  handle_http max_body_size build_environ run_app messages =
      answer build_environ run_app (read_body max_body_size [] messages)
