-- ===== src/AppWrappers/RunApp.antt =====
-- `run_app` of `WSGIWrapper` (app_wrappers.py).
pub mod Settled
pub mod Acts
pub mod Laws
use anycorn.Prelude.{
  ℕ, Bool, true, false, List, [], ◌∷◌, ◌++◌, Option, none, some, is_some, all, ltb, if◌then◌else◌,
}
use anycorn.Exec.{
  Exec, Error, Result, ok, err, ◌>>?◌, raise, lift, gets, modify, skip, when, ◌>>=◌, ◌>>◌,
  assertion_error, value_error, runtime_error, unicode_encode_error,
}
use anycorn.Bytes.{Bytes, Text, Headers, has, partition}
use anycorn.Events.{ℤ}
use anycorn.AppWrappers.State.{
  Python, Act, start, output, raises, Message, response_start, response_body, RunApp,
}

abbrev pub M : Type 0 → Type 0
M = Exec RunApp

-- `s.encode("latin-1")`
unfoldable pub latin_encode : Text → Result Bytes
latin_encode s = if all (λ c. ltb c 256) s then ok s else err unicode_encode_error

module _ (py : Python) where
  -- `raw, _ = status.split(" ", 1)`, `int(raw)`
  unfoldable pub parse_status : Text → Result ℤ
  parse_status status =
      if has b' ' status then py.int (partition b' ' status).0 else err value_error

  unfoldable pub encode_headers : List (Text × Text) → Result Headers
  unfolding latin_encode
  encode_headers [] = ok []
  encode_headers ((name, value) ∷ headers) =
      let rest = encode_headers headers in
      latin_encode (py.lower name) >>? λ n.
      latin_encode value >>? λ v. rest >>? λ hs. ok ((n, v) ∷ hs)

  -- Whether `start_response` may set the status
  unfoldable pub may_start : Option Error → M (Unit {0})
  may_start (some e) = do headers_sent ← gets (λ s. s.headers_sent); when headers_sent (raise e)
  may_start none = do
    status_code ← gets (λ s. s.status_code)
    when (is_some status_code) (raise assertion_error)

  -- `start_response`
  unfoldable pub start_response : Text → List (Text × Text) → Option Error → M (Unit {0})
  start_response status response_headers exc_info = do
    may_start exc_info
    status_code ← lift (parse_status status)
    modify (λ s. record s { status_code = some status_code })
    headers ← lift (encode_headers response_headers)
    modify (λ s. record s { headers = headers })

  abbrev pub send : Message → M (Unit {0})
  send m = modify (λ s. record s { messages = s.messages ++ (m ∷ []) })

  -- `send_start`, where the headers were not sent
  unfoldable pub send_first : Option ℤ → M (Unit {0})
  send_first none = raise runtime_error
  send_first (some status_code) = do
    headers ← gets (λ s. s.headers)
    send (response_start status_code headers)
    modify (λ s. record s { headers_sent = true })

  -- `send_start`
  unfoldable pub send_start : M (Unit {0})
  send_start = do s ← gets (λ s. s); if s.headers_sent then skip else send_first s.status_code

  -- `if output: ...`
  unfoldable pub send_output : Bytes → M (Unit {0})
  send_output [] = skip
  send_output (b ∷ chunk) = do send_start; send (response_body (b ∷ chunk) true)

  unfoldable pub act : Act → M (Unit {0})
  act (start status response_headers exc_info) s =
      (ok tt, (start_response status response_headers exc_info s).1)
  act (output chunk) s = send_output chunk s
  act (raises e) s = (err e, s)

  unfoldable pub act_all : List Act → M (Unit {0})
  act_all [] = skip
  act_all (a ∷ acts) = do act a; act_all acts

  -- `finally: response_body.close()`, where it has a `close`
  unfoldable pub close_after : Bool → M (Unit {0}) → M (Unit {0})
  close_after has_close m s =
      let (r, s') = m s in (r, if has_close then record s' { closed = true } else s')

  -- `run_app`: `called` is what the application does when it is called, `acts` what its iterable does.
  unfoldable pub run_app : Bool → List Act → List Act → M (Unit {0})
  run_app has_close called acts = do
    act_all called
    close_after has_close (do act_all acts; send_start)
