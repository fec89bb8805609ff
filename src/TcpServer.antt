-- ===== src/TcpServer.antt =====
-- `TCPServer` (tcp_server.py): the task of a connection, which reads, and what its protocol sends. The
-- protocol is known by what it sends while it is called and by how the call ends; the socket by how
-- its methods end.
pub mod Aside
pub mod Reads
pub mod Ends
use anycorn.Prelude.{ℕ, zero, suc, Bool, true, false, ◌||◌, List, [], ◌∷◌, if◌then◌else◌}
use anycorn.Exec.{
  Exec, Error, Result, ok, err, raise, lift, gets, modify, skip, except, ◌>>=◌, ◌>>◌, os_error,
  attribute_error, type_error, runtime_error, closed_resource, broken_resource, busy_resource,
  end_of_stream, timed_out, ssl_zero_return, not_implemented,
}
use anycorn.Bytes.{Bytes}
use anycorn.Connection.{ServerEvent, raw_data, send_file, updated}
use anycorn.Events.{ℤ}

-- What the server asks of its protocol
pub data Inbound : Type 0 where
  initiate : Inbound
  handle_bytes : Bytes → Inbound
  handle_closed : Inbound

-- The calls, in their order
pub data Call : Type 0 where
  asked : Inbound → Call
  wrote : Bytes → Call
  transmitted : ℕ → ℕ → ℤ → Call
  sent_eof closed_stream : Call

-- The attributes: whether the lock is held and whether the idle task runs. `calls` is the record of
-- the calls, the newest first.
pub record TcpServer : Type 0 where
  pub send_lock : Bool
  pub idle_task : Bool
  pub calls : List Call

-- `TCPServer(...)`
unfoldable pub new : TcpServer
new = record { send_lock = false; idle_task = false; calls = [] }

-- `sends`: what the protocol sends while it is called; `addresses`: how the reads of the socket's
-- addresses end; `leaves_group`: what leaves the task group for an exception in its body; the others:
-- how a call ends.
pub record Surroundings : Type 0 where
  pub sends : List Call → Inbound → List ServerEvent
  pub ends : List Call → Inbound → Result (Unit {0})
  pub addresses : Result (Unit {0})
  pub leaves_group : Error → Error
  pub stream_send : List Call → Result (Unit {0})
  pub transmit : List Call → Result (Unit {0})
  pub send_eof : List Call → Result (Unit {0})
  pub aclose : List Call → Result (Unit {0})

-- What the socket receives, up to where it raises
pub data Receives : Type 0 where
  more : Bytes → Receives → Receives
  ends_with : Error → Receives

abbrev pub is_os_error : Error → Bool
is_os_error os_error = true
is_os_error _ = false

abbrev pub is_gone : Error → Bool
is_gone closed_resource = true
is_gone broken_resource = true
is_gone timed_out = true
is_gone _ = false

-- What ends the loop that reads
abbrev pub is_end : Error → Bool
is_end closed_resource = true
is_end broken_resource = true
is_end end_of_stream = true
is_end timed_out = true
is_end ssl_zero_return = true
is_end _ = false

-- What `send_eof` may raise, and what `aclose` may
abbrev pub no_eof : Error → Bool
no_eof os_error = true
no_eof broken_resource = true
no_eof attribute_error = true
no_eof not_implemented = true
no_eof type_error = true
no_eof busy_resource = true
no_eof closed_resource = true
no_eof _ = false

abbrev pub no_aclose : Error → Bool
no_aclose os_error = true
no_aclose closed_resource = true
no_aclose broken_resource = true
no_aclose busy_resource = true
no_aclose _ = false

abbrev pub no_server_close : Error → Bool
no_server_close os_error = true
no_server_close broken_resource = true
no_server_close busy_resource = true
no_server_close _ = false

abbrev pub M : Type 0 → Type 0
M = Exec TcpServer

abbrev pub U : Type 0
U = M (Unit {0})

-- A call that ends as the surroundings say
unfoldable pub ask : Call → (List Call → Result (Unit {0})) → U
ask c ending = do
  modify (λ s. record s { calls = c ∷ s.calls })
  calls ← gets (λ s. s.calls)
  lift (ending calls)

unfoldable pub set_lock : Bool → U
set_lock held = modify (λ s. record s { send_lock = held })

unfoldable pub set_idle_task : Bool → U
set_idle_task running = modify (λ s. record s { idle_task = running })

-- `try: ... finally: handler`
abbrev pub then_finally : Result (Unit {0}) → U → U
then_finally (ok u) handler s = handler s
then_finally (err e) handler s = (handler >>= λ _. raise e) s

unfoldable pub finally : U → U → U
finally m handler s = let (r, s') = m s in then_finally r handler s'

module _ (env : Surroundings) where
  -- `_close`
  unfoldable pub close : U
  close = do
    except (ask sent_eof env.send_eof) no_eof skip
    except (ask closed_stream env.aclose) no_aclose skip

  module _ (handle : Inbound → U) where
    unfoldable pub locked : Bool → U → U
    locked true m = raise runtime_error
    locked false m = do set_lock true; finally m (set_lock false)

    -- `async with self.send_lock`: a lock that its own task holds is refused.
    unfoldable pub with_lock : U → U
    with_lock m = do held ← gets (λ s. s.send_lock); locked held m

    -- `protocol_send`
    unfoldable pub protocol_send : ServerEvent → U
    protocol_send (raw_data chunk) =
        with_lock (except (ask (wrote chunk) env.stream_send) is_gone (handle handle_closed))
    protocol_send (send_file file offset count) = with_lock (
        except (ask (transmitted file offset count) env.transmit) (λ e. is_gone e || is_os_error e)
          (handle handle_closed))
    protocol_send ServerEvent.closed = do close; handle handle_closed
    protocol_send (updated idle) = set_idle_task idle

    unfoldable pub send_all : List ServerEvent → U
    send_all [] = skip
    send_all (e ∷ events) = do protocol_send e; send_all events

  -- A call of the protocol, within `depth` calls of it at most
  unfoldable pub handle : ℕ → Inbound → U
  handle zero i = ask (asked i) (λ calls. env.ends calls i)
  handle (suc depth) i = do
    modify (λ s. record s { calls = asked i ∷ s.calls })
    events ← gets (λ s. env.sends s.calls i)
    send_all (handle depth) events
    calls ← gets (λ s. s.calls)
    lift (env.ends calls i)

  module _ (depth : ℕ) where
    -- `_read_data`
    unfoldable pub read_data : Receives → U
    read_data (ends_with e) = if is_end e then handle depth handle_closed else raise e
    read_data (more [] rest) = do handle depth (handle_bytes []); handle depth handle_closed
    read_data (more (b ∷ bytes) rest) = do handle depth (handle_bytes (b ∷ bytes)); read_data rest

    -- The body of the task group of `run`
    unfoldable pub serve : Receives → U
    serve r = do handle depth initiate; set_idle_task true; read_data r

    abbrev pub grouped : Result (Unit {0}) × TcpServer → Result (Unit {0}) × TcpServer
    grouped (ok u, s) = (ok u, s)
    grouped (err e, s) = (err (env.leaves_group e), s)

    -- `async with TaskGroup()`
    unfoldable pub in_group : U → U
    in_group m s = grouped (m s)

    -- `run`
    unfoldable pub run : Receives → U
    run r = finally (except (do lift env.addresses; in_group (serve r)) is_os_error skip) close

    -- `_idle_timeout`, once its time is up or the worker terminates
    unfoldable pub idle_timeout : U
    idle_timeout = do
      handle depth handle_closed
      except (ask closed_stream env.aclose) no_server_close skip
