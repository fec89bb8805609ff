-- ===== src/ProtocolWrapper.antt =====
-- `ProtocolWrapper` (protocol/__init__.py): a connection that speaks HTTP/1.1, and may change to
-- HTTP/2, or speaks HTTP/2 from the start.
pub mod Order
use anycorn.Prelude.{ℕ, Bool, true, false, List, [], ◌∷◌, Option, none, some, if◌then◌else◌}
use anycorn.Exec.{Error, Result, ok, err, skip, ◌>>=◌, ◌>>◌, h2_assumed, h2c_required}
use anycorn.Bytes.{Bytes, Text, Headers, codes, eq}
use anycorn.Config.{Config, TlsExtension}
use anycorn.Events.{Event, ConnectionState}
use anycorn.Connection.{application}
use anycorn.H11.State.{H11, Reader, ready, looping}
use anycorn.H11
use anycorn.H2
use anycorn.H2.State.{World, sends}

-- What the errors `H2ProtocolAssumedError` and `H2CProtocolRequiredError` carry
pub record Upgrade : Type 0 where
  pub headers : Option Headers
  pub settings : Option Text
  pub chunk : Bytes

abbrev pub upgrade_of : Error → Option Upgrade
upgrade_of (h2_assumed chunk) = some (record { headers = none; settings = none; chunk = chunk })
upgrade_of (h2c_required chunk headers settings) =
    some (record { headers = some headers; settings = some settings; chunk = chunk })
upgrade_of _ = none

-- What happens next: the connection is initiated, bytes arrive, it ends, an event of a stream is sent;
-- over HTTP/1.1 the loop of `handle` takes a round, or runs again after its wait; over HTTP/2 another
-- task goes on.
pub data Op : Type 0 where
  initiate : Op
  handle_bytes : Bytes → Op
  handle_closed : Op
  stream_send : Event → Op
  next_round : Op
  resume : Op
  other_task : H2.State.Op → Op

module _ (h : H11) (x : World) where
  -- `self.protocol`
  pub data Inner : Type 0 where
    h11_protocol : H11.Calls.Protocol h → Inner
    h2_protocol : H2.Calls.Protocol x → Inner

  -- The attributes, and whether an exception has left `handle`
  pub record ProtocolWrapper : Type 0 where
    pub config : Config
    pub client : Option (Text × ℕ)
    pub server : Option (Text × Option ℕ)
    pub state : ConnectionState
    pub tls : Option TlsExtension
    pub zero_copy_send : Bool
    pub protocol : Inner
    pub failed : Bool

  unfoldable pub chosen :
      Config
      → ConnectionState
      → Option (Text × ℕ)
      → Option (Text × Option ℕ)
      → Option TlsExtension
      → Bool
      → Option Text
      → Inner
  chosen config state client server tls zero_copy_send none =
      h11_protocol (H11.State.new h config state client server tls zero_copy_send)
  chosen config state client server tls zero_copy_send (some alpn_protocol) =
      if eq alpn_protocol (codes "h2")
      then h2_protocol (H2.State.new x.h2 x.tree config state client server tls zero_copy_send)
      else h11_protocol (H11.State.new h config state client server tls zero_copy_send)

  -- `ProtocolWrapper(...)`
  unfoldable pub new :
      Config
      → ConnectionState
      → Option (Text × ℕ)
      → Option (Text × Option ℕ)
      → Option TlsExtension
      → Bool
      → Option Text
      → ProtocolWrapper
  new config state client server tls zero_copy_send alpn_protocol = record {
    config = config;
    client = client;
    server = server;
    state = state;
    tls = tls;
    zero_copy_send = zero_copy_send;
    protocol = chosen config state client server tls zero_copy_send alpn_protocol;
    failed = false;
  }

  module _ (env : H11.State.Surroundings h.Connection) (depth : ℕ) where
    abbrev pub others : H2.Calls.U x
    others = H2.Runs.meanwhile x depth

    -- `if error.data != b"": return await self.protocol.handle(RawData(data=error.data))`
    unfoldable pub hand_on : Bytes → H2.Calls.U x
    hand_on [] = skip
    hand_on (b ∷ bytes) = H2.Handle.handle_raw x others (b ∷ bytes)

    abbrev pub over_h2 : ProtocolWrapper → Result (Unit {0}) × H2.Calls.Protocol x → ProtocolWrapper
    over_h2 w (ok u, s) = record w { protocol = h2_protocol s }
    over_h2 w (err e, s) = record w { protocol = h2_protocol s; failed = true }

    -- The new `H2Protocol`
    abbrev pub replacement : ProtocolWrapper → H2.Calls.Protocol x
    replacement w =
        H2.State.new x.h2 x.tree w.config w.state w.client w.server w.tls w.zero_copy_send

    -- The handlers of the two errors
    unfoldable pub upgrade : Upgrade → ProtocolWrapper → ProtocolWrapper
    upgrade u w = over_h2 w (
        (H2.Handle.initiate x others u.headers u.settings >>= λ _. hand_on u.chunk) (replacement w))

    abbrev pub on_error : Option Upgrade → H11.Calls.Protocol h → ProtocolWrapper → ProtocolWrapper
    on_error none s w = record w { protocol = h11_protocol s; failed = true }
    on_error (some u) s w = upgrade u (record w { protocol = h11_protocol s })

    abbrev pub over_h11 :
        Result (Unit {0}) × H11.Calls.Protocol h → ProtocolWrapper → ProtocolWrapper
    over_h11 (ok u, s) w = record w { protocol = h11_protocol s }
    over_h11 (err e, s) w = on_error (upgrade_of e) s w

    -- A step of the task inside `handle`, where it is at this place
    unfoldable pub handle_h11 :
        Reader → H11.Calls.M h (Unit {0}) → H11.Calls.Protocol h → ProtocolWrapper → ProtocolWrapper
    handle_h11 place m s w =
        if w.failed then w else (if H11.Runs.is_at h place s.reader then over_h11 (m s) w else w)

    unfoldable pub step_h11 : Op → H11.Calls.Protocol h → ProtocolWrapper → ProtocolWrapper
    step_h11 initiate s w = w
    step_h11 (handle_bytes chunk) s w = handle_h11 ready (H11.Handle.handle_raw h env chunk) s w
    step_h11 handle_closed s w = record w {
      protocol = h11_protocol (H11.Calls.close_stream h env s).1;
    }
    step_h11 (stream_send e) s w = record w {
      protocol = h11_protocol (H11.Calls.stream_send h env e s).1;
    }
    step_h11 next_round s w = handle_h11 looping (H11.Handle.round h env) s w
    step_h11 resume s w = handle_h11 Reader.suspended (H11.Runs.go_on h) s w
    step_h11 (other_task op) s w = w

    unfoldable pub step_h2 : Op → H2.Calls.Protocol x → ProtocolWrapper → ProtocolWrapper
    step_h2 initiate s w = over_h2 w (H2.Handle.initiate x others none none s)
    step_h2 (handle_bytes chunk) s w = over_h2 w (H2.Handle.handle_raw x others chunk s)
    step_h2 handle_closed s w = over_h2 w (H2.Handle.handle_closed x others s)
    step_h2 (stream_send e) s w = record w {
      protocol = h2_protocol (H2.Runs.perform x others (sends application e) s).1;
    }
    step_h2 next_round s w = w
    step_h2 resume s w = w
    step_h2 (other_task op) s w = record w {
      protocol = h2_protocol (H2.Runs.perform x others op s).1;
    }

    abbrev pub step_inner : Op → Inner → ProtocolWrapper → ProtocolWrapper
    step_inner op (h11_protocol s) w = step_h11 op s w
    step_inner op (h2_protocol s) w = step_h2 op s w

    unfoldable pub step : Op → ProtocolWrapper → ProtocolWrapper
    step op w = step_inner op w.protocol w

    unfoldable pub run : List Op → ProtocolWrapper → ProtocolWrapper
    run [] w = w
    run (op ∷ ops) w = run ops (step op w)
