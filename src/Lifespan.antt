-- ===== src/Lifespan.antt =====
-- `Lifespan` (lifespan.py): the task that runs the application's lifespan, and the waits for it.
pub mod Laws
use anycorn.Prelude.{
  ℕ, Bool, true, false, not, ◌||◌, List, [], ◌∷◌, ◌++◌, Option, none, some, any, if◌then◌else◌,
}
use anycorn.Exec.{
  Exec, Error, Result, ok, err, raise, modify, gets, when, ◌>>=◌, ◌>>◌, cancelled, lifespan_failure,
  lifespan_timeout, closed_resource, unexpected_message,
}
use anycorn.Bytes.{Text, codes}

-- The messages that the application receives
pub data Stage : Type 0 where
  startup shutdown : Stage

-- What the application sends, with `message.get("message", "")` filled in
pub data Message : Type 0 where
  startup_complete shutdown_complete other : Message
  startup_failed shutdown_failed : Text → Message

-- The lines in the log
pub data Log : Type 0 where
  without_support shutdown_without_support after_shutdown : Log

-- How the call of the application ends: the exception is one, or a group of them.
pub data Ending : Type 0 where
  returned : Ending
  raised : Error → Ending
  grouped : List Error → Ending

-- The attributes: whether the two events are set, and the channel with its messages, which is closed
-- at both ends at once. `logs` is the record of the log, the newest first.
pub record Lifespan : Type 0 where
  pub startup : Bool
  pub shutdown : Bool
  pub supported : Bool
  pub closed : Bool
  pub channel : List Stage
  pub logs : List Log

-- `Lifespan(...)`
unfoldable pub new : Lifespan
new = record {
  startup = false;
  shutdown = false;
  supported = true;
  closed = false;
  channel = [];
  logs = [];
}

abbrev M : Type 0 → Type 0
M = Exec Lifespan

-- `asgi_send`
unfoldable pub asgi_send : Message → M (Unit {0})
asgi_send Message.startup_complete = modify (λ s. record s { startup = true })
asgi_send Message.shutdown_complete = modify (λ s. record s { shutdown = true })
asgi_send (Message.startup_failed message) = raise (lifespan_failure (codes "startup") message)
asgi_send (Message.shutdown_failed message) = raise (lifespan_failure (codes "shutdown") message)
asgi_send Message.other = raise unexpected_message

-- `(LifespanFailureError, anyio.get_cancelled_exc_class())`
unfoldable pub is_passed : Error → Bool
is_passed (lifespan_failure stage message) = true
is_passed cancelled = true
is_passed _ = false

-- Those of a group
unfoldable pub subgroup : List Error → List Error
unfolding is_passed
subgroup [] = []
subgroup (e ∷ errors) = let rest = subgroup errors in if is_passed e then e ∷ rest else rest

-- The line that an error of the application leaves in the log
unfoldable pub log_of : Lifespan → Log
log_of s =
    if not s.startup
    then Log.without_support
    else if not s.shutdown
    then Log.shutdown_without_support
    else Log.after_shutdown

-- `self.supported = False`, and the line
unfoldable pub give_up : Lifespan → Lifespan
unfolding log_of
give_up s = record s { supported = false; logs = log_of s ∷ s.logs }

-- `finally: ...`
unfoldable pub finish : Lifespan → Lifespan
finish s = record s { startup = true; shutdown = true; closed = true }

-- A group of errors, with those of it that are raised again
unfoldable pub after_group : List Error → Lifespan → Option Ending × Lifespan
unfolding give_up finish
after_group [] s = (none, finish (give_up s))
after_group (e ∷ errors) s = (some (grouped (e ∷ errors)), finish s)

-- `handle_lifespan`, once the call of the application has ended: what it raises, and the state
unfoldable pub handle_lifespan : Ending → Lifespan → Option Ending × Lifespan
unfolding is_passed subgroup give_up finish after_group
handle_lifespan returned s = (none, finish s)
handle_lifespan (raised e) s =
    if is_passed e then (some (raised e), finish s) else (none, finish (give_up s))
handle_lifespan (grouped errors) s = after_group (subgroup errors) s

-- `self.app_send_channel.send(...)`
unfoldable pub put : Stage → M (Unit {0})
put stage = do
  closed ← gets (λ s. s.closed)
  if closed
      then raise closed_resource
      else modify (λ s. record s { channel = s.channel ++ (stage ∷ []) })

-- The `wait` of an event: `later` is what the other tasks do until it is set or the time is over.
unfoldable pub await_event : (Lifespan → Lifespan) → (Lifespan → Bool) → Text → M (Unit {0})
await_event later is_set stage = do
  modify later
  set ← gets is_set
  when (not set) (raise (lifespan_timeout stage))

-- `wait_for_startup`
unfoldable pub wait_for_startup : (Lifespan → Lifespan) → M (Unit {0})
wait_for_startup later = do
  supported ← gets (λ s. s.supported)
  when supported (do put Stage.startup; await_event later (λ s. s.startup) (codes "startup"))

-- `wait_for_shutdown`
unfoldable pub wait_for_shutdown : (Lifespan → Lifespan) → M (Unit {0})
wait_for_shutdown later = do
  supported ← gets (λ s. s.supported)
  when supported (do put Stage.shutdown; await_event later (λ s. s.shutdown) (codes "shutdown"))

-- What the application does in turn. An exception of `asgi_send` goes to the application.
pub data Act : Type 0 where
  sends : Message → Act
  ends : Ending → Act

-- Nothing comes after the end.
unfoldable pub run : List Act → Lifespan → Lifespan
unfolding asgi_send handle_lifespan
run [] s = s
run (sends m ∷ acts) s = run acts (asgi_send m s).1
run (ends ending ∷ acts) s = (handle_lifespan ending s).1
