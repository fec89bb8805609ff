-- ===== src/Middleware/Dispatcher/Laws.antt =====
-- What the lifespan of middleware/dispatcher.py reports.
use anycorn.Prelude.{◌≡◌, Bool, true, false, List, [], ◌∷◌, any}
use anycorn.Bytes.{Text}
use anycorn.Middleware.Dispatcher.{
  Mount, Message, startup_complete, shutdown_complete, Dispatcher, all_started, all_shut, send,
}

abbrev pub is_startup : Message → Bool
is_startup startup_complete = true
is_startup _ = false

abbrev pub is_shutdown : Message → Bool
is_shutdown shutdown_complete = true
is_shutdown _ = false

-- What was reported of the whole, against the mounts
abbrev pub Reports : Dispatcher → Type 0
Reports (mounts, sent) =
    (any is_startup sent ≡ all_started mounts) × (any is_shutdown sent ≡ all_shut mounts)

-- The messages of the mounts, in their order
abbrev pub send_all : List (Text × Message) → Dispatcher → Dispatcher
send_all [] d = d
send_all ((path, m) ∷ ms) d = send_all ms (send path m d)

abbrev pub fresh : Text → Mount
fresh path = record {
  path = path;
  startup_complete = false;
  shutdown_complete = false;
  failed = false;
}
