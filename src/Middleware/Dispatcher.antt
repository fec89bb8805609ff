-- ===== src/Middleware/Dispatcher.antt =====
-- middleware/dispatcher.py: the mounted applications, by the prefix of the path, and the one
-- lifespan that is made of theirs.
pub mod Laws
pub mod Mounts
use anycorn.Prelude.{
  ℕ, suc, Bool, true, false, not, ◌&&◌, ◌||◌, List, [], ◌∷◌, ◌++◌, Option, none, some, ◌==◌,
  if◌then◌else◌, all,
}
use anycorn.Bytes.{Text, codes, eq, starts_with, rstrip}

abbrev pub is_slash : ℕ → Bool
is_slash c = c == b'/'

-- `_mounted_at`
unfoldable pub mounted_at : Bool → Text → Text → Bool
mounted_at strict_paths path mount =
    if strict_paths
    then eq path mount || starts_with path (rstrip is_slash mount ++ b'/' ∷ [])
    else starts_with path mount

-- The loop of `__call__`: the mount that takes a path, which is the first that matches.
unfoldable pub find_mount : Bool → List Text → Text → Option Text
unfolding mounted_at
find_mount strict_paths [] path = none
find_mount strict_paths (mount ∷ mounts) path =
    let rest = find_mount strict_paths mounts path in
    if mounted_at strict_paths path mount then some mount else rest

-- What the dispatcher keeps of one mount.
pub record Mount : Type 0 where
  pub path : Text
  pub startup_complete : Bool
  pub shutdown_complete : Bool
  pub failed : Bool

-- The lifespan messages of an application
pub data Message : Type 0 where
  startup_complete shutdown_complete startup_failed shutdown_failed other : Message

abbrev pub is_failure : Message → Bool
is_failure startup_failed = true
is_failure shutdown_failed = true
is_failure _ = false

unfoldable pub update : Text → (Mount → Mount) → List Mount → List Mount
update path f [] = []
update path f (mount ∷ mounts) =
    (if eq mount.path path then f mount else mount) ∷ update path f mounts

-- The mounts, and the messages sent to the server, the newest first.
abbrev pub Dispatcher : Type 0
Dispatcher = List Mount × List Message

abbrev pub all_started : List Mount → Bool
all_started = all (λ mount. mount.startup_complete)

abbrev pub all_shut : List Mount → Bool
all_shut = all (λ mount. mount.shutdown_complete)

-- `send`
unfoldable pub send : Text → Message → Dispatcher → Dispatcher
unfolding update
send path startup_complete (mounts, sent) =
    let mounts' = update path (λ mount. record mount { startup_complete = true }) mounts in
    (mounts', if all_started mounts' then startup_complete ∷ sent else sent)
send path shutdown_complete (mounts, sent) =
    let mounts' = update path (λ mount. record mount { shutdown_complete = true }) mounts in
    (mounts', if all_shut mounts' then shutdown_complete ∷ sent else sent)
send path startup_failed (mounts, sent) =
    (update path (λ mount. record mount { failed = true }) mounts, startup_failed ∷ sent)
send path shutdown_failed (mounts, sent) =
    (update path (λ mount. record mount { failed = true }) mounts, shutdown_failed ∷ sent)
send path other (mounts, sent) = (mounts, sent)

-- `_run_mount` once the application of `mount`, as the dispatcher keeps it then, has ended, with an
-- exception or not: the dispatcher, and whether the exception goes on.
unfoldable pub complete_startup : Text → Bool → Dispatcher → Dispatcher
complete_startup path started d = if started then d else send path startup_complete d

unfoldable pub complete_shutdown : Text → Bool → Dispatcher → Dispatcher
complete_shutdown path shut d = if shut then d else send path shutdown_complete d

unfoldable pub finish_mount : Mount → Bool → Dispatcher → Dispatcher × Bool
finish_mount mount raised d =
    if raised && (mount.startup_complete || mount.failed)
    then (d, true)
    else if mount.failed
    then (d, false)
    else (
      complete_shutdown mount.path mount.shutdown_complete
          (complete_startup mount.path mount.startup_complete d),
      false,
    )
