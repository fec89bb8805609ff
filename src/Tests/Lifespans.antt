-- ===== src/Tests/Lifespans.antt =====
-- An application that returns from its lifespan.
use anycorn.Prelude.{◌≡◌, refl, not, List, [], ◌∷◌}
use anycorn.Exec.{err, closed_resource}
use anycorn.Lifespan.{Message, Ending, new, wait_for_shutdown, Act, sends, ends, run}
use anycorn.Lifespan.Laws.{is_started, is_stopped, is_failed, run-new, wait_for_shutdown_over}

-- It starts, and does not wait for the shutdown.
abbrev acts : List Act
acts = sends Message.startup_complete ∷ ends Ending.returned ∷ []

run-new_example :
    ((run acts new).startup ≡ is_started acts)
    × ((run acts new).shutdown ≡ is_stopped acts)
    × ((run acts new).supported ≡ not (is_failed acts))
run-new_example = run-new acts

wait_for_shutdown_over_example : (wait_for_shutdown (λ s. s) (run acts new)).0 ≡ err closed_resource
wait_for_shutdown_over_example = wait_for_shutdown_over acts (λ s. s) refl refl
