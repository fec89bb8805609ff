-- ===== src/AppWrappers/Lifespan.antt =====
-- `_handle_lifespan` of `WSGIWrapper` (app_wrappers.py), and what the server sees of it (lifespan.py).
use anycorn.Prelude.{◌≡◌, ◌∙◌, sym, ap, refl, not, true, false, List, [], ◌∷◌}
use anycorn.Lifespan.{Stage, startup, shutdown, Message, returned, new, Act, sends, ends, run}
use anycorn.Lifespan.Laws.{is_stopped, is_over, is_failed, run-over, run-new}

-- `_handle_lifespan`, for the messages that `receive` returns: it answers each, and returns after the
-- shutdown.
unfoldable pub answer_lifespan : List Stage → List Act
answer_lifespan [] = []
answer_lifespan (startup ∷ messages) = sends Message.startup_complete ∷ answer_lifespan messages
answer_lifespan (shutdown ∷ messages) = sends Message.shutdown_complete ∷ ends returned ∷ []

over-stopped :
    (messages : List Stage)
    → is_over (answer_lifespan messages) ≡ is_stopped (answer_lifespan messages)
unfolding answer_lifespan
over-stopped [] = refl
over-stopped (startup ∷ messages) = over-stopped messages
over-stopped (shutdown ∷ messages) = refl

not_failed : (messages : List Stage) → is_failed (answer_lifespan messages) ≡ false
unfolding answer_lifespan
not_failed [] = refl
not_failed (startup ∷ messages) = not_failed messages
not_failed (shutdown ∷ messages) = refl

-- Whatever the server sends, a WSGI application's lifespan closes the channel only with the answer to
-- the shutdown, and it stays supported.
run-answer_lifespan :
    (messages : List Stage)
    → ((run (answer_lifespan messages) new).closed ≡ (run (answer_lifespan messages) new).shutdown)
      × ((run (answer_lifespan messages) new).supported ≡ true)
run-answer_lifespan messages =
    let (a, b, c) = run-new (answer_lifespan messages) in
    (
      run-over (answer_lifespan messages) ∙ over-stopped messages ∙ sym b,
      c ∙ ap not (not_failed messages),
    )
