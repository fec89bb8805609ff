-- ===== src/AppWrappers/RunApp/Laws.antt =====
-- What `run_app` (app_wrappers.py) sends, against a description that reads what the application did.
use mathlib.Core.List.{append_assoc, append-nil}
use anycorn.Prelude.{
  ℕ, ◌≡◌, ◌∙◌, sym, ap, refl, Bool, true, false, List, [], ◌∷◌, ◌++◌, Option, none, some,
  if◌then◌else◌,
}
use anycorn.Exec.{Result, ok, err, ◌>>=◌, continue}
use anycorn.Bytes.{Bytes, Headers}
use anycorn.Events.{ℤ}
use anycorn.AppWrappers.State.{
  Python, Act, start, output, raises, Message, response_start, response_body, RunApp, fresh,
}
use anycorn.AppWrappers.RunApp.{send_start, act, act_all, close_after, run_app}
use anycorn.AppWrappers.RunApp.Settled.{called_with, settled, bodies}
use anycorn.AppWrappers.RunApp.Acts.{
  IsSent, start-IsSent, start-unsent, whole, whole-cons, whole-nil, returned, not_returned,
  act-start, act-empty, act-raises, act-sent, send_start-sent, started, send_start-some,
  send_start-none, act-first,
}

module _ (py : Python) where
  whole-sent :
      (acts : List Act) (s s' : RunApp)
      → IsSent py s
      → whole py acts s ≡ (ok tt, s')
      → s'.messages ≡ s.messages ++ bodies py acts
  unfolding bodies
  whole-sent [] s s' (h, k) e =
      ap (λ x. x.messages) (sym (returned py (rw (whole-nil py s, send_start-sent py s h) at e)))
      ∙ sym (append-nil s.messages)
  whole-sent (start status headers exc_info ∷ acts) s s' (h, k) e =
      whole-sent acts s s' (h, k)
        (rw
          (
            whole-cons py (start status headers exc_info) acts s,
            act-start py status headers exc_info s,
            start-IsSent py s status headers exc_info (h, k),
          )
          at e)
  whole-sent (output [] ∷ acts) s s' (h, k) e =
      whole-sent acts s s' (h, k) (rw (whole-cons py (output []) acts s, act-empty py s) at e)
  whole-sent (output (b ∷ chunk) ∷ acts) s s' (h, k) e =
      whole-sent acts (record s { messages = s.messages ++ (response_body (b ∷ chunk) true ∷ []) })
        s' (h, k) (rw (whole-cons py (output (b ∷ chunk)) acts s, act-sent py b chunk s h) at e)
      ∙ append_assoc s.messages (response_body (b ∷ chunk) true ∷ []) (bodies py acts)
  whole-sent (raises x ∷ acts) s s' (h, k) e =
      absurd (not_returned py (rw (whole-cons py (raises x) acts s, act-raises py x s) at e))

  -- The start with the status and the headers of `head`, and `rest` behind it
  abbrev pub Begins : Option ℤ × Headers → List Message → List Message → List Message → Type 0
  Begins head old rest now =
      (status : ℤ) × (head.0 ≡ some status) × (now ≡ old ++ (response_start status head.1 ∷ rest))

  -- The first piece of body, or the end
  first-sent :
      (b : ℕ) (chunk : Bytes) (acts : List Act) (s s' : RunApp) (o : Option ℤ)
      → s.headers_sent ≡ false
      → s.status_code ≡ o
      → whole py (output (b ∷ chunk) ∷ acts) s ≡ (ok tt, s')
      → Begins (o, s.headers) s.messages (bodies py (output (b ∷ chunk) ∷ acts)) s'.messages
  unfolding bodies
  first-sent b chunk acts s s' none h k e = absurd (
      not_returned py (
        rw
          (
            whole-cons py (output (b ∷ chunk)) acts s,
            act-first py b chunk s,
            send_start-none py s h k,
          )
          at e))
  first-sent b chunk acts s s' (some status) h k e =
      let sent = started py status s in
      (
        status,
        refl,
        whole-sent acts
              (record sent { messages = sent.messages ++ (response_body (b ∷ chunk) true ∷ []) }) s'
              (refl, rw k refl)
              (rw
                (
                  whole-cons py (output (b ∷ chunk)) acts s,
                  act-first py b chunk s,
                  send_start-some py status s h k,
                )
                at e)
            ∙ append_assoc (s.messages ++ (response_start status s.headers ∷ []))
                (response_body (b ∷ chunk) true ∷ []) (bodies py acts)
            ∙ append_assoc s.messages (response_start status s.headers ∷ [])
                (response_body (b ∷ chunk) true ∷ bodies py acts),
      )

  at_end :
      (s s' : RunApp) (o : Option ℤ)
      → s.headers_sent ≡ false
      → s.status_code ≡ o
      → send_start py s ≡ (ok tt, s')
      → Begins (o, s.headers) s.messages [] s'.messages
  at_end s s' none h k e = absurd (not_returned py (rw (send_start-none py s h k) at e))
  at_end s s' (some status) h k e = (
    status,
    refl,
    ap (λ x. x.messages) (sym (returned py (rw (send_start-some py status s h k) at e))),
  )

  whole-unsent :
      (acts : List Act) (s s' : RunApp)
      → s.headers_sent ≡ false
      → whole py acts s ≡ (ok tt, s')
      → Begins (settled py acts (s.status_code, s.headers)) s.messages (bodies py acts) s'.messages
  unfolding settled bodies
  whole-unsent [] s s' h e = at_end s s' s.status_code h refl (rw (whole-nil py s) at e)
  whole-unsent (start status headers exc_info ∷ acts) s s' h e =
      whole-unsent acts
        (record s {
          status_code = (called_with py status headers exc_info (s.status_code, s.headers)).0;
          headers = (called_with py status headers exc_info (s.status_code, s.headers)).1;
        })
        s' h
        (rw
          (
            whole-cons py (start status headers exc_info) acts s,
            act-start py status headers exc_info s,
            start-unsent py s status headers exc_info h,
          )
          at e)
  whole-unsent (output [] ∷ acts) s s' h e =
      whole-unsent acts s s' h (rw (whole-cons py (output []) acts s, act-empty py s) at e)
  whole-unsent (output (b ∷ chunk) ∷ acts) s s' h e =
      first-sent b chunk acts s s' s.status_code h refl e
  whole-unsent (raises x ∷ acts) s s' h e =
      absurd (not_returned py (rw (whole-cons py (raises x) acts s, act-raises py x s) at e))

  whole-append :
      (xs ys : List Act) (s : RunApp)
      → whole py (xs ++ ys) s ≡ continue (act_all py xs s).0 (λ _. whole py ys) (act_all py xs s).1
  unfolding act_all ◌>>=◌
  whole-append [] ys s = refl
  whole-append (x ∷ xs) ys s =
      whole-cons py x (xs ++ ys) s ∙ onward (whole-append xs ys) (act py x s)
    where
      onward :
          ((s1 : RunApp)
            → whole py (xs ++ ys) s1
              ≡ continue (act_all py xs s1).0 (λ _. whole py ys) (act_all py xs s1).1)
          → (r : Result (Unit {0}) × RunApp)
          → continue r.0 (λ _. whole py (xs ++ ys)) r.1
            ≡ continue
                (continue r.0 (λ _. act_all py xs) r.1).0
                (λ _. whole py ys)
                (continue r.0 (λ _. act_all py xs) r.1).1
      onward rest (ok u, s1) = rest s1
      onward rest (err e, s1) = refl

  -- Closing the iterable sends nothing.
  closed-messages :
      (has_close : Bool) (r : Result (Unit {0}) × RunApp) (s' : RunApp)
      → ◌≡◌ {A = Result (Unit {0}) × RunApp}
          (r.0, if has_close then record r.1 { closed = true } else r.1)
          (ok tt, s')
      → (s1 : RunApp) × (r ≡ (ok tt, s1)) × (s'.messages ≡ s1.messages)
  closed-messages has_close (err x, s1) s' e = absurd (not_returned py e)
  closed-messages true (ok u, s1) s' e = (s1, refl, ap (λ x. x.messages) (sym (returned py e)))
  closed-messages false (ok u, s1) s' e = (s1, refl, ap (λ x. x.messages) (sym (returned py e)))

  run_app-whole :
      (has_close : Bool) (called acts : List Act) (s s' : RunApp)
      → run_app py has_close called acts s ≡ (ok tt, s')
      → (s1 : RunApp) × (whole py (called ++ acts) s ≡ (ok tt, s1)) × (s'.messages ≡ s1.messages)
  unfolding run_app close_after ◌>>=◌
  run_app-whole has_close called acts s s' e =
      let (s1, w, m) = ran (act_all py called s) e in (s1, whole-append called acts s ∙ w, m)
    where
      ran :
          (r : Result (Unit {0}) × RunApp)
          → continue r.0 (λ _. close_after py has_close (whole py acts)) r.1 ≡ (ok tt, s')
          → (s1 : RunApp) × (continue r.0 (λ _. whole py acts) r.1 ≡ (ok tt, s1))
            × (s'.messages ≡ s1.messages)
      ran (err x, s0) e = absurd (not_returned py e)
      ran (ok u, s0) e = closed-messages has_close (whole py acts s0) s' e

  -- Where `run_app` returns, the application had set a status when it first handed over a piece of
  -- body that is not empty, or by the end where it handed over none; and what was sent is one start
  -- of the response, with this status and the headers set by then, and then the pieces that are not
  -- empty, in order.
  pub run_app-messages :
      (has_close : Bool) (called acts : List Act) (s' : RunApp)
      → run_app py has_close called acts fresh ≡ (ok tt, s')
      → (status : ℤ) × ((settled py (called ++ acts) (none, [])).0 ≡ some status)
        × (s'.messages
            ≡ response_start status (settled py (called ++ acts) (none, [])).1
              ∷ bodies py (called ++ acts))
  run_app-messages has_close called acts s' e =
      let (s1, w, m) = run_app-whole has_close called acts fresh s' e in
      let (status, known, sent) = whole-unsent (called ++ acts) fresh s1 refl w in
      (status, known, m ∙ sent)
