-- ===== src/AppWrappers/RunApp/Acts.antt =====
-- What one act of an application makes `run_app` (app_wrappers.py) send.
use anycorn.Prelude.{
  ℕ, ◌≡◌, ap, refl, true, false, List, [], ◌∷◌, ◌++◌, Option, none, some, is_some, arith,
}
use anycorn.Exec.{runtime_error, Error, Result, ok, err, ◌>>=◌, ◌>>◌, skip, continue}
use anycorn.Bytes.{Bytes, Text}
use anycorn.Events.{ℤ}
use anycorn.AppWrappers.State.{
  Python, Act, start, output, raises, response_start, response_body, RunApp,
}
use anycorn.AppWrappers.RunApp.{
  M, may_start, start_response, send_first, send_start, send_output, act, act_all,
}
use anycorn.AppWrappers.RunApp.Settled.{called_with}

module _ (py : Python) where
  -- The headers were sent.
  abbrev pub IsSent : RunApp → Type 0
  IsSent s = (s.headers_sent ≡ true) × (is_some s.status_code ≡ true)

  pub start-IsSent :
      (s : RunApp) (status : Text) (headers : List (Text × Text)) (exc_info : Option Error)
      → IsSent s
      → (start_response py status headers exc_info s).1 ≡ s
  unfolding start_response may_start ◌>>=◌
  start-IsSent s status headers none (h, k) = rw (k) refl
  start-IsSent s status headers (some e) (h, k) = rw (h) refl

  pub start-unsent :
      (s : RunApp) (status : Text) (headers : List (Text × Text)) (exc_info : Option Error)
      → s.headers_sent ≡ false
      → (start_response py status headers exc_info s).1 ≡ (
          let head = called_with py status headers exc_info (s.status_code, s.headers) in
          record s { status_code = head.0; headers = head.1 })
  unfolding start_response may_start ◌>>=◌
  start-unsent s status headers none h = ground arith
  start-unsent s status headers (some e) h = ground arith

  -- `acts`, and the headers where they were not sent
  abbrev pub whole : List Act → M (Unit {0})
  whole acts = act_all py acts >> send_start py

  pub whole-cons :
      (a : Act) (acts : List Act) (s : RunApp)
      → whole (a ∷ acts) s ≡ continue (act py a s).0 (λ _. whole acts) (act py a s).1
  unfolding act_all ◌>>=◌
  whole-cons a acts s = regroup (act py a s)
    where
      regroup :
          (x : Result (Unit {0}) × RunApp)
          → continue
              (continue x.0 (λ _. act_all py acts) x.1).0
              (λ _. send_start py)
              (continue x.0 (λ _. act_all py acts) x.1).1
            ≡ continue x.0 (λ _. whole acts) x.1
      regroup (ok u, s) = refl
      regroup (err e, s) = refl

  pub whole-nil : (s : RunApp) → whole [] s ≡ send_start py s
  unfolding act_all ◌>>=◌
  whole-nil s = refl

  pub returned :
      {s s' : RunApp} → ◌≡◌ {A = Result (Unit {0}) × RunApp} (ok tt, s) (ok tt, s') → s ≡ s'
  returned e = ap (λ x. x.1) e

  pub not_returned :
      {x : Error} {s s' : RunApp} → ◌≡◌ {A = Result (Unit {0}) × RunApp} (err x, s) (ok tt, s') → ⊥
  not_returned {x} e = raised (ap (λ r. r.0) e)
    where
      raised : ◌≡◌ {A = Result (Unit {0})} (err x) (ok tt) → ⊥
      raised q = cc

  pub act-start :
      (status : Text) (headers : List (Text × Text)) (exc_info : Option Error) (s : RunApp)
      → act py (start status headers exc_info) s
        ≡ (ok tt, (start_response py status headers exc_info s).1)
  unfolding act
  act-start status headers exc_info s = refl

  pub act-empty : (s : RunApp) → act py (output []) s ≡ (ok tt, s)
  unfolding act send_output skip
  act-empty s = refl

  pub act-raises : (e : Error) (s : RunApp) → act py (raises e) s ≡ (err e, s)
  unfolding act
  act-raises e s = refl

  -- A piece of body after the headers
  pub act-sent :
      (b : ℕ) (chunk : Bytes) (s : RunApp)
      → s.headers_sent ≡ true
      → act py (output (b ∷ chunk)) s
        ≡ (ok tt, record s { messages = s.messages ++ (response_body (b ∷ chunk) true ∷ []) })
  unfolding act send_output send_start ◌>>=◌
  act-sent b chunk s h = rw h refl

  pub send_start-sent : (s : RunApp) → s.headers_sent ≡ true → send_start py s ≡ (ok tt, s)
  unfolding send_start ◌>>=◌
  send_start-sent s h = rw h refl

  -- The headers, where a status was set
  abbrev pub started : ℤ → RunApp → RunApp
  started status s = record s {
    messages = s.messages ++ (response_start status s.headers ∷ []);
    headers_sent = true;
  }

  pub send_start-some :
      (status : ℤ) (s : RunApp)
      → s.headers_sent ≡ false
      → s.status_code ≡ some status
      → send_start py s ≡ (ok tt, started status s)
  unfolding send_start send_first ◌>>=◌
  send_start-some status s h k = rw (h, k) refl

  pub send_start-none :
      (s : RunApp)
      → s.headers_sent ≡ false
      → s.status_code ≡ none
      → send_start py s ≡ (err runtime_error, s)
  unfolding send_start send_first ◌>>=◌
  send_start-none s h k = rw (h, k) refl

  pub act-first :
      (b : ℕ) (chunk : Bytes) (s : RunApp)
      → act py (output (b ∷ chunk)) s
        ≡ continue
            (send_start py s).0
            (λ _ s.
              (ok tt, record s { messages = s.messages ++ (response_body (b ∷ chunk) true ∷ []) }))
            (send_start py s).1
  unfolding act send_output ◌>>=◌
  act-first b chunk s = refl
