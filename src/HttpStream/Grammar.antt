-- ===== src/HttpStream/Grammar.antt =====
-- What a protocol may rely on: the events that a stream sends are a response. A small automaton
-- reads them in their order, and its phase is the state of the stream.
pub mod Rules
pub mod Branches
pub mod Methods
pub mod Trailers
pub mod Files
pub mod Runs
use anycorn.Prelude.{
  ℕ, ◌≡◌, refl, ◌∙◌, Bool, true, false, not, List, [], ◌∷◌, Option, none, some, arith,
  if◌then◌else◌, Bool-cases, Option-cases, inl, inr, ◌⊎◌,
}
use anycorn.Exec.{Result, ok, err, Exec, ◌>>=◌, ◌>>◌, continue, lift, gets}
use anycorn.Exec.Hoare.{
  Triple, T-modify, T-gets, T-if, T-when, T-lift, T-raise, T-skip, T-state, ◌>>>◌, keeps, Post,
}
use anycorn.Bytes.{Bytes, Headers}
use anycorn.Events.{Event, Request, end_body, stream_closed}
use anycorn.HttpStream.State.{
  HttpState, HttpStream, Call, M, Interference, sent, logged, Scope, ResponseStart,
}
use anycorn.HttpStream.Calls.{
  on_stream_closed, interrupt, the_scope, the_response, await_call, send, record_call, send_closed,
  send_error_response, log_error,
}

-- `awaiting` a response, `streaming` its body, `ended`, and `reported` to the access log.
pub data Phase : Type 0 where
  awaiting streaming ended reported : Phase

-- Pushes, and the word that the stream is closed, may come at any time. Informational responses
-- come before the response, the body and the trailers after it, and nothing after the end.
abbrev pub advance : Event → Phase → Option Phase
advance (Event.request id r) p = some p
advance (Event.stream_closed id) p = some p
advance (Event.informational id headers status) awaiting = some awaiting
advance (Event.response id headers status) awaiting = some streaming
advance (Event.body id chunk) streaming = some streaming
advance (Event.zero_copy_send id fd offset count) streaming = some streaming
advance (Event.trailers id headers) streaming = some streaming
advance (Event.end_body id) streaming = some ended
advance _ _ = none

-- The log has a line with the response once, after the response has ended, and a line without one
-- only before that.
abbrev pub report : Option ResponseStart → Phase → Option Phase
report (some r) ended = some reported
report none awaiting = some awaiting
report none streaming = some streaming
report _ _ = none

abbrev pub observe : Call → Option Phase → Option Phase
observe c none = none
observe (sent e) (some p) = advance e p
observe (logged scope r) (some p) = report r p
observe _ (some p) = some p

-- The phase after these calls, the newest first; `none` where a call came out of its turn.
abbrev pub phase : List Call → Option Phase
phase [] = some awaiting
phase (c ∷ calls) = observe c (phase calls)

-- The phases that a state of the stream stands for.
abbrev pub Agrees : Option Phase → HttpState → Type 0
Agrees (some awaiting) HttpState.request = Unit
Agrees (some streaming) HttpState.response = Unit
Agrees (some streaming) HttpState.trailers = Unit
Agrees (some ended) HttpState.closed = Unit
Agrees (some reported) HttpState.closed = Unit
Agrees _ _ = ⊥

abbrev pub Conforms : HttpStream → Type 0
Conforms s = Agrees (phase s.calls) s.state

-- Where a disconnect may come in between: the state is `closed`, or the response has not ended.
abbrev pub fits : Option Phase → HttpState → Bool
fits o HttpState.closed = true
fits none st = false
fits (some awaiting) st = true
fits (some streaming) st = true
fits (some _) st = false

-- An interruption takes no event out of its turn, and leaves the state alone.
phase-interrupt :
    (s : HttpStream)
    → fits (phase s.calls) s.state ≡ true
    → phase (interrupt s).calls ≡ phase s.calls
unfolding interrupt
phase-interrupt s h = ground arith

state-interrupt : (s : HttpStream) → (interrupt s).state ≡ s.state
unfolding interrupt
state-interrupt s = ground arith

-- In the phase `p` and the state `st`.
abbrev pub At : Phase → HttpState → HttpStream → Type 0
At p st s = (phase s.calls ≡ some p) × (s.state ≡ st)

-- In the state `st`, where the stream conforms.
abbrev pub In : HttpState → HttpStream → Type 0
In st s = Agrees (phase s.calls) st × (s.state ≡ st)

-- A method that leaves a stream that conforms, whether it returns or raises.
abbrev pub Ends : (HttpStream → Type 0) → M (Unit {0}) → Type 0
Ends P m = Triple Conforms P m (λ _. Conforms)

pub Conforms-In : (st : HttpState) (s : HttpStream) → In st s → Conforms s
Conforms-In st s h = rw h.1 h.0

pub Conforms-At :
    {p : Phase} {st : HttpState} → Agrees (some p) st → (s : HttpStream) → At p st s → Conforms s
Conforms-At h s k = rw (k.0, k.1) h

Agrees-request : (o : Option Phase) → Agrees o HttpState.request → o ≡ some awaiting
Agrees-request (some awaiting) h = refl
Agrees-request none h = absurd h
Agrees-request (some streaming) h = absurd h
Agrees-request (some ended) h = absurd h
Agrees-request (some reported) h = absurd h

Agrees-response : (o : Option Phase) → Agrees o HttpState.response → o ≡ some streaming
Agrees-response (some streaming) h = refl
Agrees-response none h = absurd h
Agrees-response (some awaiting) h = absurd h
Agrees-response (some ended) h = absurd h
Agrees-response (some reported) h = absurd h

Agrees-trailers : (o : Option Phase) → Agrees o HttpState.trailers → o ≡ some streaming
Agrees-trailers (some streaming) h = refl
Agrees-trailers none h = absurd h
Agrees-trailers (some awaiting) h = absurd h
Agrees-trailers (some ended) h = absurd h
Agrees-trailers (some reported) h = absurd h

pub At-request : (s : HttpStream) → In HttpState.request s → At awaiting HttpState.request s
At-request s h = (Agrees-request (phase s.calls) h.0, h.1)

pub At-response : (s : HttpStream) → In HttpState.response s → At streaming HttpState.response s
At-response s h = (Agrees-response (phase s.calls) h.0, h.1)

pub At-trailers : (s : HttpStream) → In HttpState.trailers s → At streaming HttpState.trailers s
At-trailers s h = (Agrees-trailers (phase s.calls) h.0, h.1)
