-- ===== src/H11/Order/Sending.antt =====
-- What `stream_send` of `H11Protocol` (protocol/h11.py) does to the order of the calls on streams.
use anycorn.Prelude.{ℕ, ◌≡◌, refl, Bool, true, List, [], ◌∷◌, ◌&&◌, Option, leb}
use anycorn.Exec.{Error, Result, ok, err, gets}
use anycorn.Exec.Hoare.{Triple, T-raise, T-gets, T-if, T-modify, T-skip, ◌>>>◌}
use anycorn.Bytes.{Bytes, Headers}
use anycorn.Events.{ℤ}
use anycorn.H11.State.{
  H11, Sendable, Piece, framing, placeholder, Wire, plain, websocket, ServerEvent, StreamKind,
  Surroundings,
}
use anycorn.H11.Adapter
use anycorn.H11.Calls.{
  Protocol, M, tell, set_connection, set_can_read, on_refusal, on_sent, send_h11_event, send_pieces,
  on_passed, pass_through, send_zerocopy, send_response, is_error, is_local, send_error_response,
}
use anycorn.H11.Order.{Lawful, Phase, IsTaken, At}

module _ (h : H11) (laws : Lawful h) (p : Phase) (kind : Option StreamKind) (taken : Bool) where
  -- The call leaves the phase, the stream and whether the wire is taken as they are.
  abbrev pub IsCalm : M h (Unit {0}) → Type 0
  IsCalm m = Triple (At h p kind taken) (At h p kind taken) m (λ _. At h p kind taken)

  pub tell-IsCalm : (e : ServerEvent) → IsCalm (tell h e)
  unfolding tell
  tell-IsCalm e =
      T-modify _ λ s a. record { phases = rw a.phases refl; streams = a.streams; wires = a.wires }

  pub set_can_read-IsCalm : IsCalm (set_can_read h)
  unfolding set_can_read
  set_can_read-IsCalm =
      T-modify _ λ s a. record { phases = a.phases; streams = a.streams; wires = a.wires }

  on_refusal-IsCalm : (e : Error) → IsCalm (on_refusal h e)
  unfolding on_refusal
  on_refusal-IsCalm e = T-gets {Q = λ _. At h p kind taken} _ (λ s a. a) >>> λ c.
      T-if (is_local e && is_error (Adapter.their_state h c)) (λ _. T-skip λ s a. a)
        (λ _. T-raise e λ s a. a)

  on_sent-IsCalm : (r : Result Bytes) → IsCalm (on_sent h r)
  unfolding on_sent
  on_sent-IsCalm (ok chunk) = tell-IsCalm _
  on_sent-IsCalm (err e) = on_refusal-IsCalm e

  -- What is sent through the wire leaves it taken.
  send-IsTaken :
      (e : Sendable) (c : Wire h.Connection) → IsTaken h c → IsTaken h (Adapter.send h e c).1
  unfolding Adapter.send
  send-IsTaken e (plain c) t = laws.send_taken e c t
  send-IsTaken e (websocket c buffer) t = tt

  -- A wire that was read from the state
  pub wire_read :
      Triple
        (At h p kind taken)
        (At h p kind taken)
        (gets (λ s. s.connection))
        (λ c s. At h p kind taken s × (taken ≡ true → IsTaken h c))
  wire_read = T-gets _ λ s a. (a, a.wires)

  pub wire_set :
      (c : Wire h.Connection) → (taken ≡ true → IsTaken h c) → IsCalm (set_connection h c)
  unfolding set_connection
  wire_set c w = T-modify _ λ s a. record { phases = a.phases; streams = a.streams; wires = w }

  -- A wire is read, and another one that is taken where it is, is set.
  pub wire_changed :
      (c : Wire h.Connection) {P : Protocol h → Type 0}
      → ((s : Protocol h) → P s → At h p kind taken s × (taken ≡ true → IsTaken h c))
      → Triple (At h p kind taken) P (set_connection h c) (λ _. At h p kind taken)
  unfolding set_connection
  wire_changed c f =
      T-modify _
        λ s a. let (t, w) = f s a in record { phases = t.phases; streams = t.streams; wires = w }

  pub send_h11_event-IsCalm : (e : Sendable) → IsCalm (send_h11_event h e)
  unfolding send_h11_event
  send_h11_event-IsCalm e = wire_read >>> λ c.
      wire_changed (Adapter.send h e c).1 (λ s (a, w). (a, λ t. send-IsTaken e c (w t))) >>> λ _.
      on_sent-IsCalm (Adapter.send h e c).0

  pub send_error_response-IsCalm : (status : ℕ) → IsCalm (send_error_response h status)
  unfolding send_error_response
  send_error_response-IsCalm status = T-gets {Q = λ _. At h p kind taken} _ (λ s a. a) >>> λ config.
      send_h11_event-IsCalm _ >>> λ _. send_h11_event-IsCalm _

  send_pieces-IsCalm :
      (file offset : ℕ) (count : ℤ) (pieces : List Piece)
      → IsCalm (send_pieces h file offset count pieces)
  unfolding send_pieces
  send_pieces-IsCalm file offset count [] = T-skip λ s a. a
  send_pieces-IsCalm file offset count (framing chunk ∷ pieces) =
      tell-IsCalm _ >>> λ _. send_pieces-IsCalm file offset count pieces
  send_pieces-IsCalm file offset count (placeholder ∷ pieces) =
      tell-IsCalm _ >>> λ _. send_pieces-IsCalm file offset count pieces

  on_passed-IsCalm :
      (file offset : ℕ) (count : ℤ) (r : Result (List Piece))
      → IsCalm (on_passed h file offset count r)
  unfolding on_passed
  on_passed-IsCalm file offset count (ok pieces) = send_pieces-IsCalm file offset count pieces
  on_passed-IsCalm file offset count (err e) = on_refusal-IsCalm e

  pass_through-IsCalm :
      (file offset : ℕ) (count : ℤ) (c : Wire h.Connection)
      → Triple
          (At h p kind taken)
          (λ s. At h p kind taken s × (taken ≡ true → IsTaken h c))
          (pass_through h file offset count c)
          (λ _. At h p kind taken)
  unfolding pass_through
  pass_through-IsCalm file offset count (websocket c buffer) = T-raise _ λ s (a, w). a
  pass_through-IsCalm file offset count (plain c) =
      wire_changed _ (λ s (a, w). (a, λ t. laws.send_passthrough_taken count c (w t))) >>> λ _.
      on_passed-IsCalm file offset count _

  pub send_zerocopy-IsCalm :
      (file offset : ℕ) (count : ℤ) → IsCalm (send_zerocopy h file offset count)
  unfolding send_zerocopy
  send_zerocopy-IsCalm file offset count =
      wire_read >>> λ c. pass_through-IsCalm file offset count c

  pub send_response-IsCalm :
      (env : Surroundings h.Connection) (headers : Headers) (status : ℕ)
      → IsCalm (send_response h env headers status)
  unfolding send_response
  send_response-IsCalm env headers status =
      T-gets {Q = λ _. At h p kind taken} _ (λ s a. a) >>> λ final.
      T-gets {Q = λ _. At h p kind taken} _ (λ s a. a) >>> λ config.
      T-if (leb 200 status) (λ _. send_h11_event-IsCalm _) (λ _. send_h11_event-IsCalm _)
