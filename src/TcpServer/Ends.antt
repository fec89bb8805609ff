-- ===== src/TcpServer/Ends.antt =====
-- How `TCPServer` (tcp_server.py) leaves its socket.
use anycorn.Prelude.{ℕ, ◌≡◌, refl, true, List, ◌∷◌}
use anycorn.Exec.{Error, Result, ok, err, skip, handled, except, ◌>>=◌}
use anycorn.Exec.Hoare.{Triple, Post, T-except, T-skip, T-state, ◌>>>◌, keeps}
use anycorn.TcpServer.{
  Call, sent_eof, closed_stream, TcpServer, Surroundings, Receives, no_eof, no_aclose, U, ask,
  close, run,
}
use anycorn.TcpServer.Aside.{T-finally}

-- The end of what can be sent was the last call.
abbrev EndedSending : TcpServer → Type 0
EndedSending s = (calls : List Call) × (s.calls ≡ sent_eof ∷ calls)

-- After it, the socket was closed.
abbrev pub IsClosed : TcpServer → Type 0
IsClosed s = (calls : List Call) × (s.calls ≡ closed_stream ∷ sent_eof ∷ calls)

any_end : (m : U) → Triple (λ _. Unit {0}) (λ _. Unit {0}) m (λ _ _. Unit {0})
any_end m = record { at = λ s u. either (m s) }
  where
    either : (r : Result (Unit {0}) × TcpServer) → Post (λ _. Unit {0}) (λ _ _. Unit {0}) r
    either (ok u, s) = tt
    either (err e, s) = tt

module _ (env : Surroundings)
    (suppressed : (calls : List Call) (e : Error)
      → env.send_eof calls ≡ err e
      → no_eof e ≡ true) where
  ended :
      (s : TcpServer) (calls : List Call) (r : Result (Unit {0}))
      → env.send_eof calls ≡ r
      → EndedSending s
      → Post IsClosed (λ _. EndedSending) (handled no_eof skip (r, s))
  unfolding skip
  ended s calls (ok u) e d = d
  ended s calls (err e') e d = rw (suppressed calls e' e) d

  sent_eof-EndedSending :
      Triple IsClosed
        (λ _. Unit)
        (except (ask sent_eof env.send_eof) no_eof skip)
        (λ _. EndedSending)
  unfolding except ask ◌>>=◌
  sent_eof-EndedSending = T-state _ λ s u. ended _ (sent_eof ∷ s.calls) _ refl (s.calls, refl)

  aclosed :
      (s : TcpServer) (r : Result (Unit {0})) → IsClosed s → Post IsClosed (λ _. IsClosed) (r, s)
  aclosed s (ok u) d = d
  aclosed s (err e) d = d

  aclose-IsClosed : Triple IsClosed EndedSending (ask closed_stream env.aclose) (λ _. IsClosed)
  unfolding ask ◌>>=◌
  aclose-IsClosed =
      T-state _ λ s (calls, e). aclosed _ (env.aclose (closed_stream ∷ s.calls)) (calls, rw e refl)

  close-IsClosed : Triple IsClosed (λ _. Unit) (close env) (λ _. IsClosed)
  unfolding close
  close-IsClosed =
      sent_eof-EndedSending >>> λ _. T-except no_aclose aclose-IsClosed (T-skip λ s d. d)

  -- Where `send_eof` raises only what `_close` suppresses, `run` ends with the end of what is sent and
  -- then the close of the socket, whether it returns or raises, and whatever was raised before.
  pub run-IsClosed : (depth : ℕ) (r : Receives) (s : TcpServer) → IsClosed (run env depth r s).1
  unfolding run
  run-IsClosed depth r s =
      keeps (T-finally {Q = λ _ _. Unit {0}} (any_end _) close-IsClosed close-IsClosed) s tt
