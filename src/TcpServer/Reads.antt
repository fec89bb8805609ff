-- ===== src/TcpServer/Reads.antt =====
-- What `TCPServer` (tcp_server.py) hands to its protocol of what it receives.
use mathlib.Core.Path.{subst}
use mathlib.Core.List.{append_assoc, append-nil}
use anycorn.Prelude.{ℕ, ◌≡◌, refl, false, List, [], ◌∷◌, ◌++◌}
use anycorn.Exec.{Error, Result, ok, err, lift, skip, handled, except, ◌>>=◌}
use anycorn.Exec.Hoare.{Triple, Post, T-raise, T-if, T-modify, T-err, T-state, ◌>>>◌}
use anycorn.Bytes.{Bytes}
use anycorn.TcpServer.{
  initiate, handle_bytes, handle_closed, TcpServer, new, Surroundings, Receives, more, ends_with,
  is_os_error, is_end, set_idle_task, close, read_data, serve, grouped, in_group, run,
}
use anycorn.TcpServer.Aside.{handed, received, At, Begins, T-finally, close-IsAside, handle-At}

module _ (env : Surroundings) where
  At-Begins :
      (chunks left : List Bytes) {whole : List Bytes} (s : TcpServer)
      → chunks ++ left ≡ whole
      → At chunks false s
      → Begins whole s
  At-Begins chunks left s e a = record { left = left; parts = rw a.chunks_so_far e; free = a.lock }

  At-whole : (chunks : List Bytes) (s : TcpServer) → At chunks false s → Begins chunks s
  At-whole chunks s a = At-Begins chunks [] s (append-nil chunks) a

  close-Begins :
      (chunks : List Bytes)
      → Triple (Begins chunks) (Begins chunks) (close env) (λ _. Begins chunks)
  close-Begins chunks = record {
    at = λ s b. kept (handed s.calls) b.left (close env s) b.parts (closing s b.free);
  }
    where
      closing :
          (s : TcpServer)
          → s.send_lock ≡ false
          → Post (At (handed s.calls) false) (λ _. At (handed s.calls) false) (close env s)
      closing s free =
          (close-IsAside env (handed s.calls) false).at s
            (record { chunks_so_far = refl; lock = free })

      kept :
          (before left : List Bytes) (r : Result (Unit {0}) × TcpServer)
          → before ++ left ≡ chunks
          → Post (At before false) (λ _. At before false) r
          → Post (Begins chunks) (λ _. Begins chunks) r
      kept before left (ok u, s) e a = At-Begins before left s e a
      kept before left (err e', s) e a = At-Begins before left s e a

  module _ (depth : ℕ) where
    read_data-At :
        (chunks : List Bytes) (r : Receives)
        → Triple
            (Begins (chunks ++ received r))
            (At chunks false)
            (read_data env depth r)
            (λ _. At (chunks ++ received r) false)
    unfolding read_data
    read_data-At chunks (ends_with e) = rw (append-nil chunks) (
        T-if (is_end e)
          (λ _. T-err (At-whole chunks) (handle-At env depth handle_closed chunks false))
          (λ _. T-raise e (At-whole chunks)))
    read_data-At chunks (more [] rest) = T-err (At-whole (chunks ++ [] ∷ [])) (
        handle-At env depth (handle_bytes []) chunks false >>> λ _.
        handle-At env depth handle_closed (chunks ++ [] ∷ []) false)
    read_data-At chunks (more (b ∷ bytes) rest) =
        T-err
          (λ s a.
            At-Begins (chunks ++ (b ∷ bytes) ∷ []) (received rest) s
              (append_assoc chunks ((b ∷ bytes) ∷ []) (received rest)) a)
          (handle-At env depth (handle_bytes (b ∷ bytes)) chunks false)
        >>> λ _.
            subst
              (λ whole.
                Triple (Begins whole) (At (chunks ++ (b ∷ bytes) ∷ []) false)
                  (read_data env depth rest) (λ _. At whole false))
              (append_assoc chunks ((b ∷ bytes) ∷ []) (received rest))
              (read_data-At (chunks ++ (b ∷ bytes) ∷ []) rest)

    serve-At :
        (r : Receives)
        → Triple
            (Begins (received r))
            (At [] false)
            (serve env depth r)
            (λ _. At (received r) false)
    unfolding serve set_idle_task
    serve-At r =
        T-err (λ s a. At-Begins [] (received r) s refl a) (handle-At env depth initiate [] false)
        >>> λ _.
            T-modify {Q = λ _. At [] false} _
              (λ s a. record { chunks_so_far = a.chunks_so_far; lock = a.lock })
            >>> λ _. read_data-At [] r

    module _ (a_group : (e : Error) → is_os_error (env.leaves_group e) ≡ false)
        (has_addresses : env.addresses ≡ ok tt) where
      settled :
          (chunks : List Bytes) (r : Result (Unit {0}) × TcpServer)
          → Post (Begins chunks) (λ _. At chunks false) r
          → Post
              (Begins chunks)
              (λ _. At chunks false)
              (handled is_os_error skip (grouped env depth r))
      settled chunks (ok u, s) a = a
      settled chunks (err e, s) a = rw (a_group e) a

      opened :
          (r : Receives) (s : TcpServer)
          → except
              (lift env.addresses >>= λ _. in_group env depth (serve env depth r))
              is_os_error
              skip
              s
            ≡ handled is_os_error skip (grouped env depth (serve env depth r s))
      unfolding except in_group ◌>>=◌
      opened r s = rw has_addresses refl

      -- Whatever the protocol sends while it is called, however the calls and the socket's methods end: a
      -- connection whose addresses can be read hands its protocol the bytes that it receives in order,
      -- each once, all of them where `run` returns; and at the end the lock is free.
      pub run-handed :
          (r : Receives)
          → Post (Begins (received r)) (λ _. At (received r) false) (run env depth r new)
      unfolding run new
      run-handed r =
          (T-finally {P = At [] false} {Q = λ _. At (received r) false}
              (T-state _ λ s a. rw (opened r s) (settled (received r) _ ((serve-At r).at s a)))
              (T-err (At-whole (received r)) (close-IsAside env (received r) false))
              (close-Begins (received r))).at
            new (record { chunks_so_far = refl; lock = refl })
