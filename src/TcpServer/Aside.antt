-- ===== src/TcpServer/Aside.antt =====
-- What the methods of `TCPServer` (tcp_server.py) hand to its protocol, and how they leave its lock.
use anycorn.Prelude.{ℕ, zero, suc, ◌≡◌, refl, ◌∙◌, Bool, true, false, ◌||◌, List, [], ◌∷◌, ◌++◌}
use anycorn.Exec.{Result, ok, err, ◌>>=◌}
use anycorn.Exec.Hoare.{
  Triple, Post, T-raise, T-gets, T-lift, T-modify, T-skip, T-except, T-pre, ◌>>>◌,
}
use anycorn.Bytes.{Bytes}
use anycorn.Connection.{ServerEvent, raw_data, send_file, updated}
use anycorn.TcpServer.{
  Inbound, initiate, handle_bytes, handle_closed, Call, asked, wrote, transmitted, sent_eof,
  closed_stream, TcpServer, Surroundings, Receives, more, ends_with, is_os_error, is_gone, no_eof,
  no_aclose, U, ask, set_lock, set_idle_task, then_finally, finally, close, locked, with_lock,
  protocol_send, send_all, handle,
}

-- The bytes that the protocol was handed
abbrev pub handed : List Call → List Bytes
handed [] = []
handed (asked (handle_bytes bytes) ∷ calls) = handed calls ++ bytes ∷ []
handed (_ ∷ calls) = handed calls

-- The bytes received; what is empty is the last
abbrev pub received : Receives → List Bytes
received (ends_with e) = []
received (more [] rest) = [] ∷ []
received (more (b ∷ bytes) rest) = (b ∷ bytes) ∷ received rest

abbrev pub handed_with : Inbound → List Bytes → List Bytes
handed_with initiate chunks = chunks
handed_with handle_closed chunks = chunks
handed_with (handle_bytes bytes) chunks = chunks ++ bytes ∷ []

-- What was handed over so far, and whether the lock is held
pub record At (chunks : List Bytes) (held : Bool) (s : TcpServer) : Type 0 where
  pub chunks_so_far : handed s.calls ≡ chunks
  pub lock : s.send_lock ≡ held

-- What was handed over is the beginning of these, and the lock is free.
pub record Begins (chunks : List Bytes) (s : TcpServer) : Type 0 where
  pub left : List Bytes
  pub parts : handed s.calls ++ left ≡ chunks
  pub free : s.send_lock ≡ false

asked_At :
    (i : Inbound) (chunks : List Bytes) (held : Bool) (s : TcpServer)
    → At chunks held s
    → At (handed_with i chunks) held (record s { calls = asked i ∷ s.calls })
asked_At initiate chunks held s a = record { chunks_so_far = a.chunks_so_far; lock = a.lock }
asked_At handle_closed chunks held s a = record { chunks_so_far = a.chunks_so_far; lock = a.lock }
asked_At (handle_bytes bytes) chunks held s a = record {
  chunks_so_far = rw a.chunks_so_far refl;
  lock = a.lock;
}

-- The method hands nothing over, and leaves the lock as it is.
abbrev IsAside : List Bytes → Bool → U → Type 0
IsAside chunks held m = Triple (At chunks held) (At chunks held) m (λ _. At chunks held)

ask-IsAside :
    (c : Call) (ending : List Call → Result (Unit {0})) {chunks : List Bytes} {held : Bool}
    → ((calls : List Call) → handed (c ∷ calls) ≡ handed calls)
    → IsAside chunks held (ask c ending)
unfolding ask
ask-IsAside c ending {chunks} {held} aside =
    T-modify {Q = λ _. At chunks held} _
      (λ s a. record { chunks_so_far = aside s.calls ∙ a.chunks_so_far; lock = a.lock })
    >>> λ _. T-gets {Q = λ _. At chunks held} _ (λ s a. a) >>> λ calls.
        T-lift (ending calls) (λ _ _ s a. a) (λ s a. a)

set_lock-At :
    (before after : Bool) {chunks : List Bytes} {E : TcpServer → Type 0}
    → Triple E (At chunks before) (set_lock after) (λ _. At chunks after)
unfolding set_lock
set_lock-At before after = T-modify _ λ s a. record { chunks_so_far = a.chunks_so_far; lock = refl }

pub T-finally :
    {E P F : TcpServer → Type 0} {m handler : U} {Q R : Unit {0} → TcpServer → Type 0}
    → Triple E P m Q
    → Triple F (Q tt) handler R
    → Triple F E handler (λ _. F)
    → Triple F P (finally m handler) R
unfolding finally ◌>>=◌
T-finally {E} {P} {F} {m} {handler} {Q} {R} t k l = record {
  at = λ s p. either (m s).0 (m s).1 (t.at s p);
}
  where
    either :
        (r : Result (Unit {0})) (s : TcpServer)
        → Post E Q (r, s)
        → Post F R (then_finally r handler s)
    either (ok u) s q = k.at s q
    either (err e) s q = (l >>> λ _. T-raise e (λ s f. f)).at s q

module _ (env : Surroundings) where
  pub close-IsAside : (chunks : List Bytes) (held : Bool) → IsAside chunks held (close env)
  unfolding close
  close-IsAside chunks held =
      T-except no_eof (ask-IsAside sent_eof _ (λ calls. refl)) (T-skip λ s a. a) >>> λ _.
      T-except no_aclose (ask-IsAside closed_stream _ (λ calls. refl)) (T-skip λ s a. a)

  module _ (inner : Inbound → U)
      (aside : (chunks : List Bytes) (held : Bool)
        → IsAside chunks held (inner handle_closed)) where
    locked-At :
        (m : U) (chunks : List Bytes) (b held : Bool)
        → ((b : Bool) → IsAside chunks b m)
        → Triple
            (At chunks held)
            (λ s. At chunks held s × (s.send_lock ≡ b))
            (locked env inner b m)
            (λ _. At chunks held)
    unfolding locked
    locked-At m chunks true held t = T-raise _ λ s (a, e). a
    locked-At m chunks false false t =
        T-pre (λ s (a, e). a)
          (set_lock-At false true >>> λ _.
            T-finally (t true) (set_lock-At true false) (set_lock-At true false))
    locked-At m chunks false true t = record { at = λ s (a, e). let l = a.lock in absurd (cc) }

    with_lock-IsAside :
        (m : U) (chunks : List Bytes) (held : Bool)
        → ((b : Bool) → IsAside chunks b m)
        → IsAside chunks held (with_lock env inner m)
    unfolding with_lock
    with_lock-IsAside m chunks held t =
        T-gets {Q = λ b s. At chunks held s × (s.send_lock ≡ b)} _ (λ s a. (a, refl)) >>> λ b.
        locked-At m chunks b held t

    protocol_send-IsAside :
        (e : ServerEvent) (chunks : List Bytes) (held : Bool)
        → IsAside chunks held (protocol_send env inner e)
    unfolding protocol_send set_idle_task
    protocol_send-IsAside (raw_data chunk) chunks held =
        with_lock-IsAside _ chunks held
          λ b. T-except is_gone (ask-IsAside (wrote chunk) _ (λ calls. refl)) (aside chunks b)
    protocol_send-IsAside (send_file file offset count) chunks held =
        with_lock-IsAside _ chunks held λ b.
          T-except (λ e. is_gone e || is_os_error e)
            (ask-IsAside (transmitted file offset count) _ (λ calls. refl)) (aside chunks b)
    protocol_send-IsAside ServerEvent.closed chunks held =
        close-IsAside chunks held >>> λ _. aside chunks held
    protocol_send-IsAside (updated idle) chunks held =
        T-modify _ λ s a. record { chunks_so_far = a.chunks_so_far; lock = a.lock }

    send_all-IsAside :
        (events : List ServerEvent) (chunks : List Bytes) (held : Bool)
        → IsAside chunks held (send_all env inner events)
    unfolding send_all
    send_all-IsAside [] chunks held = T-skip λ s a. a
    send_all-IsAside (e ∷ events) chunks held =
        protocol_send-IsAside e chunks held >>> λ _. send_all-IsAside events chunks held

  pub handle-At :
      (depth : ℕ) (i : Inbound) (chunks : List Bytes) (held : Bool)
      → Triple
          (At (handed_with i chunks) held)
          (At chunks held)
          (handle env depth i)
          (λ _. At (handed_with i chunks) held)
  unfolding handle ask
  handle-At zero i chunks held =
      T-modify {Q = λ _. At (handed_with i chunks) held} _ (asked_At i chunks held) >>> λ _.
      T-gets {Q = λ _. At (handed_with i chunks) held} _ (λ s a. a) >>> λ calls.
      T-lift (env.ends calls i) (λ _ _ s a. a) (λ s a. a)
  handle-At (suc depth) i chunks held =
      T-modify {Q = λ _. At (handed_with i chunks) held} _ (asked_At i chunks held) >>> λ _.
      T-gets {Q = λ _. At (handed_with i chunks) held} _ (λ s a. a) >>> λ events.
      send_all-IsAside (handle env depth) (handle-At depth handle_closed) events
        (handed_with i chunks) held
      >>> λ _. T-gets {Q = λ _. At (handed_with i chunks) held} _ (λ s a. a) >>> λ calls.
          T-lift (env.ends calls i) (λ _ _ s a. a) (λ s a. a)
