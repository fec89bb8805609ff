-- ===== src/HttpStream/Grammar/Files.antt =====
-- The branches of `app_send` for files leave a stream that conforms.
use anycorn.Prelude.{ℕ, ◌≡◌, refl, ap, Bool, false, Option, none, some}
use anycorn.Exec.{Result, ok, err}
use anycorn.Exec.Hoare.{T-modify, T-if, T-when, T-raise, ◌>>>◌, Post}
use anycorn.Bytes.{Text, is_in}
use anycorn.Events.{ℤ, pos}
use anycorn.Sendfile.{Os}
use anycorn.HttpStream.State.{HttpState, HttpStream, M, Interference, opened, released}
use anycorn.HttpStream.Calls.{
  sendfile_versions, call, record_call, send_zerocopy_body, send_pathsend, send_opened, finally,
}
use anycorn.HttpStream.AppSend.{on_pathsend, on_zerocopysend}
use anycorn.HttpStream.Grammar.{Phase, streaming, phase, Conforms, At, Ends, Conforms-At, observe}
use anycorn.HttpStream.Grammar.Rules.{At-the_scope, At-the_response, At-send}
use anycorn.HttpStream.Grammar.Branches.{read_state, if_response}
use anycorn.HttpStream.Grammar.Methods.{Ends-finish_body, At-send_chunks}

module _ (env : Interference) where
  module _ (os : Os) where
    Ends-send_zerocopy_body :
        (fileno offset : ℕ) (count : ℤ) (more_body : Bool)
        → Ends
            (At streaming HttpState.response)
            (send_zerocopy_body env os fileno offset count more_body)
    unfolding send_zerocopy_body
    Ends-send_zerocopy_body fileno offset count more_body =
        At-the_scope streaming HttpState.response tt >>> λ scope.
        At-the_response streaming HttpState.response tt >>> λ r.
        T-when {Q = λ _. At streaming HttpState.response} _
          (λ _.
            T-if (is_in scope.http_version sendfile_versions) (λ _. At-send env _ (λ id. refl) refl)
              (λ _. At-send_chunks env _))
          (λ _ s h. h)
        >>> λ _. Ends-finish_body env more_body

    pub Ends-on_zerocopysend :
        (fileno : ℕ) (offset count : Option ℕ) (more_body : Bool)
        → Ends Conforms (on_zerocopysend env os fileno offset count more_body)
    unfolding on_zerocopysend
    Ends-on_zerocopysend fileno offset count more_body =
        read_state >>> λ st. if_response st (Ends-send_zerocopy_body fileno _ _ more_body)

    released_still : (fd : ℕ) (o : Option Phase) → observe (released fd) o ≡ o
    released_still fd none = refl
    released_still fd (some p) = refl

    -- Opening and closing a file sends nothing.
    Ends-finally :
        (fd : ℕ) {P : HttpStream → Type 0} {m : M (Unit {0})}
        → Ends P m
        → Ends P (finally env os m (record_call (released fd)))
    unfolding finally
    Ends-finally fd {m = m} h = record { at = λ s k. still (m s).0 (m s).1 (h.at s k) }
      where
        still :
            (r : Result (Unit {0})) (s : HttpStream)
            → Post Conforms (λ _. Conforms) (r, s)
            → Post Conforms (λ _. Conforms) (r, record_call (released fd) s)
        still (ok a) s k = rw (released_still fd (phase s.calls)) k
        still (err e) s k = rw (released_still fd (phase s.calls)) k

    Ends-send_opened :
        (file : Option ℕ) → Ends (At streaming HttpState.response) (send_opened env os file)
    unfolding send_opened call
    Ends-send_opened none = T-raise _ (Conforms-At {p = streaming} {st = HttpState.response} tt)
    Ends-send_opened (some fd) =
        T-modify {Q = λ _. At streaming HttpState.response} _
          (λ s h. (ap (observe (opened fd)) h.0, h.1))
        >>> λ _. Ends-finally fd (Ends-send_zerocopy_body fd 0 (pos (os.file_size fd)) false)

    pub Ends-on_pathsend : (path : Text) → Ends Conforms (on_pathsend env os path)
    unfolding on_pathsend send_pathsend
    Ends-on_pathsend path = read_state >>> λ st. if_response st (Ends-send_opened _)
