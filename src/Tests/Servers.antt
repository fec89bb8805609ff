-- ===== src/Tests/Servers.antt =====
-- A connection whose client goes away while it is answered.
use anycorn.Prelude.{◌≡◌, refl, sym, ap, Bool, true, false, List, [], ◌∷◌}
use anycorn.Exec.{Error, Result, ok, err, broken_resource, end_of_stream, exception}
use anycorn.Exec.Hoare.{Post}
use anycorn.Bytes.{codes}
use anycorn.Connection.{ServerEvent, raw_data, updated}
use anycorn.TcpServer.{
  Inbound, handle_bytes, Call, Surroundings, Receives, more, ends_with, new, no_eof, run,
}
use anycorn.TcpServer.Aside.{received, At, Begins}
use anycorn.TcpServer.Reads.{run-handed}
use anycorn.TcpServer.Ends.{IsClosed, run-IsClosed}

abbrev answers : Inbound → List ServerEvent
answers (handle_bytes bytes) = updated false ∷ raw_data (codes "answer") ∷ ServerEvent.closed ∷ []
answers _ = []

-- Nothing can be written.
abbrev broken : Surroundings
broken = record {
  sends = λ calls i. answers i;
  ends = λ calls i. ok tt;
  addresses = ok tt;
  leaves_group = λ e. exception;
  stream_send = λ calls. err broken_resource;
  transmit = λ calls. ok tt;
  send_eof = λ calls. err broken_resource;
  aclose = λ calls. ok tt;
}

abbrev two_reads : Receives
two_reads = more (codes "ab") (more (codes "c") (ends_with end_of_stream))

run-handed_example :
    Post
      (Begins (received two_reads))
      (λ _. At (received two_reads) false)
      (run broken 3 two_reads new)
run-handed_example = run-handed broken 3 (λ e. refl) refl two_reads

abbrev reason : Result (Unit {0}) → Bool
reason (ok u) = true
reason (err e) = no_eof e

broken-no_eof : (calls : List Call) (e : Error) → broken.send_eof calls ≡ err e → no_eof e ≡ true
broken-no_eof calls e p = sym (ap reason p)

run-IsClosed_example : IsClosed (run broken 3 two_reads new).1
run-IsClosed_example = run-IsClosed broken broken-no_eof 3 two_reads new
