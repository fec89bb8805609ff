-- ===== src/Tests/Files.antt =====
-- Runs of sendfile.py.
use mathlib.Core.List.{flatten}
use mathlib.Core.Logic.{◌⊎◌}
use anycorn.Prelude.{
  ℕ, ◌+◌, ◌≤◌, ◌<◌, ◌≡◌, refl, true, List, [], ◌∷◌, some, arith, All, take, drop, min,
}
use anycorn.Bytes.{Bytes, codes}
use anycorn.Sendfile.{Os, read_file_chunks, Sent, blocked, sent, sendfile_loop, max_sendfile_chunk}
use anycorn.Sendfile.Laws.{
  Reads, flatten-read_file_chunks, sendfile_calls, meets_end, sendfile_returns,
}

abbrev content : Bytes
content = codes "hello, world"

-- A kernel that reads what is there, at most four bytes a call.
abbrev four_at_a_time : ℕ → ℕ → Bytes
four_at_a_time n offset = take (min n 4) (drop offset content)

abbrev disk : Os
disk = record {
  open_file = λ path. some 7;
  file_size = λ fd. 12;
  file_position = λ fd. 0;
  pread = λ fd. four_at_a_time;
}

disk-Reads : Reads four_at_a_time content
disk-Reads = record {
  got = λ n offset. min n 4;
  bytes = λ n offset. refl;
  at_most = λ n offset. omega arith;
  some_bytes = λ n offset h k. omega arith;
}

flatten-read_file_chunks_example : flatten (read_file_chunks disk 7 2 7) ≡ take 7 (drop 2 content)
flatten-read_file_chunks_example = flatten-read_file_chunks disk 7 2 7 content disk-Reads

chunks : read_file_chunks disk 7 2 7 ≡ codes "llo," ∷ codes " wo" ∷ []
unfolding read_file_chunks
chunks = refl

abbrev answers : List Sent
answers = sent 3 ∷ blocked ∷ sent 2 ∷ []

sent_all : sendfile_loop (some 5) 10 0 answers ≡ ((10, 5) ∷ (13, 2) ∷ (13, 2) ∷ [], some 5)
unfolding sendfile_loop
sent_all = refl

sendfile_calls_example :
    All
      (λ c. (10 ≤ c.0) × (c.0 + c.1 ≤ 15) × (0 < c.1) × (c.1 ≤ max_sendfile_chunk))
      (sendfile_loop (some 5) 10 0 answers).0
sendfile_calls_example = sendfile_calls 5 10 10 0 answers (omega arith) refl

sendfile_returns_example : (5 ≤ 5) × (◌≡◌ {A = ℕ} 5 5 ⊎ (meets_end answers ≡ true))
unfolding sendfile_loop
sendfile_returns_example = sendfile_returns 5 10 0 5 answers (omega arith) (omega arith) refl
