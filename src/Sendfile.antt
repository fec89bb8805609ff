-- ===== src/Sendfile.antt =====
-- sendfile.py: `read_file_chunks` and `sendfile`. The operating system's calls are parameters.
pub mod Laws
use anycorn.Prelude.{
  ℕ, zero, suc, ◌+◌, ◌-◌, Bool, true, ◌||◌, List, [], ◌∷◌, Option, none, some, min, length, ltb,
  ◌==◌, if◌then◌else◌,
}
use anycorn.Bytes.{Bytes}

abbrev pub read_chunk : ℕ
read_chunk = 65536

abbrev pub max_sendfile_chunk : ℕ
max_sendfile_chunk = 1073741824

-- The calls on files: `os.open`, where `none` is an `OSError`, `os.fstat(fd).st_size`,
-- `os.lseek(fd, 0, SEEK_CUR)`, and `_pread(fd, count, offset)`.
pub record Os : Type 0 where
  pub open_file : List ℕ → Option ℕ
  pub file_size : ℕ → ℕ
  pub file_position : ℕ → ℕ
  pub pread : ℕ → ℕ → ℕ → Bytes

-- The chunks that `read_file_chunks` yields. A round takes one unit of fuel and reads at least a
-- byte, so as much fuel as there are bytes to read is enough. `remaining > 0` is all that the loop
-- asks of `remaining`.
module _ (pread : ℕ → ℕ → Bytes) where
  unfoldable pub read_loop : ℕ → ℕ → ℕ → List Bytes
  read_loop zero remaining position = []
  read_loop (suc fuel) zero position = []
  read_loop (suc fuel) (suc r) position =
      let chunk = pread (min read_chunk (suc r)) position in
      let rest = read_loop fuel (suc r - length chunk) (position + length chunk) in
      if length chunk == 0 then [] else chunk ∷ rest

unfoldable pub read_file_chunks : Os → ℕ → ℕ → ℕ → List Bytes
unfolding read_loop
read_file_chunks os in_fd offset count = read_loop (os.pread in_fd) count count offset

-- What one call of `os.sendfile` does: it would block (or was interrupted), or it sent some bytes,
-- none at the end of the file.
pub data Sent : Type 0 where
  blocked : Sent
  sent : ℕ → Sent

-- The window that one call names: its offset and its length.
abbrev pub Call : Type 0
Call = ℕ × ℕ

-- `sendfile` over the answers of the kernel, in their order: the calls made, and the total, `none`
-- where the kernel has not answered yet. `offset` is resolved; `count` is `none` for "to the end".
abbrev pub to_send : Option ℕ → ℕ → ℕ
to_send none sent_total = max_sendfile_chunk
to_send (some count) sent_total = min max_sendfile_chunk (count - sent_total)

abbrev pub goes_on : Option ℕ → ℕ → Bool
goes_on none sent_total = true
goes_on (some count) sent_total = ltb sent_total count

abbrev pub after_call : ℕ → ℕ → List Call × Option ℕ → List Call × Option ℕ
after_call offset n (calls, total) = ((offset, n) ∷ calls, total)

unfoldable pub sendfile_loop : Option ℕ → ℕ → ℕ → List Sent → List Call × Option ℕ
sendfile_loop count offset sent_total [] =
    ([], if goes_on count sent_total then none else some sent_total)
sendfile_loop count offset sent_total (blocked ∷ answers) =
    let rest = sendfile_loop count offset sent_total answers in
    if goes_on count sent_total
    then after_call offset (to_send count sent_total) rest
    else ([], some sent_total)
sendfile_loop count offset sent_total (sent n ∷ answers) =
    let rest = sendfile_loop count (offset + n) (sent_total + n) answers in
    if goes_on count sent_total
    then after_call offset (to_send count sent_total)
        (if n == 0 then ([], some sent_total) else rest)
    else ([], some sent_total)
