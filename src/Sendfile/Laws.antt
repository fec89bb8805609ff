-- ===== src/Sendfile/Laws.antt =====
-- The chunks of a file add up to the window asked for, and `sendfile` stays within its window.
use mathlib.Core.List.{flatten}
use anycorn.Prelude.{
  ℕ, zero, suc, ◌+◌, ◌-◌, ◌≤◌, ◌<◌, ◌≡◌, refl, sym, ◌∙◌, ap, Bool, true, false, List, [], ◌∷◌, ◌++◌,
  Option, some, arith, min, length, take, drop, length-take, length-drop, ltb, ◌==◌, ◌||◌, All,
  Bool-cases, inl, inr, ==_iff, ◌⊎◌, ltb→lt, ltb→le,
}
use anycorn.Bytes.{Bytes}
use anycorn.Sendfile.{
  read_chunk, max_sendfile_chunk, read_loop, read_file_chunks, Os, Sent, blocked, sent, to_send,
  sendfile_loop,
}

drop_all {ℓ} : {A : Type ℓ} (n : ℕ) (xs : List A) → length xs ≤ n → drop n xs ≡ []
drop_all zero [] h = refl
drop_all zero (x ∷ xs) h = absurd (omega arith)
drop_all (suc n) [] h = refl
drop_all (suc n) (x ∷ xs) h = drop_all n xs (omega arith)

take_nil {ℓ} : {A : Type ℓ} (n : ℕ) → take {A = A} n [] ≡ []
take_nil zero = refl
take_nil (suc n) = refl

drop_nil {ℓ} : {A : Type ℓ} (n : ℕ) → drop {A = A} n [] ≡ []
drop_nil zero = refl
drop_nil (suc n) = refl

-- A chunk, which may be shorter than asked, and what is left of the window.
module _ {ℓ} {A : Type ℓ} where
  chunk_then_rest :
      (k n : ℕ) (xs : List A)
      → k ≤ n
      → take k xs ++ take (n - length (take k xs)) (drop (length (take k xs)) xs) ≡ take n xs
  chunk_then_rest zero n xs h = ap (λ m. take m xs) (omega arith)
  chunk_then_rest (suc k) zero xs h = absurd (omega arith)
  chunk_then_rest (suc k) (suc n) [] h = take_nil _
  chunk_then_rest (suc k) (suc n) (x ∷ xs) h =
      ap (λ l. x ∷ l)
        (ap (λ m. take k xs ++ take m (drop (length (take k xs)) xs)) (omega arith)
          ∙ chunk_then_rest k n xs (omega arith))

  drop-drop : (m n : ℕ) (xs : List A) → drop m (drop n xs) ≡ drop (n + m) xs
  drop-drop m zero xs = ap (λ k. drop k xs) (omega arith)
  drop-drop m (suc n) [] = drop_nil m ∙ sym (drop_nil (suc n + m))
  drop-drop m (suc n) (x ∷ xs) =
      drop-drop m n xs
      ∙ ap (λ k. drop k (x ∷ xs)) (let e : suc (n + m) ≡ suc n + m = omega arith in e)

-- What `os.pread` documents: at most the bytes asked for from the offset on, and none only at the
-- end of the file.
pub record Reads (pread : ℕ → ℕ → Bytes) (content : Bytes) : Type 0 where
  pub got : ℕ → ℕ → ℕ
  pub bytes : (n offset : ℕ) → pread n offset ≡ take (got n offset) (drop offset content)
  pub at_most : (n offset : ℕ) → got n offset ≤ n
  pub some_bytes : (n offset : ℕ) → 0 < n → offset < length content → 0 < got n offset

module _ {pread : ℕ → ℕ → Bytes} {content : Bytes} (reads : Reads pread content) where
  open reads use {got, bytes, at_most, some_bytes}

  -- An empty chunk means that the offset is at the end of the file, or past it.
  at_end : (n position : ℕ) → 0 < n → length (pread n position) ≡ 0 → drop position content ≡ []
  at_end n position h e = elim (Bool-cases (ltb position (length content))) [
    | inl inside ↦ absurd (
        omega (
          arith,
          e,
          ap length (bytes n position),
          length-take {0} (got n position) (drop position content),
          length-drop {0} position content,
          ltb→lt position (length content) inside,
          some_bytes n position h (ltb→lt position (length content) inside),
        ))
    | inr outside ↦ drop_all position content (ltb→le position (length content) outside)
  ]

  -- A chunk in front of what the next rounds read.
  chunk_then_loop :
      (n remaining position : ℕ) (rest : Bytes)
      → n ≤ remaining
      → rest
        ≡ take
            (remaining - length (pread n position))
            (drop (position + length (pread n position)) content)
      → pread n position ++ rest ≡ take remaining (drop position content)
  chunk_then_loop n remaining position rest h e =
      let k = got n position in
      let tail = drop position content in
      rw e (
        rw (bytes n position) (
          rw (← drop-drop (length (take k tail)) position content)
            (chunk_then_rest k remaining tail (omega (arith, at_most n position)))))

  read_loop_lem :
      (fuel remaining position : ℕ)
      → remaining ≤ fuel
      → flatten (read_loop pread fuel remaining position) ≡ take remaining (drop position content)
  unfolding read_loop flatten
  read_loop_lem zero remaining position h =
      ap (λ n. take n (drop position content)) (let e : 0 ≡ remaining = omega arith in e)
  read_loop_lem (suc fuel) zero position h = refl
  read_loop_lem (suc fuel) (suc r) position h =
      let n = min read_chunk (suc r) in
      elim (Bool-cases (length (pread n position) == 0)) [
        | inl none_left ↦
            rw none_left (rw (at_end n position (omega arith) ((==_iff _ 0).0 none_left)) refl)
        | inr more ↦ rw more (
            chunk_then_loop n (suc r) position _ (omega arith) (
              read_loop_lem fuel (suc r - length (pread n position))
                (position + length (pread n position)) (ground (arith, more))))
      ]

-- The chunks add up to the window of the file, or to what the file has of it: with as much fuel as
-- there are bytes to read the loop ends by itself.
pub flatten-read_file_chunks :
    (os : Os) (fd offset count : ℕ) (content : Bytes)
    → Reads (os.pread fd) content
    → flatten (read_file_chunks os fd offset count) ≡ take count (drop offset content)
unfolding read_file_chunks
flatten-read_file_chunks os fd offset count content reads =
    read_loop_lem reads count count offset (omega arith)

-- What the kernel promises: it sends at most what a call asks for.
abbrev pub Obeys : Option ℕ → ℕ → List Sent → Type 0
Obeys count sent_total [] = Unit
Obeys count sent_total (blocked ∷ answers) = Obeys count sent_total answers
Obeys count sent_total (sent n ∷ answers) =
    (n ≤ to_send count sent_total) × Obeys count (sent_total + n) answers

-- Every call stays within the window, asks for a byte at least, and for no more than the cap.
pub sendfile_calls :
    (count start offset sent_total : ℕ) (answers : List Sent)
    → Obeys (some count) sent_total answers
    → offset ≡ start + sent_total
    → All
        (λ c. (start ≤ c.0) × (c.0 + c.1 ≤ start + count) × (0 < c.1) × (c.1 ≤ max_sendfile_chunk))
        (sendfile_loop (some count) offset sent_total answers).0
unfolding sendfile_loop
sendfile_calls count start offset sent_total [] h e = tt
sendfile_calls count start offset sent_total (blocked ∷ answers) h e =
    elim (Bool-cases (ltb sent_total count)) [
      | inl goes ↦ rw goes (ground arith, sendfile_calls count start offset sent_total answers h e)
      | inr ends ↦ rw ends tt
    ]
sendfile_calls count start offset sent_total (sent n ∷ answers) (fits, h) e =
    elim (Bool-cases (ltb sent_total count)) [
      | inl goes ↦ rw goes (
        ground arith,
        elim (Bool-cases (n == 0)) [
          | inl eof ↦ rw eof tt
          | inr more ↦
              rw more
                (sendfile_calls count start (offset + n) (sent_total + n) answers h (omega arith))
        ],
      )
      | inr ends ↦ rw ends tt
    ]

-- An answer of no bytes, which is the end of the file.
abbrev pub meets_end : List Sent → Bool
meets_end [] = false
meets_end (blocked ∷ answers) = meets_end answers
meets_end (sent n ∷ answers) = n == 0 || meets_end answers

-- When `sendfile` returns, it has sent the whole window, or has met the end of the file.
pub sendfile_returns :
    (count offset sent_total total : ℕ) (answers : List Sent)
    → Obeys (some count) sent_total answers
    → sent_total ≤ count
    → (sendfile_loop (some count) offset sent_total answers).1 ≡ some total
    → (total ≤ count) × ((total ≡ count) ⊎ (meets_end answers ≡ true))
unfolding sendfile_loop
sendfile_returns count offset sent_total total [] obeys h e = ground arith
sendfile_returns count offset sent_total total (blocked ∷ answers) obeys h e =
    ground (arith, sendfile_returns count offset sent_total total answers obeys h)
sendfile_returns count offset sent_total total (sent n ∷ answers) obeys h e =
    ground (arith, sendfile_returns count (offset + n) (sent_total + n) total answers obeys.1)
