-- ===== src/H2/Buffer/Marks.antt =====
-- The marks of a `StreamBuffer` (protocol/h2.py): when the writer waits, and how far the buffer
-- fills.
use anycorn.Prelude.{
  ℕ, ◌+◌, ◌*◌, ◌≤◌, ◌<◌, ◌≡◌, ◌⊎◌, inl, inr, refl, true, false, List, [], ◌∷◌, ◌++◌, ◌==◌,
  if◌then◌else◌, if-intro, drop-nil, All, leb, ltb, min, drop, length, length-append, length-drop,
  arith,
}
use anycorn.Exec.{Result}
use anycorn.Bytes.{Bytes}
use anycorn.WorkerContext.{EventWrapper, clear, resume, wait, set}
use anycorn.H2.Buffer.{StreamBuffer, push, pop, buffer_low_water, buffer_high_water}
use anycorn.H2.Buffer.Runs.{
  Op, pushes, pops, push_ends, drains, drain_ends, completes, closes, Traffic, start, after_push,
  step, run,
}

-- Where the pushing task is, by the event it waits on, and how full the buffer is then: no push
-- has more than `m` bytes.
abbrev pub Idle : ℕ → EventWrapper → ℕ → Type 0
Idle m e n =
    (e.waiting ≡ 0)
    × (e.woken ≡ 0)
    × (((e.is_set ≡ true) × (n < buffer_high_water))
        ⊎ ((e.is_set ≡ false) × (n < buffer_high_water + m)))

abbrev pub Waiting : ℕ → EventWrapper → ℕ → Type 0
Waiting m e n =
    (e.waiting ≡ 1)
    × (e.woken ≡ 0)
    × (e.is_set ≡ false)
    × (buffer_low_water ≤ n)
    × (n < buffer_high_water + 2 * m)

abbrev pub Woken : ℕ → EventWrapper → ℕ → Type 0
Woken m e n = (e.waiting ≡ 0) × (e.woken ≡ 1) × (e.is_set ≡ true) × (n < buffer_high_water + m)

abbrev pub Paused : ℕ → EventWrapper → ℕ → Type 0
Paused m e n = (e.lost ≡ 0) × (Idle m e n ⊎ (Waiting m e n ⊎ Woken m e n))

after_push-Paused :
    (m k n n' : ℕ) (e : EventWrapper)
    → n' ≡ n + k
    → k ≤ m
    → e.waiting ≡ 0
    → e.woken ≡ 0
    → Paused m e n
    → Paused m (if leb buffer_high_water n' then wait e else e) n'
unfolding wait
after_push-Paused m k n n' e q h w v p = ground arith

after_pop-Paused :
    (m n n' : ℕ) (e : EventWrapper)
    → n' ≤ n
    → Paused m e n
    → Paused m (if ltb n' buffer_low_water then set e else e) n'
unfolding set
after_pop-Paused m n n' e h p = ground arith

push_ends-Paused :
    (m n : ℕ) (e : EventWrapper)
    → (e.woken == 0) ≡ false
    → Paused m e n
    → Paused m (clear (resume e)) n
unfolding clear resume
push_ends-Paused m n e w p = ground arith

close-Paused : (m n : ℕ) (e : EventWrapper) → Paused m e n → Paused m (set e) 0
unfolding set
close-Paused m n e p = ground arith

-- The tasks inside `push` or `drain`
abbrev pub busy : StreamBuffer → ℕ
busy b = b.paused.waiting + b.paused.woken + (b.is_empty.waiting + b.is_empty.woken)

-- A task pushes or drains only where none is inside `push` or `drain`.
abbrev pub IsAlone : Op → Traffic → Type 0
IsAlone (pushes chunk) t = busy t.b ≡ 0
IsAlone drains t = busy t.b ≡ 0
IsAlone _ t = Unit

-- All through the run
unfoldable pub OneWriter : List Op → Traffic → Type 0
OneWriter [] t = Unit
OneWriter (op ∷ ops) t = IsAlone op t × OneWriter ops (step op t)

abbrev IsMarked : ℕ → StreamBuffer → Type 0
IsMarked m b = Paused m b.paused (length b.buffer) × (b.is_empty.lost ≡ 0)

-- No push is larger than `m`.
abbrev pub Fits : ℕ → Op → Type 0
Fits m (pushes chunk) = length chunk ≤ m
Fits m _ = Unit

push-IsMarked :
    (m : ℕ) (chunk : Bytes) (t : Traffic)
    → length chunk ≤ m
    → busy t.b ≡ 0
    → IsMarked m t.b
    → IsMarked m (after_push chunk t (push chunk t.b)).b
unfolding push clear
push-IsMarked m chunk t h z (p, l) =
    if-intro (λ (r : Result (Unit {0}) × StreamBuffer). IsMarked m (after_push chunk t r).b)
      t.b.complete (λ e. (p, l))
      (λ e. (
        after_push-Paused m (length chunk) (length t.b.buffer) (length (t.b.buffer ++ chunk))
            t.b.paused (length-append t.b.buffer chunk) h (omega arith) (omega arith) p,
        omega arith,
      ))

pop-IsMarked : (m n : ℕ) (b : StreamBuffer) → IsMarked m b → IsMarked m (pop n b).1
unfolding pop set
pop-IsMarked m n b (p, l) = (
  after_pop-Paused m (length b.buffer) (length (drop (min (length b.buffer) n) b.buffer)) b.paused
      (omega (arith, length-drop (min (length b.buffer) n) b.buffer)) p,
  if-intro (λ (e : EventWrapper). e.lost ≡ 0)
      (length (drop (min (length b.buffer) n) b.buffer) == 0) (λ _. l) (λ _. l),
)

wait-lost : (e : EventWrapper) → e.lost ≡ 0 → (wait e).lost ≡ 0
unfolding wait
wait-lost e h = if-intro (λ (e : EventWrapper). e.lost ≡ 0) e.is_set (λ _. h) (λ _. h)

step-IsMarked :
    (m : ℕ) (op : Op) (t : Traffic)
    → Fits m op
    → IsAlone op t
    → IsMarked m t.b
    → IsMarked m (step op t).b
unfolding step
step-IsMarked m (pushes chunk) t h one p = push-IsMarked m chunk t h one p
step-IsMarked m push_ends t h one (p, l) =
    if-intro (λ (t : Traffic). IsMarked m t.b) (t.b.paused.woken == 0) (λ _. (p, l))
      (λ w. (push_ends-Paused m (length t.b.buffer) t.b.paused w p, l))
step-IsMarked m drains t h one (p, l) = (p, wait-lost t.b.is_empty l)
step-IsMarked m drain_ends t h one p =
    if-intro (λ (t : Traffic). IsMarked m t.b) (t.b.is_empty.woken == 0) (λ _. p) (λ _. p)
step-IsMarked m (pops n) t h one p = pop-IsMarked m n t.b p
step-IsMarked m completes t h one p = p
step-IsMarked m closes t h one (p, l) = (close-Paused m (length t.b.buffer) t.b.paused p, l)

run-IsMarked :
    (m : ℕ) (ops : List Op) (t : Traffic)
    → All (Fits m) ops
    → OneWriter ops t
    → IsMarked m t.b
    → IsMarked m (run ops t).b
unfolding run OneWriter
run-IsMarked m [] t h one p = p
run-IsMarked m (op ∷ ops) t (h, hs) (one, ones) p =
    run-IsMarked m ops (step op t) hs ones (step-IsMarked m op t h one p)

-- However the tasks interleave, where no push has more than `m` bytes and a task pushes or drains
-- only while no other is inside `push` or `drain`: the buffer holds less than the high mark and twice `m`, no task waits on an event that was
-- replaced, and while the pushing task waits there is at least the low mark left to pop.
pub run_marks :
    (m : ℕ) (ops : List Op)
    → All (Fits m) ops
    → OneWriter ops start
    → let b = (run ops start).b in
      (length b.buffer < buffer_high_water + 2 * m)
      × (b.paused.lost ≡ 0)
      × (b.is_empty.lost ≡ 0)
      × ((b.paused.waiting ≡ 0) ⊎ (buffer_low_water ≤ length b.buffer))
run_marks m ops h one =
    facts (run ops start).b
      (run-IsMarked m ops start h one ((refl, inl (refl, refl, inr (refl, omega arith))), refl))
  where
    facts :
        (b : StreamBuffer)
        → IsMarked m b
        → (length b.buffer < buffer_high_water + 2 * m)
          × (b.paused.lost ≡ 0)
          × (b.is_empty.lost ≡ 0)
          × ((b.paused.waiting ≡ 0) ⊎ (buffer_low_water ≤ length b.buffer))
    facts b (p, l) = ground arith

abbrev pub sum : List ℕ → ℕ
sum [] = 0
sum (k ∷ ks) = k + sum ks

-- Once the sending task has popped from a fresh buffer, a push of any size, at the high mark or
-- above it, passes without a wait.
pub push_after_pop :
    (n : ℕ) (chunk : Bytes)
    → let b = (run (pops n ∷ pushes chunk ∷ []) start).b in
      (b.buffer ≡ chunk) × (b.paused.waiting ≡ 0)
unfolding run step push pop set clear wait
push_after_pop n chunk = rw (drop-nil (min 0 n)) (
  refl,
  if-intro (λ (e : EventWrapper). e.waiting ≡ 0) (leb buffer_high_water (length chunk)) (λ _. refl)
      (λ _. refl),
)
