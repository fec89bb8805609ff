-- ===== src/H2/Reset.antt =====
-- What is left of a stream that the client resets (protocol/h2.py).
use anycorn.Prelude.{ℕ, zero, suc, ◌≡◌, refl, true, Option, none, some}
use anycorn.Prelude.Dicts.{get, get-delete}
use anycorn.Exec.{Error, Result, ok, err, skip, handled, except}
use anycorn.Exec.Hoare.{Triple, Post, T-gets, T-modify, T-skip, T-state, ◌>>>◌}
use anycorn.Connection.{StreamKind}
use anycorn.H2.Buffer.{StreamBuffer}
use anycorn.H2.State.{World}
use anycorn.H2.Calls.{
  Protocol, U, is_missing, in_tree, prioritise, set_has_data, drop_buffer, discard_send_state,
  unblock_stream, unblock_for, window_updated, take_leave, close_if, close_stream,
}
use anycorn.H2.Handle.{on_reset}
use anycorn.H2.Runs.{meanwhile}

module _ (x : World) (n : ℕ) where
  abbrev HasNone : Protocol x → Type 0
  HasNone s = get (suc n) s.streams ≡ none

  -- Neither the stream nor its buffer is there.
  record IsForgotten (s : Protocol x) : Type 0 where
    stream_gone : get (suc n) s.streams ≡ none
    buffer_gone : get (suc n) s.stream_buffers ≡ none

  -- The method returns.
  abbrev Returns : (Protocol x → Type 0) → U x → (Protocol x → Type 0) → Type 0
  Returns P m Q = Triple (λ _. ⊥) P m (λ _. Q)

  set_has_data-Returns : Returns IsForgotten (set_has_data x) IsForgotten
  unfolding set_has_data
  set_has_data-Returns =
      T-modify _ λ s f. record { stream_gone = f.stream_gone; buffer_gone = f.buffer_gone }

  close_if-Returns :
      (kind : Option StreamKind)
      → Returns
          (λ s. get (suc n) s.streams ≡ kind)
          (close_if x (meanwhile x zero) (suc n) kind)
          HasNone
  unfolding close_if take_leave meanwhile set_has_data
  close_if-Returns none = T-skip λ s e. e
  close_if-Returns (some kind) =
      T-modify {Q = λ _. HasNone} _ (λ s e. get-delete (suc n) s.streams) >>> λ _.
      T-skip {Q = λ _. HasNone} (λ s e. e) >>> λ _. T-modify _ λ s e. e

  close_stream-Returns : Returns (λ _. Unit) (close_stream x (meanwhile x zero) (suc n)) HasNone
  unfolding close_stream
  close_stream-Returns =
      T-gets {Q = λ kind s. get (suc n) s.streams ≡ kind} _ (λ s u. refl) >>> close_if-Returns

  module _
      (removes : (tree : x.tree.Tree) (e : Error)
        → x.tree.remove (suc n) tree ≡ err e
        → is_missing e ≡ true) where
    removed :
        (s : Protocol x) (r : Result x.tree.Tree)
        → x.tree.remove (suc n) s.priority ≡ r
        → IsForgotten s
        → Post (λ _. ⊥) (λ _. IsForgotten) (handled is_missing skip (in_tree x s r))
    unfolding skip
    removed s (ok tree) e f = record { stream_gone = f.stream_gone; buffer_gone = f.buffer_gone }
    removed s (err error) e f = rw (removes s.priority error e) f

    discard-Returns : Returns HasNone (discard_send_state x (suc n)) IsForgotten
    unfolding discard_send_state drop_buffer except prioritise
    discard-Returns =
        T-modify {Q = λ _. IsForgotten} _
          (λ s e. record { stream_gone = e; buffer_gone = get-delete (suc n) s.stream_buffers })
        >>> λ _. T-state _ λ s f. removed s (x.tree.remove (suc n) s.priority) refl f

    unblock-Returns : Returns IsForgotten (unblock_for x (some (suc n))) IsForgotten
    unfolding unblock_for unblock_stream
    unblock-Returns =
        T-gets {Q = λ b s. IsForgotten s × (get (suc n) s.stream_buffers ≡ b)} _ (λ s f. (f, refl))
        >>> either
      where
        either :
            (b : Option StreamBuffer)
            → Returns
                (λ s. IsForgotten s × (get (suc n) s.stream_buffers ≡ b))
                (unblock_stream x (suc n) b)
                IsForgotten
        either none = T-skip λ s (f, e). f
        either (some b) = record { at = λ s (f, e). let g = f.buffer_gone in absurd (cc) }

    on_reset-Returns : Returns (λ _. Unit) (on_reset x (meanwhile x zero) (suc n)) IsForgotten
    unfolding on_reset window_updated
    on_reset-Returns = close_stream-Returns >>> λ _.
        discard-Returns >>> λ _. unblock-Returns >>> λ _. set_has_data-Returns

    -- Where `remove_stream` raises nothing but `MissingStreamError` and no other task runs meanwhile,
    -- the reset of a stream with a positive number returns, and neither the stream nor its buffer is
    -- there any more.
    pub on_reset-forgets :
        (s : Protocol x)
        → let r = on_reset x (meanwhile x zero) (suc n) s in
          (r.0 ≡ ok tt) × (get (suc n) r.1.streams ≡ none) × (get (suc n) r.1.stream_buffers ≡ none)
    on_reset-forgets s = either (on_reset x (meanwhile x zero) (suc n) s) (on_reset-Returns.at s tt)
      where
        either :
            (r : Result (Unit {0}) × Protocol x)
            → Post (λ _. ⊥) (λ _. IsForgotten) r
            → (r.0 ≡ ok tt)
              × (get (suc n) r.1.streams ≡ none)
              × (get (suc n) r.1.stream_buffers ≡ none)
        either (ok u, s) f = (refl, f.stream_gone, f.buffer_gone)
        either (err e, s) f = absurd f
