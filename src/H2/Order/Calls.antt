-- ===== src/H2/Order/Calls.antt =====
-- The methods of H2/Calls (protocol/h2.py) keep the streams in their turn.
use anycorn.Prelude.{ℕ, zero, suc, ◌≡◌, refl, List, [], ◌∷◌, Option, none, some}
use anycorn.Prelude.Dicts.{get}
use anycorn.Exec.{Result, ok, err, gets}
use anycorn.Exec.Hoare.{
  Triple, Post, T-raise, T-gets, T-lift, T-modify, T-skip, T-except, T-state, ◌>>>◌,
}
use anycorn.Bytes.{Bytes}
use anycorn.Connection.{ServerEvent, StreamKind}
use anycorn.Events.{Event}
use anycorn.H2.Buffer.{StreamBuffer}
use anycorn.H2.State.{World, delivered}
use anycorn.H2.Calls.{
  Protocol, M, U, LibraryCall, record_call, library, in_tree, prioritise, set_has_data, buffer_of,
  set_buffer, drop_buffer, discard_send_state, unblock_all, unblock_stream, unblock_for,
  window_updated, tell, deliver, send_bytes, flush, deliver_to, forward, take_leave, close_if,
  close_stream, is_missing, found,
}
use anycorn.Connection.Lives.Laws.{InTurn-sent, InTurn-end_body, InTurn-closed}
use anycorn.H2.Order.{Follows}

module _ (x : World) where
  -- The method leaves the streams in their turn, whether it returns or raises.
  abbrev pub IsSteady : {A : Type 0} → M x A → Type 0
  IsSteady m = Triple (Follows x) (Follows x) m (λ _. Follows x)

  pub gets-IsSteady : {A : Type 0} (f : Protocol x → A) → IsSteady (gets f)
  gets-IsSteady f = T-gets f λ s a. a

  pub library-IsSteady : {A : Type 0} (call : LibraryCall x (Result A)) → IsSteady (library x call)
  unfolding library
  library-IsSteady call = T-state _ λ s f. either s (call s.connection).0 (call s.connection).1 f
    where
      either :
          {A : Type 0} (s : Protocol x) (r : Result A) (c : x.h2.Connection)
          → Follows x s
          → Post (Follows x) (λ _. Follows x) (r, record s { connection = c })
      either s (ok a) c f = f
      either s (err e) c f = f

  pub in_tree-Follows :
      (s : Protocol x) (r : Result x.tree.Tree)
      → Follows x s
      → Post (Follows x) (λ _. Follows x) (in_tree x s r)
  in_tree-Follows s (ok tree) f = f
  in_tree-Follows s (err e) f = f

  pub prioritise-IsSteady : (call : x.tree.Tree → Result x.tree.Tree) → IsSteady (prioritise x call)
  unfolding prioritise
  prioritise-IsSteady call = T-state _ λ s f. in_tree-Follows s (call s.priority) f

  pub set_has_data-IsSteady : IsSteady (set_has_data x)
  unfolding set_has_data
  set_has_data-IsSteady = T-modify _ λ s f. f

  pub buffer_of-IsSteady : (id : ℕ) → IsSteady (buffer_of x id)
  unfolding buffer_of
  buffer_of-IsSteady id = gets-IsSteady _ >>> λ b. T-lift (found b) (λ _ _ s f. f) (λ s f. f)

  pub set_buffer-IsSteady : (id : ℕ) (b : StreamBuffer) → IsSteady (set_buffer x id b)
  unfolding set_buffer
  set_buffer-IsSteady id b = T-modify _ λ s f. f

  pub discard_send_state-IsSteady : (id : ℕ) → IsSteady (discard_send_state x id)
  unfolding discard_send_state drop_buffer
  discard_send_state-IsSteady id = T-modify {Q = λ _. Follows x} _ (λ s f. f) >>> λ _.
      T-except is_missing (prioritise-IsSteady _) (T-skip λ s f. f)

  unblock_all-IsSteady : (ids : List ℕ) → IsSteady (unblock_all x ids)
  unfolding unblock_all
  unblock_all-IsSteady [] = T-skip λ s f. f
  unblock_all-IsSteady (id ∷ ids) = prioritise-IsSteady _ >>> λ _. unblock_all-IsSteady ids

  unblock_stream-IsSteady : (id : ℕ) (b : Option StreamBuffer) → IsSteady (unblock_stream x id b)
  unfolding unblock_stream
  unblock_stream-IsSteady id none = T-skip λ s f. f
  unblock_stream-IsSteady id (some b) = prioritise-IsSteady _

  unblock_for-IsSteady : (id : Option ℕ) → IsSteady (unblock_for x id)
  unfolding unblock_for
  unblock_for-IsSteady none = gets-IsSteady _ >>> unblock_all-IsSteady
  unblock_for-IsSteady (some zero) = gets-IsSteady _ >>> unblock_all-IsSteady
  unblock_for-IsSteady (some (suc n)) = gets-IsSteady _ >>> unblock_stream-IsSteady (suc n)

  pub window_updated-IsSteady : (id : Option ℕ) → IsSteady (window_updated x id)
  unfolding window_updated
  window_updated-IsSteady id = unblock_for-IsSteady id >>> λ _. set_has_data-IsSteady

  -- The stream of this number, as it was read
  abbrev pub Read : ℕ → Option StreamKind → Protocol x → Type 0
  Read id kind s = Follows x s × (get id s.streams ≡ kind)

  pub get-Read :
      (id : ℕ)
      → Triple (Follows x) (Follows x) (gets {S = Protocol x} (λ s. get id s.streams)) (Read id)
  get-Read id = T-gets _ λ s f. (f, refl)

  module _ (others : U x) (steady : IsSteady others) where
    pub tell-IsSteady : (e : ServerEvent) → IsSteady (tell x others e)
    unfolding tell
    tell-IsSteady e =
        T-modify {Q = λ _. Follows x} _ (λ s f. InTurn-sent s.calls s.streams e f) >>> λ _. steady

    -- An event that is in its turn
    pub delivered-IsSteady :
        (e : Event) {P : Protocol x → Type 0}
        → ((s : Protocol x) → P s → Follows x (record_call x (delivered e) s))
        → Triple (Follows x) P (deliver x others e) (λ _. Follows x)
    unfolding deliver
    delivered-IsSteady e turn = T-modify {Q = λ _. Follows x} _ turn >>> λ _. steady

    send_bytes-IsSteady : (chunk : Bytes) → IsSteady (send_bytes x others chunk)
    unfolding send_bytes
    send_bytes-IsSteady [] = T-skip λ s f. f
    send_bytes-IsSteady (b ∷ bytes) = tell-IsSteady _

    pub flush-IsSteady : IsSteady (flush x others)
    unfolding flush
    flush-IsSteady = gets-IsSteady _ >>> λ chunk.
        T-modify {Q = λ _. Follows x} _ (λ s f. f) >>> λ _. send_bytes-IsSteady chunk

    end_body_to :
        (id : ℕ) (kind : Option StreamKind)
        → Triple
            (Follows x)
            (Read id kind)
            (deliver_to x others id (Event.end_body id) kind)
            (λ _. Follows x)
    unfolding deliver_to
    end_body_to id none = T-raise _ λ s (f, h). f
    end_body_to id (some kind) =
        delivered-IsSteady (Event.end_body id) λ s (f, h). InTurn-end_body s.calls s.streams id h f

    pub forward-IsSteady : (id : ℕ) → IsSteady (forward x others id (Event.end_body id))
    unfolding forward
    forward-IsSteady id = get-Read id >>> end_body_to id

    close_if-IsSteady :
        (id : ℕ) (kind : Option StreamKind)
        → Triple (Follows x) (Read id kind) (close_if x others id kind) (λ _. Follows x)
    unfolding close_if take_leave
    close_if-IsSteady id none = T-skip λ s (f, h). f
    close_if-IsSteady id (some kind) =
        T-modify {Q = λ _. Follows x} _ (λ s (f, h). InTurn-closed s.calls s.streams id h f)
        >>> λ _. steady >>> λ _. set_has_data-IsSteady

    pub close_stream-IsSteady : (id : ℕ) → IsSteady (close_stream x others id)
    unfolding close_stream
    close_stream-IsSteady id = get-Read id >>> close_if-IsSteady id
