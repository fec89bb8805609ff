-- ===== src/H2/Order/Opening.antt =====
-- The methods of H2/Opening (protocol/h2.py) keep the streams in their turn.
use anycorn.Prelude.{ℕ, if-intro}
use anycorn.Exec.{Result, ok, err, ◌>>=◌}
use anycorn.Exec.Hoare.{
  Triple, Post, T-raise, T-gets, T-if, T-lift, T-modify, T-skip, T-state, ◌>>>◌,
}
use anycorn.Bytes.{Bytes, Text, Headers}
use anycorn.Events.{Event}
use anycorn.H2.State.{World}
use anycorn.H2.Calls.{Protocol, M, U, in_tree, prioritise, set_buffer, is_protocol_error}
use anycorn.Connection.Pseudo.{read_target, kind_of, request_of}
use anycorn.H2.Opening.{
  is_duplicate, open_stream, give_priority, enter_tree, abandon, or_abandon, prepare, open_with,
  create_stream, create_whole, promise, on_promised, push_headers, create_server_push,
}
use anycorn.H2.Order.{Follows, NewStream}
use anycorn.Connection.Lives.Laws.{InTurn-marked, NewStream-opened, InTurn-first, InTurn-abandoned}
use anycorn.H2.Order.Calls.{
  IsSteady, gets-IsSteady, library-IsSteady, flush-IsSteady, delivered-IsSteady, forward-IsSteady,
}

module _ (x : World) where
  module _ (id : ℕ) where
    -- The method leaves the new stream uncalled and the others in their turn.
    abbrev IsApart : {A : Type 0} → M x A → Type 0
    IsApart m = Triple (NewStream x id) (NewStream x id) m (λ _. NewStream x id)

    NewStream-in_tree :
        (s : Protocol x) (r : Result x.tree.Tree)
        → NewStream x id s
        → Post (NewStream x id) (λ _. NewStream x id) (in_tree x s r)
    NewStream-in_tree s (ok tree) o = o
    NewStream-in_tree s (err e) o = o

    prioritise-IsApart : (call : x.tree.Tree → Result x.tree.Tree) → IsApart (prioritise x call)
    unfolding prioritise
    prioritise-IsApart call = T-state _ λ s o. NewStream-in_tree s (call s.priority) o

    give_priority-IsApart : (r : Result x.tree.Tree) → IsApart (give_priority x id r)
    unfolding give_priority
    give_priority-IsApart (ok tree) =
        T-modify {Q = λ _. NewStream x id} _ (λ s o. o) >>> λ _. prioritise-IsApart _
    give_priority-IsApart (err e) =
        T-if (is_duplicate e) (λ _. T-skip λ s o. o) (λ _. T-raise e λ s o. o)

    enter_tree-IsApart : IsApart (enter_tree x id)
    unfolding enter_tree
    enter_tree-IsApart =
        T-gets {Q = λ _. NewStream x id} _ (λ s o. o) >>> λ tree. give_priority-IsApart tree

    prepare-IsApart :
        (method : Text) (raw_path : Bytes) (headers : Headers)
        → IsApart (prepare x id method raw_path headers)
    unfolding prepare set_buffer
    prepare-IsApart method raw_path headers =
        T-modify {Q = λ _. NewStream x id} _ (λ s o. o) >>> λ _. enter_tree-IsApart >>> λ _.
        T-gets {Q = λ _. NewStream x id} _ (λ s o. o) >>> λ state.
        T-lift (request_of _ state method raw_path headers) (λ _ _ s o. o) (λ s o. o)

    or_abandon-Follows :
        {A : Type 0} (r : Result A × Protocol x)
        → Post (NewStream x id) (λ _. NewStream x id) r
        → Post (Follows x) (λ _. NewStream x id) (or_abandon x id r)
    unfolding or_abandon abandon ◌>>=◌
    or_abandon-Follows (ok a, s) o = o
    or_abandon-Follows (err e, s) o = InTurn-abandoned s.calls s.streams id o

  module _ (others : U x) (steady : IsSteady x others) where
    open_with-IsSteady :
        (id : ℕ) (headers : Headers) (target : Text × Bytes)
        → IsSteady x (open_with x others id headers target)
    unfolding open_with open_stream
    open_with-IsSteady id headers (method, raw_path) =
        T-modify {Q = λ _. NewStream x id} _
          (λ s f. NewStream-opened s.calls s.streams id (kind_of method) f)
        >>> λ _.
            T-state {Q = λ _. NewStream x id} _
              (λ s o. or_abandon-Follows id _ ((prepare-IsApart id method raw_path headers).at s o))
            >>> λ r.
                delivered-IsSteady x others steady (Event.request id r)
                  (λ s o. InTurn-first s.calls s.streams id r o)
                >>> λ _. T-modify _ (λ s f. InTurn-marked s.calls s.streams f)

    pub create_stream-IsSteady :
        (id : ℕ) (headers : Headers) → IsSteady x (create_stream x others id headers)
    unfolding create_stream
    create_stream-IsSteady id headers =
        T-lift {Q = λ _. Follows x} (read_target headers _) (λ _ _ s f. f) (λ s f. f)
        >>> open_with-IsSteady id headers

    pub create_whole-IsSteady :
        (id : ℕ) (headers : Headers) → IsSteady x (create_whole x others id headers)
    unfolding create_whole
    create_whole-IsSteady id headers =
        create_stream-IsSteady id headers >>> λ _. forward-IsSteady x others steady id

    promise-IsSteady :
        (id promised : ℕ) (headers : Headers) → IsSteady x (promise x others id promised headers)
    unfolding promise
    promise-IsSteady id promised headers =
        library-IsSteady x _ >>> λ _. flush-IsSteady x others steady

    on_promised-Follows :
        (promised : ℕ) (headers : Headers) (r : Result (Unit {0}) × Protocol x)
        → Post (Follows x) (λ _. Follows x) r
        → Post (Follows x) (λ _. Follows x) (on_promised x others promised headers r)
    on_promised-Follows promised headers (ok u, s) f =
        (create_whole-IsSteady promised headers).at s f
    on_promised-Follows promised headers (err e, s) f =
        if-intro (Post (Follows x) (λ _. Follows x)) (is_protocol_error e) (λ _. f) (λ _. f)

    pub create_server_push-IsSteady :
        (id : ℕ) (path : Bytes) (headers : Headers)
        → IsSteady x (create_server_push x others id path headers)
    unfolding create_server_push
    create_server_push-IsSteady id path headers = gets-IsSteady x _ >>> λ c.
        T-lift {Q = λ _. Follows x} _ (λ _ _ s f. f) (λ s f. f) >>> λ promised.
        gets-IsSteady x _ >>> λ config. T-state _ λ s f.
          on_promised-Follows promised (push_headers x others path headers config) _
            ((promise-IsSteady id promised _).at s f)
