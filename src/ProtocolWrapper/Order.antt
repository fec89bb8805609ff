-- ===== src/ProtocolWrapper/Order.antt =====
-- Every run of a `ProtocolWrapper` (protocol/__init__.py) calls its streams in order, under either
-- protocol.
use mathlib.Core.Path.{subst}
use anycorn.Prelude.{ℕ, ◌≡◌, refl, Bool, true, false, List, [], ◌∷◌, Option, none, some, if-intro}
use anycorn.Exec.{Result, ok, err}
use anycorn.Exec.Hoare.{Post, T-skip, ◌>>>◌, keeps}
use anycorn.Bytes.{Bytes, Text, codes, eq}
use anycorn.Config.{Config, TlsExtension}
use anycorn.Connection.{application}
use anycorn.Events.{ConnectionState}
use anycorn.H11
use anycorn.H11.State.{H11, Reader, ready, looping}
use anycorn.H2
use anycorn.H2.State.{World, sends}
use anycorn.ProtocolWrapper.{
  Upgrade, upgrade_of, Op, initiate, handle_bytes, handle_closed, stream_send, next_round, resume,
  other_task, Inner, h11_protocol, h2_protocol, ProtocolWrapper, chosen, new, others, hand_on,
  over_h2, replacement, upgrade, on_error, over_h11, handle_h11, step_h11, step_h2, step_inner,
  step, run,
}

module _ (h : H11) (laws : H11.Order.Lawful h) (x : World) where
  -- The streams are in their turn; over HTTP/1.1 one may be without its request where the wrapper has
  -- failed.
  abbrev pub InTurn : Bool → Inner h x → Type 0
  InTurn failed (h11_protocol s) = H11.Order.Follows h failed s
  InTurn failed (h2_protocol s) = H2.Order.Follows x s

  abbrev pub Ordered : ProtocolWrapper h x → Type 0
  Ordered w = InTurn w.failed w.protocol

  module _ (env : H11.State.Surroundings h.Connection) (aside : H11.Order.IsAside h env)
      (depth : ℕ) where
    steady : H2.Order.Calls.IsSteady x (others h x env depth)
    steady = H2.Order.Whole.meanwhile-IsSteady x depth

    over_h2-Ordered :
        (w : ProtocolWrapper h x) (r : Result (Unit {0}) × H2.Calls.Protocol x)
        → Post (H2.Order.Follows x) (λ _. H2.Order.Follows x) r
        → Ordered (over_h2 h x env depth w r)
    over_h2-Ordered w (ok u, s) f = f
    over_h2-Ordered w (err e, s) f = f

    hand_on-IsSteady : (chunk : Bytes) → H2.Order.Calls.IsSteady x (hand_on h x env depth chunk)
    unfolding hand_on
    hand_on-IsSteady [] = T-skip λ s f. f
    hand_on-IsSteady (b ∷ bytes) = H2.Order.Handle.handle_raw-IsSteady x _ steady (b ∷ bytes)

    upgrade-Ordered : (u : Upgrade) (w : ProtocolWrapper h x) → Ordered (upgrade h x env depth u w)
    unfolding upgrade H2.State.new
    upgrade-Ordered u w = over_h2-Ordered w _ (
        (H2.Order.Handle.initiate-IsSteady x _ steady u.headers u.settings >>> λ _.
        hand_on-IsSteady u.chunk).at
          (replacement h x env depth w) (λ id. (H2.Order.absent, refl, H2.Order.nobody)))

    on_error-Ordered :
        (u : Option Upgrade) (s : H11.Calls.Protocol h) (w : ProtocolWrapper h x)
        → H11.Order.Follows h true s
        → Ordered (on_error h x env depth u s w)
    on_error-Ordered none s w f = f
    on_error-Ordered (some u) s w f = upgrade-Ordered u _

    over_h11-Ordered :
        (r : Result (Unit {0}) × H11.Calls.Protocol h) (w : ProtocolWrapper h x)
        → (w.failed ≡ false)
        → Post (H11.Order.Follows h true) (λ _. H11.Order.Follows h false) r
        → Ordered (over_h11 h x env depth r w)
    over_h11-Ordered (ok u, s) w e f = rw e f
    over_h11-Ordered (err e, s) w _ f = on_error-Ordered (upgrade_of e) s w f

    module _ (s : H11.Calls.Protocol h) (w : ProtocolWrapper h x)
        (is : w.protocol ≡ h11_protocol s) where
      handle_h11-Ordered :
          (place : Reader) (m : H11.Calls.M h (Unit {0}))
          → H11.Order.Opening.Reads h laws
              (H11.Order.Follows h false)
              m
              (λ _. H11.Order.Follows h false)
          → InTurn w.failed (h11_protocol s)
          → Ordered (handle_h11 h x env depth place m s w)
      unfolding handle_h11
      handle_h11-Ordered place m t f =
          if-intro Ordered w.failed (λ _. rw is f)
            (λ e.
              if-intro Ordered (H11.Runs.is_at h place s.reader)
                (λ _.
                  over_h11-Ordered (m s) w e (t.at s (subst (λ b. H11.Order.Follows h b s) e f)))
                (λ _. rw is f))

      step_h11-Ordered :
          (op : Op) → InTurn w.failed (h11_protocol s) → Ordered (step_h11 h x env depth op s w)
      unfolding step_h11
      step_h11-Ordered initiate f = rw is f
      step_h11-Ordered (handle_bytes chunk) f =
          handle_h11-Ordered ready _ (H11.Order.Reading.handle_raw-Reads h laws env aside chunk) f
      step_h11-Ordered handle_closed f =
          H11.Order.Whole.closes-InOrder h laws env aside w.failed s f
      step_h11-Ordered (stream_send e) f =
          keeps (H11.Order.Streams.stream_send-IsSteady h laws env aside w.failed e) s f
      step_h11-Ordered next_round f =
          handle_h11-Ordered looping _ (H11.Order.Reading.round-Reads h laws env aside) f
      step_h11-Ordered resume f =
          handle_h11-Ordered Reader.suspended _ (H11.Order.Whole.go_on-Reads h laws env aside) f
      step_h11-Ordered (other_task op) f = rw is f

    module _ (s : H2.Calls.Protocol x) (w : ProtocolWrapper h x)
        (is : w.protocol ≡ h2_protocol s) where
      step_h2-Ordered : (op : Op) → H2.Order.Follows x s → Ordered (step_h2 h x env depth op s w)
      unfolding step_h2
      step_h2-Ordered initiate f =
          over_h2-Ordered w _ ((H2.Order.Handle.initiate-IsSteady x _ steady none none).at s f)
      step_h2-Ordered (handle_bytes chunk) f =
          over_h2-Ordered w _ ((H2.Order.Handle.handle_raw-IsSteady x _ steady chunk).at s f)
      step_h2-Ordered handle_closed f =
          over_h2-Ordered w _ ((H2.Order.Handle.handle_closed-IsSteady x _ steady).at s f)
      step_h2-Ordered (stream_send e) f =
          keeps (H2.Order.Whole.perform-IsSteady x _ steady (sends application e)) s f
      step_h2-Ordered next_round f = rw is f
      step_h2-Ordered resume f = rw is f
      step_h2-Ordered (other_task op) f = keeps (H2.Order.Whole.perform-IsSteady x _ steady op) s f

    step_inner-Ordered :
        (op : Op) (inner : Inner h x) (w : ProtocolWrapper h x)
        → w.protocol ≡ inner
        → InTurn w.failed inner
        → Ordered (step_inner h x env depth op inner w)
    step_inner-Ordered op (h11_protocol s) w is f = step_h11-Ordered s w is op f
    step_inner-Ordered op (h2_protocol s) w is f = step_h2-Ordered s w is op f

    steps-Ordered :
        (ops : List Op) (w : ProtocolWrapper h x) → Ordered w → Ordered (run h x env depth ops w)
    unfolding run step
    steps-Ordered [] w f = f
    steps-Ordered (op ∷ ops) w f = steps-Ordered ops _ (step_inner-Ordered op w.protocol w refl f)

    chosen-InTurn :
        (config : Config) (state : ConnectionState) (client : Option (Text × ℕ))
        (server : Option (Text × Option ℕ)) (tls : Option TlsExtension) (zero_copy_send : Bool)
        (alpn_protocol : Option Text)
        → InTurn false (chosen h x config state client server tls zero_copy_send alpn_protocol)
    unfolding chosen H11.State.new H2.State.new
    chosen-InTurn config state client server tls zero_copy_send none = (
      H11.Order.absent,
      none,
      false,
      H11.Order.nobody,
      record { phases = refl; streams = refl; wires = λ e. absurd (cc) },
    )
    chosen-InTurn config state client server tls zero_copy_send (some alpn_protocol) =
        if-intro (InTurn false) (eq alpn_protocol (codes "h2"))
          (λ _ id. (H2.Order.absent, refl, H2.Order.nobody))
          (λ _. (
            H11.Order.absent,
            none,
            false,
            H11.Order.nobody,
            record { phases = refl; streams = refl; wires = λ e. absurd (cc) },
          ))

    -- Where over HTTP/1.1 no stream is opened or called while one handles its `StreamClosed`, and h11
    -- keeps to its rules: whichever protocol a connection begins with, and whether or not it changes to
    -- HTTP/2, in every run of the wrapper the protocol that is in place calls its streams in order: over HTTP/1.1 the one
    -- stream, which is without its request only where an exception has left `handle`; over HTTP/2 each
    -- of them, with the dictionary of the streams as the automaton has it.
    pub run-Ordered :
        (config : Config) (state : ConnectionState) (client : Option (Text × ℕ))
        (server : Option (Text × Option ℕ)) (tls : Option TlsExtension) (zero_copy_send : Bool)
        (alpn_protocol : Option Text) (ops : List Op)
        → Ordered (
            run h x env depth ops
              (new h x config state client server tls zero_copy_send alpn_protocol))
    unfolding new
    run-Ordered config state client server tls zero_copy_send alpn_protocol ops =
        steps-Ordered ops _
          (chosen-InTurn config state client server tls zero_copy_send alpn_protocol)
