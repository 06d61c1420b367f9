-- ===== src/Server/Consistent/Stranger.antt =====
-- server/src/server.cpp: what a connection can do that has not said hello.
use drop_zone.Base.{
  ℕ, ◌≡◌, ◌≢◌, refl, sym, ◌∙◌, inl, inr, Bool, true, false, List, ◌++◌, none, Bool-cases,
  Option-cases, ◌==◌, ==_iff, ==-ne, if◌then◌else◌,
}
use drop_zone.Base.Result.{Result, ok, err}
use drop_zone.Wire.Header.{
  MessageType, type_byte, client_hello, send_request, group_query, group_join, group_send_request,
  accept, reject, relay_open, relay_data, relay_close, keep_alive, bye,
}
use drop_zone.Wire.Stream.{Frame}
use drop_zone.Server.Connection.{Output, enqueue_frame}
use drop_zone.Server.Group.{awaiting_hello, is_idle}
use drop_zone.Server.Text.{text, message_type_name}
use drop_zone.Server.Store.{Store, World, set}
use drop_zone.Server.Action.{
  Action, Reply, returned, threw, looping, after, with_result, ◌>>◌, done, enqueue, request_close,
  reject_and_close,
}
use drop_zone.Server.Handle.{handle_frame}
use drop_zone.Server.Handle.Introduce.{handle_send_request, handle_accept, handle_reject}
use drop_zone.Server.Handle.Groups.{
  handle_group_query, handle_group_join, handle_group_send_request,
}
use drop_zone.Server.Handle.Relay.{handle_relay_open, handle_relay_data, handle_relay_close}
use drop_zone.Server.Consistent.Handlers.{IsOpen}
use drop_zone.Server.Consistent.Steps.{Reached, Reached-IsConsistent}

pub set-other {ℓ} :
    {A : Type ℓ} (c d : ℕ) (value : A) (table : ℕ → A) → d ≢ c → set c value table d ≡ table d
unfolding set
set-other c d value table n = rw (==-ne c d (λ e. n (sym e))) refl

module _ {L : Type 0} where
  -- The action changes nothing but the buffer and the close request of one connection.
  pub record IsAlone (c : ℕ) (s : Store L) (r : Reply × Store L) : Type 0 where
    pub same_core : r.1.core ≡ s.core
    pub same_groups : r.1.groups ≡ s.groups
    pub same_outputs : (d : ℕ) → d ≢ c → r.1.output d ≡ s.output d
    pub same_requests : (d : ℕ) → d ≢ c → r.1.close_requested d ≡ s.close_requested d

  done-IsAlone : (c : ℕ) (s : Store L) → IsAlone c s (returned, s)
  done-IsAlone c s = record {
    same_core = refl;
    same_groups = refl;
    same_outputs = λ d n. refl;
    same_requests = λ d n. refl;
  }

  request_close-IsAlone :
      (c : ℕ) (reason : List ℕ) (s : Store L) → IsAlone c s (request_close c reason s)
  unfolding request_close
  request_close-IsAlone c reason s = elim (Bool-cases (s.close_requested c)) [
    | inl t ↦ rw t (done-IsAlone c s)
    | inr t ↦ rw t (record {
      same_core = refl;
      same_groups = refl;
      same_outputs = λ d n. refl;
      same_requests = λ d n. set-other c d true s.close_requested n;
    })
  ]

  after-IsAlone :
      (c : ℕ) (s : Store L) (r : Reply × Store L) (n : Action L)
      → IsAlone c s r
      → ((t : Store L) → IsAlone c t (n t))
      → IsAlone c s (after r n)
  after-IsAlone c s (returned, t) n h k =
      let g = k t in
      record {
        same_core = g.same_core ∙ h.same_core;
        same_groups = g.same_groups ∙ h.same_groups;
        same_outputs = λ d m. g.same_outputs d m ∙ h.same_outputs d m;
        same_requests = λ d m. g.same_requests d m ∙ h.same_requests d m;
      }
  after-IsAlone c s (threw e, t) n h k = h
  after-IsAlone c s (looping, t) n h k = h

  queued-IsAlone :
      (c : ℕ) (r : Result Output) (s : Store L)
      → IsAlone c s
          (with_result r (λ queued t. (returned, record t { output = set c queued t.output })) s)
  queued-IsAlone c (ok queued) s = record {
    same_core = refl;
    same_groups = refl;
    same_outputs = λ d n. set-other c d queued s.output n;
    same_requests = λ d n. refl;
  }
  queued-IsAlone c (err e) s = record {
    same_core = refl;
    same_groups = refl;
    same_outputs = λ d n. refl;
    same_requests = λ d n. refl;
  }

  reject_and_close-IsAlone :
      (c : ℕ) (reason : List ℕ) (s : Store L) → IsAlone c s (reject_and_close c reason s)
  unfolding reject_and_close ◌>>◌ enqueue
  reject_and_close-IsAlone c reason s =
      after-IsAlone c s (enqueue c reject reason s) (request_close c reason)
        (queued-IsAlone c (enqueue_frame (type_byte reject) 0 reason (s.output c)) s)
        (request_close-IsAlone c reason)

  if-IsAlone :
      (b : Bool) (c : ℕ) (m n : Action L) (s : Store L)
      → (b ≡ true → IsAlone c s (m s))
      → IsAlone c s (n s)
      → IsAlone c s ((if b then m else n) s)
  if-IsAlone true c m n s h k = h refl
  if-IsAlone false c m n s h k = k

  module _ (w : World L) (c : ℕ) (frame : Frame) (s : Store L) where
    -- What a connection that has not said hello looks like.
    record IsUnknown : Type 0 where
      waits : s.core.state c ≡ awaiting_hello
      silent : s.core.hello_received c ≡ false
      unpaired : s.core.pairing_id c ≡ 0
      unrelayed : s.core.relay_peer c ≡ none

    relay_open-IsAlone : IsUnknown → IsAlone c s (handle_relay_open w c frame s)
    unfolding handle_relay_open
    relay_open-IsAlone u = elim (Bool-cases w.options.allow_relay) [
      | inr a ↦ rw a (reject_and_close-IsAlone c _ s)
      | inl a ↦ rw (handle_relay_open, a, u.unpaired) (reject_and_close-IsAlone c _ s)
    ]

    relay_data-IsAlone : IsUnknown → IsAlone c s (handle_relay_data w c frame s)
    unfolding handle_relay_data
    relay_data-IsAlone u =
        rw (handle_relay_data, u.unrelayed, u.unpaired) (reject_and_close-IsAlone c _ s)

    relay_close-IsAlone : IsUnknown → IsAlone c s (handle_relay_close w c frame s)
    unfolding handle_relay_close
    relay_close-IsAlone u = rw (handle_relay_close, u.unrelayed) (request_close-IsAlone c _ s)

    send_request-IsAlone : IsUnknown → IsAlone c s (handle_send_request w c frame s)
    unfolding handle_send_request
    send_request-IsAlone u = rw u.waits (reject_and_close-IsAlone c _ s)

    group_query-IsAlone : IsUnknown → IsAlone c s (handle_group_query c frame s)
    unfolding handle_group_query
    group_query-IsAlone u = rw u.silent (reject_and_close-IsAlone c _ s)

    group_join-IsAlone : IsUnknown → IsAlone c s (handle_group_join w c frame s)
    unfolding handle_group_join is_idle
    group_join-IsAlone u = rw u.waits (reject_and_close-IsAlone c _ s)

    group_send_request-IsAlone : IsUnknown → IsAlone c s (handle_group_send_request w c frame s)
    unfolding handle_group_send_request
    group_send_request-IsAlone u = rw u.waits (reject_and_close-IsAlone c _ s)

    accept-IsAlone : IsUnknown → IsAlone c s (handle_accept w c frame s)
    unfolding handle_accept
    accept-IsAlone u = rw u.waits (reject_and_close-IsAlone c _ s)

    reject-IsAlone : IsUnknown → IsAlone c s (handle_reject w c frame s)
    unfolding handle_reject
    reject-IsAlone u = rw u.unpaired (done-IsAlone c s)

    frame-IsAlone :
        frame.header.type ≢ type_byte client_hello
        → IsUnknown
        → IsAlone c s (handle_frame w c frame s)
    unfolding handle_frame
    frame-IsAlone n u =
        let is = λ (m : MessageType). frame.header.type == type_byte m in
        let said_bye = text "peer said goodbye" in
        let invalid =
          text "a " ++ (message_type_name frame.header.type ++ text " frame is not valid here") in
        if-IsAlone (is client_hello) c _ _ s (λ e. absurd (n ((==_iff _ _).0 e)))
          (if-IsAlone (is send_request) c _ _ s (λ e. send_request-IsAlone u)
            (if-IsAlone (is group_query) c _ _ s (λ e. group_query-IsAlone u)
              (if-IsAlone (is group_join) c _ _ s (λ e. group_join-IsAlone u)
                (if-IsAlone (is group_send_request) c _ _ s (λ e. group_send_request-IsAlone u)
                  (if-IsAlone (is accept) c _ _ s (λ e. accept-IsAlone u)
                    (if-IsAlone (is reject) c _ _ s (λ e. reject-IsAlone u)
                      (if-IsAlone (is relay_open) c _ _ s (λ e. relay_open-IsAlone u)
                        (if-IsAlone (is relay_data) c _ _ s (λ e. relay_data-IsAlone u)
                          (if-IsAlone (is relay_close) c _ _ s (λ e. relay_close-IsAlone u)
                            (if-IsAlone (is keep_alive) c done _ s (λ e. done-IsAlone c s)
                              (if-IsAlone (is bye) c (request_close c said_bye)
                                (reject_and_close c invalid) s
                                (λ e. request_close-IsAlone c said_bye s)
                                (reject_and_close-IsAlone c invalid s))))))))))))

    -- In every reached state, whatever frame but a ClientHello an open connection sends that has not
    -- said hello: connections' states, names, pairings and groups stay as they are, and so do the
    -- output and the close request of every other connection.
    pub handle_frame-IsAlone :
        Reached s
        → IsOpen c s
        → s.core.hello_received c ≡ false
        → frame.header.type ≢ type_byte client_hello
        → IsAlone c s (handle_frame w c frame s)
    handle_frame-IsAlone r o silent n =
        let h = Reached-IsConsistent s r in
        let waits = (h.silent c silent).1 o.stays in
        frame-IsAlone n (record {
          waits = waits;
          silent = silent;
          unpaired = h.single c (rw waits refl);
          unrelayed = elim (Option-cases (s.core.relay_peer c)) [
            | inl e ↦ e
            | inr (d, e) ↦ absurd (let z = h.apart c d e in cc)
          ];
        })
