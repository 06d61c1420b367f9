-- ===== src/Server/Consistent/Relaying.antt =====
-- server/src/server.cpp, the handlers of groups and of relaying as a whole.
use drop_zone.Base.{
  ℕ, ◌≡◌, refl, sym, subst, ap, ◌∙◌, inl, inr, Bool, true, false, not, ◌&&◌, List, [], none, some,
  Bool-cases, Option-cases, ◌==◌, same_bytes, if◌then◌else◌,
}
use drop_zone.Wire.Header.{relay_open, relay_data, relay_close}
use drop_zone.Wire.Stream.{Frame}
use drop_zone.Protocol.Message.Group.{
  decode_group_query, decode_group_join, decode_group_send_request,
}
use drop_zone.Server.Map.{number_key, find}
use drop_zone.Server.Pairing.{Pairing, find_pairing, request_relay}
use drop_zone.Server.Pairing.Ends.{request_relay-found}
use drop_zone.Server.Group.{is_idle, is_empty}
use drop_zone.Server.Text.{text}
use drop_zone.Server.Store.{Store, World}
use drop_zone.Server.Action.{◌>>◌, modify, enqueue, request_close, wake_for, reject_and_close}
use drop_zone.Server.Action.Quiet.{
  Quiet, then-Quiet, with_result-Quiet, enqueue-Quiet, request_close-Quiet, wake_for-Quiet,
  reject_and_close-Quiet,
}
use drop_zone.Server.Handle.Introduce.{is_sender_idle}
use drop_zone.Server.Handle.Groups.{
  handle_group_query, answer_query, handle_group_join, accept_join, join_as, leave_other,
  handle_group_send_request, answer_roster,
}
use drop_zone.Server.Handle.Relay.{
  attach, peer_of, want_relay, announce_relay, start_between, open_between, handle_relay_open,
  forward, recover, handle_relay_data, close_peer, handle_relay_close,
}
use drop_zone.Server.Consistent.{IsConsistent}
use drop_zone.Server.Consistent.Relay.{want_relay-IsConsistent, attach-IsConsistent}
use drop_zone.Server.Consistent.Handlers.{KeepsAt, Quiet-KeepsAt, change-KeepsAt}

module _ {L : Type 0} (w : World L) (c : ℕ) where
  reject-KeepsAt :
      (reason : List ℕ) (s : Store L) → IsConsistent s.core → KeepsAt s (reject_and_close c reason)
  reject-KeepsAt reason =
      Quiet-KeepsAt (reject_and_close c reason) (reject_and_close-Quiet c reason)

  pub handle_group_query-Quiet : (frame : Frame) → Quiet {L = L} (handle_group_query c frame)
  unfolding handle_group_query answer_query
  handle_group_query-Quiet frame s = elim (Bool-cases (s.core.hello_received c)) [
    | inr i ↦ rw i (reject_and_close-Quiet c _ s)
    | inl i ↦ rw i (
        with_result-Quiet (decode_group_query frame.payload) (answer_query c)
          (λ name t. enqueue-Quiet c _ _ _) s)
  ]

  leave_other-core : (name : List ℕ) (s : Store L) → (leave_other c name s).core ≡ s.core
  unfolding leave_other
  leave_other-core name s =
      elim (Bool-cases
        (not (is_empty (s.joined_group c)) && not (same_bytes (s.joined_group c) name))) [
          | inl t ↦ rw t refl
          | inr t ↦ rw t refl
        ]

  pub handle_group_join-Quiet : (frame : Frame) → Quiet (handle_group_join w c frame)
  unfolding handle_group_join accept_join join_as
  handle_group_join-Quiet frame s = elim (Bool-cases (is_idle (s.core.state c))) [
    | inr i ↦ rw i (reject_and_close-Quiet c _ s)
    | inl i ↦ rw i (
        with_result-Quiet (decode_group_join frame.payload) (accept_join w c)
          (λ join.
            then-Quiet (modify (leave_other c join.name)) (join_as w c join)
              (λ t. leave_other-core join.name t) (λ t. enqueue-Quiet c _ _ _))
          s)
  ]

  pub handle_group_send_request-Quiet :
      (frame : Frame) → Quiet (handle_group_send_request w c frame)
  unfolding handle_group_send_request answer_roster
  handle_group_send_request-Quiet frame s = elim (Bool-cases (is_sender_idle (s.core.state c))) [
    | inr i ↦ rw i (reject_and_close-Quiet c _ s)
    | inl i ↦
        let t = record s {
          limiter = (w.allow_request (s.rate_limit_key c) w.now_ms s.limiter).1;
        } in
        elim (Bool-cases (w.allow_request (s.rate_limit_key c) w.now_ms s.limiter).0) [
          | inr a ↦ rw (i, a) (reject_and_close-Quiet c _ t)
          | inl a ↦
              rw (i, a)
                (with_result-Quiet (decode_group_send_request frame.payload) (answer_roster w c)
                  (λ name u. enqueue-Quiet c _ _ _) t)
        ]
  ]

  pub announce_relay-Quiet : (sender receiver : ℕ) → Quiet (announce_relay w sender receiver)
  unfolding announce_relay
  announce_relay-Quiet sender receiver =
      then-Quiet
        (enqueue sender relay_open []
          >> enqueue receiver relay_open []
          >> wake_for w.shard_count sender)
        (wake_for w.shard_count receiver)
        (then-Quiet (enqueue sender relay_open [] >> enqueue receiver relay_open [])
          (wake_for w.shard_count sender)
          (then-Quiet (enqueue sender relay_open []) (enqueue receiver relay_open [])
            (enqueue-Quiet sender relay_open []) (enqueue-Quiet receiver relay_open []))
          (wake_for-Quiet w.shard_count sender))
        (wake_for-Quiet w.shard_count receiver)

  start_between-KeepsAt :
      (ready : Bool) (id : ℕ) (p : Pairing) (s : Store L)
      → IsConsistent s.core
      → find id s.core.table.pairings ≡ some p
      → KeepsAt s (start_between w ready p.sender p.receiver)
  unfolding start_between
  start_between-KeepsAt false id p s h f = h
  start_between-KeepsAt true id p s h f =
      change-KeepsAt (attach p.sender p.receiver) (announce_relay w p.sender p.receiver)
        (announce_relay-Quiet p.sender p.receiver) s (attach-IsConsistent id p s.core h f)

  open_between-KeepsAt :
      (id : ℕ) (p : Pairing) (s : Store L)
      → IsConsistent s.core
      → find id s.core.table.pairings ≡ some p
      → KeepsAt s (open_between w c id p.sender p.receiver)
  unfolding open_between ◌>>◌ want_relay
  open_between-KeepsAt id p s h f =
      let from_sender = p.sender == c in
      let (q, found, same_sender, same_receiver) =
        request_relay-found id from_sender s.core.table.pairings p f in
      let ready = (request_relay id from_sender s.core.table.pairings).0 in
      let wanted = want_relay-IsConsistent id from_sender s.core h in
      let t = record s { core = want_relay id from_sender s.core } in
      subst {A = ℕ × ℕ} (λ e. KeepsAt t (start_between w ready e.0 e.1))
        (ap (λ x. (x, q.receiver)) (sym same_sender) ∙ ap (λ x. (p.sender, x)) (sym same_receiver))
        (start_between-KeepsAt ready id q t wanted found)

  pub handle_relay_open-KeepsAt :
      (frame : Frame) (s : Store L) → IsConsistent s.core → KeepsAt s (handle_relay_open w c frame)
  unfolding handle_relay_open find_pairing
  handle_relay_open-KeepsAt frame s h =
      let id = s.core.pairing_id c in
      elim (Bool-cases w.options.allow_relay) [
        | inr a ↦ rw a (reject-KeepsAt _ s h)
        | inl a ↦ elim (Bool-cases (id == 0)) [
          | inl z ↦ rw (a, z) (reject-KeepsAt _ s h)
          | inr z ↦ elim (Option-cases (find id s.core.table.pairings)) [
            | inl e ↦ rw (handle_relay_open, a, z, e) (reject-KeepsAt _ s h)
            | inr (p, e) ↦
                let (nonzero, apart, first, second) = h.paired id p e in
                rw (handle_relay_open, a, z, e, first.exists, second.exists)
                  (open_between-KeepsAt id p s h e)
          ]
        ]
      ]

  forward-Quiet : (frame : Frame) (peer : ℕ) → Quiet (forward w c frame peer)
  unfolding forward
  forward-Quiet frame peer =
      then-Quiet (enqueue peer relay_data frame.payload >> _) (wake_for w.shard_count peer)
        (then-Quiet (enqueue peer relay_data frame.payload) _
          (enqueue-Quiet peer relay_data frame.payload) (λ t. refl))
        (wake_for-Quiet w.shard_count peer)

  recover-KeepsAt :
      (frame : Frame) (id : ℕ) (p : Pairing) (s : Store L)
      → IsConsistent s.core
      → find id s.core.table.pairings ≡ some p
      → KeepsAt s (recover w c frame p)
  unfolding recover
  recover-KeepsAt frame id p s h e = elim (Bool-cases p.relay_active) [
    | inr a ↦ rw a (reject-KeepsAt _ s h)
    | inl a ↦
        let (nonzero, apart, first, second) = h.paired id p e in
        let peer = if p.sender == c then p.receiver else p.sender in
        rw (recover, a, first.exists, second.exists)
          (change-KeepsAt (attach p.sender p.receiver) (forward w c frame peer)
            (forward-Quiet frame peer) s (attach-IsConsistent id p s.core h e))
  ]

  recover_from_pairing :
      (frame : Frame) (s : Store L)
      → IsConsistent s.core
      → peer_of w s c ≡ none
      → KeepsAt s (handle_relay_data w c frame)
  unfolding handle_relay_data find_pairing
  recover_from_pairing frame s h e =
      let id = s.core.pairing_id c in
      elim (Bool-cases (id == 0)) [
        | inl z ↦ rw (handle_relay_data, e, z) (reject-KeepsAt _ s h)
        | inr z ↦ elim (Option-cases (find id s.core.table.pairings)) [
          | inl f ↦ rw (handle_relay_data, e, z, f) (reject-KeepsAt _ s h)
          | inr (p, f) ↦ rw (handle_relay_data, e, z, f) (recover-KeepsAt frame id p s h f)
        ]
      ]

  pub handle_relay_data-KeepsAt :
      (frame : Frame) (s : Store L) → IsConsistent s.core → KeepsAt s (handle_relay_data w c frame)
  unfolding handle_relay_data
  handle_relay_data-KeepsAt frame s h = elim (Option-cases (peer_of w s c)) [
    | inl e ↦ recover_from_pairing frame s h e
    | inr (peer, e) ↦
        rw (handle_relay_data, e)
          (Quiet-KeepsAt (forward w c frame peer) (forward-Quiet frame peer) s h)
  ]

  close_peer-Quiet : (peer : ℕ) (frame : Frame) → Quiet (close_peer w peer frame)
  unfolding close_peer
  close_peer-Quiet peer frame =
      then-Quiet
        (enqueue peer relay_close frame.payload
          >> request_close peer (text "the other peer closed the relay"))
        (wake_for w.shard_count peer)
        (then-Quiet (enqueue peer relay_close frame.payload) (request_close peer _)
          (enqueue-Quiet peer relay_close frame.payload) (request_close-Quiet peer _))
        (wake_for-Quiet w.shard_count peer)

  pub handle_relay_close-Quiet : (frame : Frame) → Quiet (handle_relay_close w c frame)
  unfolding handle_relay_close
  handle_relay_close-Quiet frame s =
      let reason = text "relay closed" in
      elim (Option-cases (peer_of w s c)) [
        | inl e ↦ rw (handle_relay_close, e) (request_close-Quiet c reason s)
        | inr (peer, e) ↦
            rw (handle_relay_close, e)
              (then-Quiet (close_peer w peer frame) (request_close c reason)
                (close_peer-Quiet peer frame) (request_close-Quiet c reason) s)
      ]
