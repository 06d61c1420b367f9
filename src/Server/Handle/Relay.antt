-- ===== src/Server/Handle/Relay.antt =====
-- server/src/server.cpp: `handle_relay_open`, `handle_relay_data` and `handle_relay_close`.
use drop_zone.Base.{
  ℕ, ◌+◌, ◌*◌, ◌%◌, ◌^◌, Bool, true, not, [], Option, none, some, length, ltb, ◌==◌, if◌then◌else◌,
}
use drop_zone.Wire.Header.{relay_open, relay_data, relay_close}
use drop_zone.Wire.Stream.{Frame}
use drop_zone.Server.Pairing.{Pairing, find_pairing, request_relay}
use drop_zone.Server.Group.{relaying}
use drop_zone.Server.Connection.{pending_output}
use drop_zone.Server.Text.{text}
use drop_zone.Server.Store.{Core, Store, World, set}
use drop_zone.Server.Action.{
  Action, ◌>>◌, done, modify, on_core, enqueue, request_close, wake_for, reject_and_close, lock_in,
}

abbrev pub relay_pause_threshold : ℕ
relay_pause_threshold = 4 * 1024 * 1024

abbrev pub relay_resume_threshold : ℕ
relay_resume_threshold = 1 * 1024 * 1024

-- Both ends are attached to one another, then both are relaying.
unfoldable pub attach : ℕ → ℕ → Core → Core
attach sender receiver k = record k {
  relay_peer = set receiver (some sender) (set sender (some receiver) k.relay_peer);
  state = set receiver relaying (set sender relaying k.state);
}

-- One side's request is noted in the table.
unfoldable pub want_relay : ℕ → Bool → Core → Core
want_relay id from_sender k = record k {
  table = record k.table { pairings = (request_relay id from_sender k.table.pairings).1 };
}

-- Both ends of a pairing, if both are still there.
abbrev pub with_ends {ℓ} : {A : Type ℓ} → Option ℕ → Option ℕ → A → (ℕ → ℕ → A) → A
with_ends none other missing ends = missing
with_ends (some sender) none missing ends = missing
with_ends (some sender) (some receiver) missing ends = ends sender receiver

module _ {L : Type 0} where
  module _ (w : World L) where
    unfoldable pub announce_relay : ℕ → ℕ → Action L
    announce_relay sender receiver =
        enqueue sender relay_open []
        >> enqueue receiver relay_open []
        >> wake_for w.shard_count sender
        >> wake_for w.shard_count receiver

    unfoldable pub start_between : Bool → ℕ → ℕ → Action L
    start_between ready sender receiver =
        if not ready
        then done
        else on_core (attach sender receiver) >> announce_relay sender receiver

    unfoldable pub open_between : ℕ → ℕ → ℕ → ℕ → Action L
    open_between c id sender receiver s =
        let from_sender = sender == c in
        let ready = (request_relay id from_sender s.core.table.pairings).0 in
        (on_core (want_relay id from_sender) >> start_between ready sender receiver) s

    unfoldable pub handle_relay_open : ℕ → Frame → Action L
    handle_relay_open c frame s =
        let id = s.core.pairing_id c in
        if not w.options.allow_relay
        then reject_and_close c (text "this server does not relay; a direct path is required") s
        else if id == 0
        then reject_and_close c (text "no pairing to relay") s
        else elim (find_pairing id s.core.table.pairings) [
          | none ↦ reject_and_close c (text "that pairing has expired") s
          | some p ↦
              with_ends (lock_in s p.sender) (lock_in s p.receiver)
                (reject_and_close c (text "the other peer disconnected")) (open_between c id) s
        ]

    -- `relay_peer()`.
    abbrev pub peer_of : Store L → ℕ → Option ℕ
    peer_of s c = elim (s.core.relay_peer c) [ none ↦ none | some peer ↦ lock_in s peer ]

    unfoldable pub forward : ℕ → Frame → ℕ → Action L
    forward c frame peer =
        enqueue peer relay_data frame.payload
        >> modify (λ t. record t {
          total_relayed_bytes = (t.total_relayed_bytes + length frame.payload) % 2 ^ 64;
          read_paused =
              if ltb relay_pause_threshold (pending_output (t.output peer))
              then set c true t.read_paused
              else t.read_paused;
        })
        >> wake_for w.shard_count peer

    unfoldable pub recover : ℕ → Frame → Pairing → Action L
    recover c frame p s =
        let refuse = reject_and_close c (text "this connection is not relaying") in
        if not p.relay_active
        then refuse s
        else with_ends (lock_in s p.sender) (lock_in s p.receiver) refuse
            (λ sender receiver.
              on_core (attach sender receiver)
              >> forward c frame (if sender == c then receiver else sender))
            s

    unfoldable pub handle_relay_data : ℕ → Frame → Action L
    handle_relay_data c frame s = elim (peer_of s c) [
      | some peer ↦ forward c frame peer s
      | none ↦
          let id = s.core.pairing_id c in
          let refuse = reject_and_close c (text "this connection is not relaying") in
          if id == 0 then refuse s else elim (find_pairing id s.core.table.pairings) [
            | none ↦ refuse s
            | some p ↦ recover c frame p s
          ]
    ]

    unfoldable pub close_peer : ℕ → Frame → Action L
    close_peer peer frame =
        enqueue peer relay_close frame.payload
        >> request_close peer (text "the other peer closed the relay")
        >> wake_for w.shard_count peer

    unfoldable pub handle_relay_close : ℕ → Frame → Action L
    handle_relay_close c frame s = elim (peer_of s c) [
      | some peer ↦ (close_peer peer frame >> request_close c (text "relay closed")) s
      | none ↦ request_close c (text "relay closed") s
    ]
