-- ===== src/Server/Handle/Introduce.antt =====
-- server/src/server.cpp: `handle_send_request`, `handle_accept` and `handle_reject`.
use drop_zone.Base.{
  ℕ, ◌+◌, ◌%◌, ◌^◌, Bool, true, false, not, List, [], ◌∷◌, ◌++◌, none, some, ◌==◌, if◌then◌else◌,
}
use drop_zone.Wire.Header.{incoming, matched, reject}
use drop_zone.Wire.Stream.{Frame}
use drop_zone.Wire.Endpoint.{Endpoint}
use drop_zone.Protocol.Message.Introduction.{SendRequest, decode_send_request}
use drop_zone.Protocol.Message.Peer.{
  PeerIntroduction, encode_peer_introduction, decode_peer_introduction,
}
use drop_zone.Server.Claims.{lookup}
use drop_zone.Server.Pairing.{Pairing, PairingTable, create_pairing, find_pairing, destroy_pairing}
use drop_zone.Server.Group.{
  ConnectionState, receiver_idle, receiver_matched, sender_idle, sender_waiting, is_idle,
}
use drop_zone.Server.Text.{text, quoted}
use drop_zone.Server.Store.{Core, Store, World, set, set_port}
use drop_zone.Server.Action.{
  Action, looping, with_result, ◌>>◌, done, modify, on_core, enqueue, request_close, wake_for,
  reject_and_close, lock_in,
}

abbrev pub is_sender_idle : ConnectionState → Bool
is_sender_idle sender_idle = true
is_sender_idle _ = false

abbrev pub is_matched : ConnectionState → Bool
is_matched receiver_matched = true
is_matched _ = false

-- The new pairing is stamped on both connections.
unfoldable pub pair_up : ℕ → ℕ → ℕ → PairingTable → Core → Core
pair_up c r id table k = record k {
  table = table;
  pairing_id = set r id (set c id k.pairing_id);
  state = set r receiver_matched (set c sender_waiting k.state);
}

unfoldable pub drop_pairing : ℕ → Core → Core
drop_pairing id k = record k {
  table = record k.table { pairings = destroy_pairing id k.table.pairings };
}

-- A matched receiver is available again.
unfoldable pub to_idle : ℕ → Core → Core
to_idle c k = record k { state = set c receiver_idle k.state; pairing_id = set c 0 k.pairing_id }

unfoldable pub stand_down : ℕ → Core → Core
stand_down c k = record k {
  pairing_id = set c 0 k.pairing_id;
  state = if is_matched (k.state c) then set c receiver_idle k.state else k.state;
}

module _ {L : Type 0} where
  -- The addresses a peer gave, and the one the server saw.
  pub candidates_of : ℕ → Store L → List Endpoint
  candidates_of c s =
      let hello = s.hello c in
      hello.local_candidates ++ set_port hello.tcp_port (s.observed_endpoint c) ∷ []

  pub introduction : ℕ → ℕ → SendRequest → Store L → PeerIntroduction
  unfolding candidates_of
  introduction c id request s =
      let hello = s.hello c in
      record {
        username = hello.username;
        identity_key = hello.identity_key;
        session_key = hello.session_key;
        candidates = candidates_of c s;
        proof = request.proof;
        signature = request.signature;
        pairing_id = id;
        transport_hint = request.transport_hint;
        group_name = request.group_name;
      }

  module _ (w : World L) where
    -- The sender's half is sent to the receiver.
    unfoldable pub announce : ℕ → ℕ → ℕ → SendRequest → Action L
    unfolding introduction
    announce c r id request =
        (λ t. enqueue r incoming (encode_peer_introduction (introduction c id request t)) t)
        >> wake_for w.shard_count r
        >> modify (λ t. record t { total_introductions = (t.total_introductions + 1) % 2 ^ 64 })

    unfoldable pub match_with : ℕ → ℕ → SendRequest → Action L
    match_with c r request s = elim (create_pairing w.random w.now_ms c r s.core.table) [
      | none ↦ (looping, s)
      | some (id, table) ↦ (on_core (pair_up c r id table) >> announce c r id request) s
    ]

    unfoldable pub introduce : ℕ → SendRequest → Action L
    introduce c request s =
        let target = request.target_username in
        elim (lookup s.core.live target s.core.claims) [
          | none ↦ reject_and_close c (quoted target "' is not accepting files right now") s
          | some r ↦
              if not (is_idle (s.core.state r))
              then reject_and_close c (quoted target "' is busy with another transfer") s
              else match_with c r request s
        ]

    unfoldable pub handle_send_request : ℕ → Frame → Action L
    handle_send_request c frame s =
        if not (is_sender_idle (s.core.state c))
        then reject_and_close c
            (text "only a sender that has said hello may request an introduction") s
        else (let (allowed, limiter) = w.allow_request (s.rate_limit_key c) w.now_ms s.limiter in
            let t = record s { limiter = limiter } in
            if not allowed
            then reject_and_close c (text "too many requests, try again in a minute") t
            else with_result (decode_send_request frame.payload) (introduce c) t)

    unfoldable pub pass_on : ℕ → ℕ → PeerIntroduction → Action L
    unfolding candidates_of
    pass_on c sender decoded s =
        let reply = record decoded {
          pairing_id = s.core.pairing_id c;
          candidates = candidates_of c s;
        } in
        (enqueue sender matched (encode_peer_introduction reply) >> wake_for w.shard_count sender) s

    unfoldable pub handle_accept : ℕ → Frame → Action L
    handle_accept c frame s =
        if not (is_matched (s.core.state c))
        then reject_and_close c (text "no introduction is waiting for a decision") s
        else elim (find_pairing (s.core.pairing_id c) s.core.table.pairings) [
          | none ↦ reject_and_close c (text "that introduction has expired") s
          | some p ↦ elim (lock_in s p.sender) [
            | none ↦ on_core (to_idle c) s
            | some sender ↦
                with_result (decode_peer_introduction frame.payload) (pass_on c sender) s
          ]
        ]

    unfoldable pub tell_declined : ℕ → Frame → Pairing → Action L
    tell_declined c frame p s = elim (lock_in s p.sender) [
      | none ↦ done s
      | some sender ↦
          if sender == c
          then done s
          else (enqueue sender reject frame.payload
                >> request_close sender (text "the receiver declined")
                >> wake_for w.shard_count sender)
              s
    ]

    unfoldable pub end_pairing : ℕ → ℕ → Action L
    end_pairing id c = on_core (drop_pairing id) >> on_core (stand_down c)

    unfoldable pub handle_reject : ℕ → Frame → Action L
    handle_reject c frame s =
        let id = s.core.pairing_id c in
        if id == 0 then done s else elim (find_pairing id s.core.table.pairings) [
          | none ↦ on_core (stand_down c) s
          | some p ↦ (tell_declined c frame p >> end_pairing id c) s
        ]
