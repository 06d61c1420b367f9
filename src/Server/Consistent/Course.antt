-- ===== src/Server/Consistent/Course.antt =====
-- server/src/server.cpp: the course of an introduction, from the hellos to the relay: what each accepted
-- frame makes of the connections, the names and the pairings.
use drop_zone.Base.{
  ℕ, ◌≡◌, ◌≢◌, refl, subst, ◌∙◌, Bool, true, false, List, [], some, if◌then◌else◌, ◌==◌, ==-ne,
}
use drop_zone.Wire.Header.{MessageType, type_byte, client_hello, send_request, relay_open}
use drop_zone.Wire.Stream.{Frame, new_header}
use drop_zone.Protocol.Message.Hello.{
  ClientHello, IsClientHello, encode_client_hello, client_hello_round_trip,
}
use drop_zone.Protocol.Message.Introduction.{
  SendRequest, IsSendRequest, encode_send_request, send_request_round_trip,
}
use drop_zone.Server.Map.{number_key}
use drop_zone.Server.Claims.{claim, lookup}
use drop_zone.Server.Pairing.{Pairing, PairingTable, create_pairing, find_pairing, request_relay}
use drop_zone.Server.Group.{receiver_idle, sender_idle, is_idle}
use drop_zone.Server.Store.{Core, Store, World, set}
use drop_zone.Server.Action.{◌>>◌, done, request_close}
use drop_zone.Server.Action.Quiet.{after-core, if-Quiet, request_close-Quiet}
use drop_zone.Server.Handle.{handle_frame}
use drop_zone.Server.Handle.Hello.{
  handle_client_hello, accept_hello, first_hello, answer_hello, note_hello, greet, is_receiver,
  take_name, become_sender, is_granted, claim_message,
}
use drop_zone.Server.Handle.Introduce.{handle_send_request, introduce, match_with, pair_up}
use drop_zone.Server.Handle.Relay.{
  handle_relay_open, open_between, start_between, attach, want_relay,
}
use drop_zone.Server.Consistent.Handlers.{answer_hello-Quiet}
use drop_zone.Server.Consistent.Introducing.{announce-Quiet}
use drop_zone.Server.Consistent.Relaying.{announce_relay-Quiet}

abbrev pub frame_of : MessageType → List ℕ → Frame
frame_of type payload = record { header = new_header (type_byte type) 0 payload; payload = payload }

-- The core after one side has asked for the relay of a pairing.
abbrev pub asked_relay : ℕ → Bool → Pairing → Core → Core
asked_relay id from_sender p k =
    let ready = (request_relay id from_sender k.table.pairings).0 in
    let wanted = want_relay id from_sender k in
    if ready then attach p.sender p.receiver wanted else wanted

module _ {L : Type 0} (w : World L) (c : ℕ) where
  -- The first hello of a receiver is a claim of its name.
  pub first_hello-receiver :
      (hello : ClientHello) (s : Store L)
      → IsClientHello hello
      → is_receiver hello.role ≡ true
      → s.core.hello_received c ≡ false
      → (handle_frame w c (frame_of client_hello (encode_client_hello hello)) s).1.core
        ≡ take_name c hello.username (greet c s.core)
  unfolding handle_frame type_byte handle_client_hello accept_hello note_hello first_hello ◌>>◌
  first_hello-receiver hello s valid role first =
      let noted = record s { core = greet c s.core; hello = set c hello s.hello } in
      let result = (claim noted.core.live hello.username c noted.core.claims).0 in
      let message = claim_message hello.username result in
      let named = record noted { core = take_name c hello.username noted.core } in
      let last = if is_granted result then done else request_close c message in
      rw (client_hello_round_trip hello valid, first, role)
        (after-core (answer_hello w c hello (is_granted result) message named) last (
            if-Quiet (is_granted result) done (request_close c message) (λ t. refl)
              (request_close-Quiet c message))
          ∙ answer_hello-Quiet w c hello (is_granted result) message named)

  -- The first hello of a sender claims nothing.
  pub first_hello-sender :
      (hello : ClientHello) (s : Store L)
      → IsClientHello hello
      → is_receiver hello.role ≡ false
      → s.core.hello_received c ≡ false
      → (handle_frame w c (frame_of client_hello (encode_client_hello hello)) s).1.core
        ≡ become_sender c (greet c s.core)
  unfolding handle_frame type_byte handle_client_hello accept_hello note_hello first_hello ◌>>◌
  first_hello-sender hello s valid role first =
      let noted = record s { core = greet c s.core; hello = set c hello s.hello } in
      let named = record noted { core = become_sender c noted.core } in
      rw (client_hello_round_trip hello valid, first, role)
        (answer_hello-Quiet w c hello true [] named)

  -- A request that the limiter lets pass, for a name that leads to an idle receiver, pairs the two.
  pub request-pairs :
      (request : SendRequest) (r id : ℕ) (table : PairingTable) (s : Store L)
      → IsSendRequest request
      → s.core.state c ≡ sender_idle
      → (w.allow_request (s.rate_limit_key c) w.now_ms s.limiter).0 ≡ true
      → lookup s.core.live request.target_username s.core.claims ≡ some r
      → s.core.state r ≡ receiver_idle
      → create_pairing w.random w.now_ms c r s.core.table ≡ some (id, table)
      → (handle_frame w c (frame_of send_request (encode_send_request request)) s).1.core
        ≡ pair_up c r id table s.core
  unfolding handle_frame type_byte handle_send_request is_idle ◌>>◌ introduce pair_up match_with set
  request-pairs request r id table s valid sc allowed found sr made =
      let t = record s { limiter = (w.allow_request (s.rate_limit_key c) w.now_ms s.limiter).1 } in
      rw
        (sc, allowed, send_request_round_trip request valid, introduce, found, sr, match_with, made)
        (announce-Quiet w c r id request (record t { core = pair_up c r id table s.core }))

  start_between-core :
      (ready : Bool) (sender receiver : ℕ) (s : Store L)
      → (start_between w ready sender receiver s).1.core
        ≡ (if ready then attach sender receiver s.core else s.core)
  unfolding start_between ◌>>◌
  start_between-core false sender receiver s = refl
  start_between-core true sender receiver s =
      announce_relay-Quiet w c sender receiver (record s { core = attach sender receiver s.core })

  open_own-relays :
      (p : Pairing) (s : Store L)
      → w.options.allow_relay ≡ true
      → s.core.live p.sender ≡ true
      → s.core.live p.receiver ≡ true
      → s.core.pairing_id c ≢ 0
      → find_pairing (s.core.pairing_id c) s.core.table.pairings ≡ some p
      → (handle_frame w c (frame_of relay_open []) s).1.core
        ≡ asked_relay (s.core.pairing_id c) (p.sender == c) p s.core
  unfolding handle_frame type_byte handle_relay_open find_pairing open_between ◌>>◌
  open_own-relays p s allow a b n f =
      let id = s.core.pairing_id c in
      let nonzero : id == 0 ≡ false = ==-ne id 0 n in
      rw (allow, handle_relay_open, nonzero, f, a, b)
        (start_between-core (request_relay id (p.sender == c) s.core.table.pairings).0 p.sender
          p.receiver (record s { core = want_relay id (p.sender == c) s.core }))

  -- A side of a pairing asks for the relay: it begins when the other side has asked as well.
  pub open-relays :
      (id : ℕ) (p : Pairing) (s : Store L)
      → w.options.allow_relay ≡ true
      → s.core.pairing_id c ≡ id
      → id ≢ 0
      → find_pairing id s.core.table.pairings ≡ some p
      → s.core.live p.sender ≡ true
      → s.core.live p.receiver ≡ true
      → (handle_frame w c (frame_of relay_open []) s).1.core
        ≡ asked_relay id (p.sender == c) p s.core
  open-relays id p s allow same n f a b =
      subst
        (λ i.
          i ≢ 0
          → find_pairing i s.core.table.pairings ≡ some p
          → (handle_frame w c (frame_of relay_open []) s).1.core
            ≡ asked_relay i (p.sender == c) p s.core)
        same (open_own-relays p s allow a b) n f
