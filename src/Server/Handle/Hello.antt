-- ===== src/Server/Handle/Hello.antt =====
-- server/src/server.cpp: `handle_client_hello`.
use drop_zone.Base.{ℕ, Bool, true, false, not, ◌&&◌, List, [], ◌++◌, same_bytes, if◌then◌else◌}
use drop_zone.Wire.Header.{server_hello}
use drop_zone.Wire.Stream.{Frame}
use drop_zone.Protocol.Message.Hello.{
  ClientRole, ClientHello, ServerHello, receiver, sender, decode_client_hello, encode_server_hello,
}
use drop_zone.Server.Claims.{ClaimResult, granted, already_claimed, invalid_username, claim}
use drop_zone.Server.Group.{receiver_idle, sender_idle, is_idle}
use drop_zone.Server.Text.{text, quoted}
use drop_zone.Server.Store.{Core, Store, World, set, set_port}
use drop_zone.Server.Action.{
  Action, with_result, ◌>>◌, done, on_core, enqueue, request_close, reject_and_close,
}

abbrev pub is_receiver : ClientRole → Bool
is_receiver receiver = true
is_receiver sender = false

-- The connection says hello.
unfoldable pub greet : ℕ → Core → Core
greet c k = record k { hello_received = set c true k.hello_received }

-- The claim, and what a claim that is granted does to its connection.
unfoldable pub settle : ℕ → List ℕ → ClaimResult → Core → Core
settle c name granted k = record k {
  claimed_username = set c name k.claimed_username;
  state = set c receiver_idle k.state;
}
settle c name already_claimed k = k
settle c name invalid_username k = k

unfoldable pub take_name : ℕ → List ℕ → Core → Core
take_name c name k =
    let (result, claims) = claim k.live name c k.claims in
    settle c name result (record k { claims = claims })

unfoldable pub become_sender : ℕ → Core → Core
become_sender c k = record k { state = set c sender_idle k.state }

pub claim_message : List ℕ → ClaimResult → List ℕ
claim_message name granted = text "accepting as " ++ name
claim_message name already_claimed = text "someone is already accepting as '" ++ (name ++ text "'")
claim_message name invalid_username = quoted name "' is not a usable username"

abbrev pub is_granted : ClaimResult → Bool
is_granted granted = true
is_granted already_claimed = false
is_granted invalid_username = false

module _ {L : Type 0} (w : World L) where
  pub server_reply : ℕ → ClientHello → Bool → List ℕ → Store L → ServerHello
  server_reply c hello accepted message s = record {
    claim_accepted = accepted;
    message = message;
    reflexive_tcp = s.observed_endpoint c;
    reflexive_udp = set_port hello.udp_port (s.observed_endpoint c);
    idle_timeout_seconds = w.options.idle_timeout_seconds;
  }

  unfoldable pub answer_hello : ℕ → ClientHello → Bool → List ℕ → Action L
  unfolding server_reply
  answer_hello c hello accepted message s =
      enqueue c server_hello (encode_server_hello (server_reply c hello accepted message s)) s

  unfoldable pub first_hello : ℕ → ClientHello → Action L
  unfolding claim_message answer_hello
  first_hello c hello s =
      if is_receiver hello.role
      then (let result = (claim s.core.live hello.username c s.core.claims).0 in
          let message = claim_message hello.username result in
          (on_core (take_name c hello.username)
              >> answer_hello c hello (is_granted result) message
              >> (if is_granted result then done else request_close c message))
            s)
      else (on_core (become_sender c) >> answer_hello c hello true []) s

  unfoldable pub note_hello : ℕ → ClientHello → Action L
  note_hello c hello s =
      (on_core (greet c) >> (λ t. done (record t { hello = set c hello t.hello }))) s

  unfoldable pub accept_hello : ℕ → ClientHello → Action L
  unfolding first_hello note_hello answer_hello
  accept_hello c hello s =
      let name = s.core.claimed_username c in
      let said = s.core.hello_received c in
      let refreshing =
        said
        && is_idle (s.core.state c)
        && is_receiver hello.role
        && same_bytes hello.username name in
      if said && not refreshing
      then reject_and_close c (text "hello sent twice") s
      else if refreshing
      then (note_hello c hello >> answer_hello c hello true (text "still accepting as " ++ name)) s
      else (note_hello c hello >> first_hello c hello) s

  unfoldable pub handle_client_hello : ℕ → Frame → Action L
  unfolding accept_hello
  handle_client_hello c frame s = with_result (decode_client_hello frame.payload) (accept_hello c) s
