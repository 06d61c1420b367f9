-- ===== src/Tests/Handlers.antt =====
-- The properties of the server's handlers: a receiver "ann" and a sender are accepted, say hello, are
-- introduced and relayed.
use drop_zone.Base.{
  ℕ, ◌≡◌, ◌≢◌, refl, sym, ap, ◌∙◌, ◌⊎◌, inl, true, false, List, [], ◌∷◌, ◌++◌, some, same_bytes,
  arith,
}
use drop_zone.Wire.Header.{
  type_byte, client_hello, send_request, relay_open, relay_data, group_query,
}
use drop_zone.Wire.Endpoint.{unspecified}
use drop_zone.Wire.Stream.{Frame}
use drop_zone.Protocol.Name.{is_valid_username, name_char}
use drop_zone.Protocol.Message.Common.{direct_tcp}
use drop_zone.Protocol.Message.Hello.{ClientRole, ClientHello, IsClientHello, encode_client_hello}
use drop_zone.Protocol.Message.Introduction.{SendRequest, IsSendRequest, encode_send_request}
use drop_zone.Server.Map.{name_key, number_key, find, update}
use drop_zone.Server.Claims.{claim, lookup}
use drop_zone.Server.Pairing.{
  Pairing, PairingTable, new_pairing, create_pairing, choose_id, find_pairing, request_relay,
}
use drop_zone.Server.Group.{receiver_idle, receiver_matched, sender_idle, closing}
use drop_zone.Server.Store.{Core, Store, World, set}
use drop_zone.Server.Action.{◌>>◌}
use drop_zone.Server.Handle.{handle_frame}
use drop_zone.Server.Handle.Hello.{greet, take_name, settle, become_sender}
use drop_zone.Server.Handle.Introduce.{pair_up}
use drop_zone.Server.Handle.Relay.{attach, want_relay, handle_relay_data, peer_of}
use drop_zone.Server.Closing.{arrive, accept_connection, close_connection}
use drop_zone.Server.Consistent.{IsConsistent, IsPaired}
use drop_zone.Server.Consistent.Handlers.{IsOpen}
use drop_zone.Server.Consistent.Steps.{
  new_core, Reached, starts, steps, accepts, handles, Reached-IsConsistent, Reached-lookup,
  Reached-find_pairing,
}
use drop_zone.Server.Consistent.Stranger.{IsAlone, handle_frame-IsAlone}
use drop_zone.Server.Consistent.Forward.{IsForwarded, handle_relay_data-IsForwarded}
use drop_zone.Server.Consistent.Freed.{IsFreed, close_connection-frees}
use drop_zone.Server.Consistent.Course.{
  frame_of, first_hello-receiver, first_hello-sender, request-pairs, open-relays, asked_relay,
}

abbrev ann : List ℕ
ann = b'a' ∷ b'n' ∷ b'n' ∷ []

ann_valid : is_valid_username ann ≡ true
unfolding is_valid_username name_char
ann_valid = refl

abbrev eight : List ℕ
eight = 1 ∷ 2 ∷ 3 ∷ 4 ∷ 5 ∷ 6 ∷ 7 ∷ 8 ∷ []

abbrev key : List ℕ
key = eight ++ (eight ++ (eight ++ eight))

abbrev hello : ClientRole → ClientHello
hello role = record {
  role = role;
  username = ann;
  identity_key = key;
  session_key = key;
  tcp_port = 9000;
  udp_port = 9001;
  local_candidates = [];
}

hello_valid : (role : ClientRole) → IsClientHello (hello role)
hello_valid role = record {
  valid_name = ann_valid;
  identity_size = refl;
  session_size = refl;
  tcp_fits = omega arith;
  udp_fits = omega arith;
  candidates_fit = omega arith;
  candidates = tt;
}

abbrev request : SendRequest
request = record {
  target_username = ann;
  proof = key;
  signature = key ++ key;
  transport_hint = direct_tcp;
  group_name = [];
}

request_valid : IsSendRequest request
request_valid = record {
  target_valid = ann_valid;
  proof_size = refl;
  signature_size = refl;
  group_valid = inl refl;
}

-- A limiter that lets everything pass, and counts.
abbrev world : World ℕ
world = record {
  allow_connection = λ key now n. (true, n);
  allow_request = λ key now n. (true, n);
  evict_idle = λ now limit n. n;
  key_for = λ observed. 0;
  equal = same_bytes;
  random = 5;
  options = record {
    idle_timeout_seconds = 300;
    pairing_timeout_seconds = 120;
    allow_relay = true;
  };
  shard_count = 1;
  now_ms = 1000;
}

abbrev empty : Store ℕ
empty = record {
  core = new_core;
  hello = λ c. hello ClientRole.receiver;
  joined_group = λ c. [];
  observed_endpoint = λ c. unspecified;
  rate_limit_key = λ c. 0;
  last_activity_ms = λ c. 0;
  fd = λ c. 0;
  shard_index = λ c. 0;
  input = λ c. record { input = []; input_consumed = 0; peer_closed = false };
  output = λ c. record { output = []; output_sent = 0 };
  read_paused = λ c. false;
  close_requested = λ c. false;
  close_reason = λ c. [];
  connections = [];
  wake_queue = λ i. [];
  groups = [];
  limiter = 0;
  total_connections = 0;
  total_introductions = 0;
  total_relayed_bytes = 0;
}

one : Store ℕ
one = (accept_connection world 0 10 unspecified empty).1

two : Store ℕ
unfolding one
two = (accept_connection world 0 11 unspecified one).1

abbrev core_two : Core
core_two = arrive (arrive new_core)

two_core : two.core ≡ core_two
unfolding two accept_connection ◌>>◌
two_core = refl

two-Reached : Reached two
unfolding two
two-Reached =
    steps one two (steps empty one (starts empty refl) (accepts world 0 10 unspecified empty))
      (accepts world 0 11 unspecified one)

IsOpen-in :
    (s : Store ℕ) (k : Core) (c : ℕ)
    → s.core ≡ k
    → k.live c ≡ true
    → k.state c ≢ closing
    → IsOpen c s
IsOpen-in s k c e l n = record {
  exists = ap (λ x. Core.live x c) e ∙ l;
  stays = λ z. n (ap (λ x. Core.state x c) (sym e) ∙ z);
}

two-IsOpen : IsOpen 0 two
unfolding arrive set
two-IsOpen = IsOpen-in two core_two 0 two_core refl (λ e. cc)

query_no_hello : type_byte group_query ≢ type_byte client_hello
unfolding type_byte
query_no_hello e = absurd (omega (arith, e))

silent_zero : core_two.hello_received 0 ≡ false
unfolding arrive set
silent_zero = refl

handle_frame-IsAlone_example : IsAlone 0 two (handle_frame world 0 (frame_of group_query ann) two)
handle_frame-IsAlone_example =
    handle_frame-IsAlone world 0 (frame_of group_query ann) two two-Reached two-IsOpen
      (ap (λ x. Core.hello_received x 0) two_core ∙ silent_zero) query_no_hello

abbrev first_frame : Frame
first_frame = frame_of client_hello (encode_client_hello (hello ClientRole.receiver))

three : Store ℕ
three = (handle_frame world 0 first_frame two).1

abbrev core_three : Core
core_three = take_name 0 ann (greet 0 core_two)

three_core : three.core ≡ core_three
unfolding three
three_core =
    first_hello-receiver world 0 (hello ClientRole.receiver) two (hello_valid ClientRole.receiver)
      refl (ap (λ x. Core.hello_received x 0) two_core ∙ silent_zero)
    ∙ ap (λ x. take_name 0 ann (greet 0 x)) two_core

three-Reached : Reached three
unfolding three
three-Reached = steps two three two-Reached (handles world 0 first_frame two two-IsOpen)

three_facts :
    (core_three.live 1 ≡ true)
    × (core_three.state 1 ≢ closing)
    × (core_three.hello_received 1 ≡ false)
    × (core_three.state 0 ≡ receiver_idle)
    × (core_three.claimed_username 0 ≡ ann)
unfolding arrive set greet take_name settle claim is_valid_username name_char find
three_facts = (refl, (λ e. cc), refl, refl, refl)

abbrev second_frame : Frame
second_frame = frame_of client_hello (encode_client_hello (hello ClientRole.sender))

four : Store ℕ
four = (handle_frame world 1 second_frame three).1

abbrev core_four : Core
core_four = become_sender 1 (greet 1 core_three)

four_core : four.core ≡ core_four
unfolding four
four_core =
    first_hello-sender world 1 (hello ClientRole.sender) three (hello_valid ClientRole.sender) refl
      (ap (λ x. Core.hello_received x 1) three_core ∙ three_facts.2)
    ∙ ap (λ x. become_sender 1 (greet 1 x)) three_core

four-Reached : Reached four
unfolding four
four-Reached = steps three four three-Reached (
    handles world 1 second_frame three
      (IsOpen-in three core_three 1 three_core three_facts.0 three_facts.1))

abbrev paired_table : PairingTable
paired_table = record {
  pairings = (4, new_pairing 4 1 0 1000) ∷ [];
  next_pairing_counter = 2;
  pairing_id_salt = 5;
  salt_ready = true;
}

four_facts :
    (core_four.live 1 ≡ true)
    × (core_four.state 1 ≡ sender_idle)
    × (lookup core_four.live ann core_four.claims ≡ some 0)
    × (core_four.state 0 ≡ receiver_idle)
    × (create_pairing 5 1000 1 0 core_four.table ≡ some (4, paired_table))
unfolding arrive set greet take_name settle claim is_valid_username name_char find become_sender
    lookup create_pairing choose_id
four_facts = (refl, refl, refl, refl, refl)

abbrev request_frame : Frame
request_frame = frame_of send_request (encode_send_request request)

five : Store ℕ
five = (handle_frame world 1 request_frame four).1

abbrev core_five : Core
core_five = pair_up 1 0 4 paired_table core_four

five_core : five.core ≡ core_five
unfolding five
five_core =
    request-pairs world 1 request 0 4 paired_table four request_valid
      (ap (λ x. Core.state x 1) four_core ∙ four_facts.1) refl
      (ap (λ x. lookup (Core.live x) ann (Core.claims x)) four_core ∙ four_facts.2)
      (ap (λ x. Core.state x 0) four_core ∙ four_facts.3)
      (ap (λ x. create_pairing 5 1000 1 0 (Core.table x)) four_core ∙ four_facts.4)
    ∙ ap (pair_up 1 0 4 paired_table) four_core

five-Reached : Reached five
unfolding five
five-Reached = steps four five four-Reached (
    handles world 1 request_frame four
      (IsOpen-in four core_four 1 four_core four_facts.0 (λ z. let idle = four_facts.1 in cc)))

abbrev the_pairing : Pairing
the_pairing = new_pairing 4 1 0 1000

five_facts :
    (core_five.live 0 ≡ true)
    × (core_five.live 1 ≡ true)
    × (core_five.state 0 ≡ receiver_matched)
    × (core_five.state 1 ≢ closing)
    × (core_five.pairing_id 1 ≡ 4)
    × (core_five.pairing_id 0 ≡ 4)
    × (find_pairing 4 core_five.table.pairings ≡ some the_pairing)
    × (core_five.claimed_username 0 ≡ ann)
    × (core_five.state 0 ≢ closing)
unfolding arrive set greet take_name settle claim is_valid_username name_char find become_sender
    pair_up find_pairing
five_facts = (refl, refl, refl, (λ e. cc), refl, refl, refl, refl, (λ e. cc))

five_zero-IsOpen : IsOpen 0 five
five_zero-IsOpen = IsOpen-in five core_five 0 five_core five_facts.0 five_facts.8

five_one-IsOpen : IsOpen 1 five
five_one-IsOpen = IsOpen-in five core_five 1 five_core five_facts.1 five_facts.3

Reached-IsConsistent_example : IsConsistent five.core
Reached-IsConsistent_example = Reached-IsConsistent five five-Reached

five_named : five.core.claimed_username 0 ≡ ann
five_named = ap (λ x. Core.claimed_username x 0) five_core ∙ five_facts.7

Reached-lookup_example :
    (lookup five.core.live (five.core.claimed_username 0) five.core.claims ≡ some 0)
    × ((d : ℕ)
        → IsOpen d five
        → five.core.claimed_username d ≡ five.core.claimed_username 0
        → d ≡ 0)
Reached-lookup_example =
    Reached-lookup five 0 five-Reached five_zero-IsOpen (λ e. let n = five_named in cc)

five_found : find_pairing 4 five.core.table.pairings ≡ some the_pairing
five_found = ap (λ x. find_pairing 4 x.table.pairings) five_core ∙ five_facts.6

Reached-find_pairing_example :
    IsPaired five.core 4 the_pairing
    × ((c : ℕ)
        → (1 ≡ c) ⊎ (0 ≡ c)
        → (1 ≡ c) ⊎ (0 ≡ c)
        → (the_pairing.id ≡ the_pairing.id) × (the_pairing ≡ the_pairing))
Reached-find_pairing_example =
    Reached-find_pairing five 4 4 the_pairing the_pairing five-Reached five_found five_found

five_id : (c : ℕ) → core_five.pairing_id c ≡ 4 → five.core.pairing_id c ≡ 4
five_id c e = ap (λ x. Core.pairing_id x c) five_core ∙ e

five_found_by :
    (c : ℕ)
    → five.core.pairing_id c ≡ 4
    → find_pairing (five.core.pairing_id c) five.core.table.pairings ≡ some the_pairing
five_found_by c e = ap (λ i. find_pairing i five.core.table.pairings) e ∙ five_found

close_connection-frees_example : IsFreed 0 (five.core.pairing_id 1) (close_connection world 1 five)
close_connection-frees_example =
    close_connection-frees world 1 the_pairing five five-Reached five_one-IsOpen
      (five_found_by 1 (five_id 1 five_facts.4)) refl
      (ap (λ x. Core.state x 0) five_core ∙ five_facts.2) refl

abbrev open_frame : Frame
open_frame = frame_of relay_open []

six : Store ℕ
six = (handle_frame world 1 open_frame five).1

abbrev core_six : Core
core_six = asked_relay 4 true the_pairing core_five

six_core : six.core ≡ core_six
unfolding six
six_core =
    open-relays world 1 4 the_pairing five refl (five_id 1 five_facts.4)
      (λ e. absurd (omega (arith, e))) five_found (ap (λ x. Core.live x 1) five_core ∙ five_facts.1)
      (ap (λ x. Core.live x 0) five_core ∙ five_facts.0)
    ∙ ap (asked_relay 4 true the_pairing) five_core

six-Reached : Reached six
unfolding six
six-Reached = steps five six five-Reached (handles world 1 open_frame five five_one-IsOpen)

abbrev asked_pairing : Pairing
asked_pairing = record the_pairing { sender_wants_relay = true }

six_facts :
    (core_six.live 0 ≡ true)
    × (core_six.live 1 ≡ true)
    × (core_six.state 0 ≢ closing)
    × (core_six.pairing_id 0 ≡ 4)
    × (find_pairing 4 core_six.table.pairings ≡ some asked_pairing)
unfolding arrive set greet take_name settle claim is_valid_username name_char find become_sender
    pair_up find_pairing want_relay attach request_relay update
six_facts = (refl, refl, (λ e. cc), refl, refl)

seven : Store ℕ
seven = (handle_frame world 0 open_frame six).1

abbrev core_seven : Core
core_seven = asked_relay 4 false asked_pairing core_six

seven_core : seven.core ≡ core_seven
unfolding seven
seven_core =
    open-relays world 0 4 asked_pairing six refl
      (ap (λ x. Core.pairing_id x 0) six_core ∙ six_facts.3) (λ e. absurd (omega (arith, e)))
      (ap (λ x. find_pairing 4 x.table.pairings) six_core ∙ six_facts.4)
      (ap (λ x. Core.live x 1) six_core ∙ six_facts.1)
      (ap (λ x. Core.live x 0) six_core ∙ six_facts.0)
    ∙ ap (asked_relay 4 false asked_pairing) six_core

seven-Reached : Reached seven
unfolding seven
seven-Reached =
    steps six seven six-Reached
      (handles world 0 open_frame six (IsOpen-in six core_six 0 six_core six_facts.0 six_facts.2))

seven_facts :
    (core_seven.live 0 ≡ true)
    × (core_seven.live 1 ≡ true)
    × (core_seven.state 1 ≢ closing)
    × (core_seven.relay_peer 1 ≡ some 0)
unfolding arrive set greet take_name settle claim is_valid_username name_char find become_sender
    pair_up find_pairing want_relay attach request_relay update
seven_facts = (refl, refl, (λ e. cc), refl)

abbrev data_frame : Frame
data_frame = frame_of relay_data key

seven_peer : peer_of world seven 1 ≡ some 0
seven_peer =
    let known = ap (λ x. Core.relay_peer x 1) seven_core ∙ seven_facts.3 in
    let alive = ap (λ x. Core.live x 0) seven_core ∙ seven_facts.0 in
    rw (peer_of, known, alive) refl

handle_relay_data-IsForwarded_example :
    IsForwarded 1 0 key seven (handle_relay_data world 1 data_frame seven)
    × (peer_of world seven 0 ≡ some 1)
handle_relay_data-IsForwarded_example =
    handle_relay_data-IsForwarded world 1 0 data_frame seven seven-Reached
      (IsOpen-in seven core_seven 1 seven_core seven_facts.1 seven_facts.2) seven_peer (omega arith)
