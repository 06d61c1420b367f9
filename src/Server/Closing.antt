-- ===== src/Server/Closing.antt =====
-- server/src/server.cpp: connections that come and go: `accept_connections` for one that is accepted,
-- `close_connection` and `run_maintenance`. The calls of the poller are not modelled.
use drop_zone.Base.{
  ℕ, zero, suc, ◌+◌, ◌-◌, ◌*◌, ◌%◌, ◌^◌, Bool, true, false, not, ◌&&◌, List, [], ◌∷◌, Option, none,
  some, ltb, ◌==◌, if◌then◌else◌,
}
use drop_zone.Wire.Header.{relay_close}
use drop_zone.Wire.Endpoint.{Endpoint}
use drop_zone.Protocol.Message.Hello.{ClientRole, ClientHello}
use drop_zone.Server.Connection.{Input, cleared}
use drop_zone.Server.Map.{number_key, erase}
use drop_zone.Server.Claims.{release}
use drop_zone.Server.Pairing.{Pairing, find_pairing, expire_pairings}
use drop_zone.Server.Group.{ConnectionState, awaiting_hello, closing, is_empty, leave_group}
use drop_zone.Server.Text.{text}
use drop_zone.Server.Store.{Core, Store, World, set}
use drop_zone.Server.Action.{
  Action, ◌>>◌, done, modify, on_core, enqueue, request_close, wake_for, lock_in,
}
use drop_zone.Server.Handle.Introduce.{is_matched, drop_pairing, to_idle}

-- The members of a new connection: ClientHello's defaults, and empty buffers.
abbrev zeros : ℕ → List ℕ
zeros zero = []
zeros (suc n) = 0 ∷ zeros n

abbrev no_hello : ClientHello
no_hello = record {
  role = ClientRole.receiver;
  username = [];
  identity_key = zeros 32;
  session_key = zeros 32;
  tcp_port = 0;
  udp_port = 0;
  local_candidates = [];
}

abbrev no_input : Input
no_input = record { input = []; input_consumed = 0; peer_closed = false }

abbrev pub is_closing : ConnectionState → Bool
is_closing closing = true
is_closing _ = false

unfoldable pub start_closing : ℕ → Core → Core
start_closing c k = record k { state = set c closing k.state }

unfoldable pub release_name : ℕ → Core → Core
release_name c k =
    let name = k.claimed_username c in
    record k { claims = if is_empty name then k.claims else release k.live name c k.claims }

-- The shared pointers to the connections that were closed are gone, and with them the objects.
unfoldable pub destroy_closed : Core → Core
destroy_closed k = record k { live = λ c. k.live c && not (is_closing (k.state c)) }

-- A new object.
unfoldable pub arrive : Core → Core
arrive k =
    let c = k.next_object in
    record k {
      live = set c true k.live;
      state = set c awaiting_hello k.state;
      hello_received = set c false k.hello_received;
      claimed_username = set c [] k.claimed_username;
      pairing_id = set c 0 k.pairing_id;
      relay_peer = set c none k.relay_peer;
      next_object = suc c;
    }

unfoldable pub expire : ℕ → ℕ → Core → Core
expire now_ms limit_ms k = record k {
  table = record k.table { pairings = (expire_pairings k.live now_ms limit_ms k.table.pairings).1 };
}

-- `(sender == connection) ? receiver : sender`, and null if it is the connection.
unfoldable pub other_end : ℕ → Option ℕ → Option ℕ → Option ℕ
other_end c first second =
    let chosen : Option ℕ = elim first [
      | none ↦ none
      | some a ↦ if a == c then second else some a
    ] in
    elim chosen [ none ↦ none | some other ↦ if other == c then none else some other ]

abbrev pub is_some : ℕ → Option ℕ → Bool
is_some c none = false
is_some c (some d) = d == c

module _ {L : Type 0} where
  unfoldable pub leave_joined : ℕ → Store L → Store L
  leave_joined c s =
      let name = s.joined_group c in
      let none_joined = is_empty name in
      record s {
        groups = if none_joined then s.groups else leave_group s.core.live name (some c) s.groups;
        joined_group = if none_joined then s.joined_group else set c [] s.joined_group;
      }

  unfoldable pub forget : ℕ → Store L → Store L
  forget c s = record s { connections = erase (s.fd c) s.connections }

  module _ (w : World L) where
    unfoldable pub part_from : ℕ → Action L
    part_from other =
        let reason = text "the other peer disconnected" in
        enqueue other relay_close reason
        >> request_close other reason
        >> wake_for w.shard_count other

    unfoldable pub tell_other : Pairing → ℕ → Action L
    tell_other p other s =
        let reset_matched_receiver =
          is_some other (lock_in s p.receiver)
          && is_matched (s.core.state other)
          && not p.relay_active in
        if reset_matched_receiver then on_core (to_idle other) s else part_from other s

    unfoldable pub leave_pairing : ℕ → Action L
    leave_pairing c s =
        let id = s.core.pairing_id c in
        if id == 0 then done s else elim (find_pairing id s.core.table.pairings) [
          | none ↦ on_core (drop_pairing id) s
          | some p ↦ elim (other_end c (lock_in s p.sender) (lock_in s p.receiver)) [
            | none ↦ on_core (drop_pairing id) s
            | some other ↦ (tell_other p other >> on_core (drop_pairing id)) s
          ]
        ]

    unfoldable pub close_connection : ℕ → Action L
    unfolding leave_joined forget
    close_connection c s =
        if is_closing (s.core.state c)
        then done s
        else (on_core (start_closing c)
              >> on_core (release_name c)
              >> modify (leave_joined c)
              >> leave_pairing c
              >> modify (forget c))
            s

    unfoldable pub close_all : List ℕ → Action L
    close_all [] = done
    close_all (c ∷ cs) = close_connection c >> close_all cs

    -- The connections of the shard that were silent for too long; the age is a difference of uint64_t.
    unfoldable pub stale : ℕ → ℕ → Store L → List (ℕ × ℕ) → List ℕ
    stale shard now_ms s [] = []
    stale shard now_ms s ((fd, c) ∷ rest) =
        let limit_ms = w.options.idle_timeout_seconds * 1000 in
        let silent = (now_ms + 2 ^ 64 - s.last_activity_ms c) % 2 ^ 64 in
        let more = stale shard now_ms s rest in
        if s.shard_index c == shard && ltb limit_ms silent then c ∷ more else more

    unfoldable pub run_maintenance : ℕ → ℕ → Action L
    unfolding stale
    run_maintenance shard now_ms s =
        (close_all (stale shard now_ms s s.connections)
            >> (if shard == 0
                then on_core (expire now_ms (w.options.pairing_timeout_seconds * 1000))
                  >> modify
                      (λ t. record t { limiter = w.evict_idle now_ms (10 * 60 * 1000) t.limiter })
                else done))
          s

    -- One connection that the kernel hands over, of this address and descriptor.
    unfoldable pub accept_connection : ℕ → ℕ → Endpoint → Action L
    accept_connection shard fd observed s =
        let key = w.key_for observed in
        let (allowed, limiter) = w.allow_connection key w.now_ms s.limiter in
        let c = s.core.next_object in
        if not allowed
        then done (record s { limiter = limiter })
        else (on_core arrive
              >> modify (λ t. record t {
                hello = set c no_hello t.hello;
                joined_group = set c [] t.joined_group;
                observed_endpoint = set c observed t.observed_endpoint;
                rate_limit_key = set c key t.rate_limit_key;
                last_activity_ms = set c w.now_ms t.last_activity_ms;
                fd = set c fd t.fd;
                shard_index = set c shard t.shard_index;
                input = set c no_input t.input;
                output = set c cleared t.output;
                read_paused = set c false t.read_paused;
                close_requested = set c false t.close_requested;
                close_reason = set c [] t.close_reason;
                connections = (fd, c) ∷ t.connections;
                total_connections = (t.total_connections + 1) % 2 ^ 64;
              }))
            (record s { limiter = limiter })
