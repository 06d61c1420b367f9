-- ===== src/Protocol/Message/Hello.antt =====
-- common/src/protocol.cpp: ClientHello and ServerHello.
use drop_zone.Base.{
  ℕ, ◌^◌, ◌<◌, ◌≡◌, refl, Bool, true, false, not, ◌&&◌, List, [], ◌∷◌, ◌++◌, length, All, ◌==◌,
  if◌then◌else◌, arith,
}
use drop_zone.Base.Result.{Result, ok, unknown_role, invalid_username}
use drop_zone.Wire.Endpoint.{Endpoint, IsEndpoint}
use drop_zone.Wire.Endian.{store_u16, store_u32}
use drop_zone.Wire.Writer.{
  ◌▹◌, put_u8, put_u16, put_u32, put_bool, put_bytes, put_string, put_endpoint, put_endpoints,
}
use drop_zone.Wire.Reader.{
  Parser, decode_with, pure, fail_if, ◌>>=◌, ◌>>◌, take_u8, take_u16, take_u32, take_bool,
  take_string, take_fixed, take_endpoint, take_endpoints,
}
use drop_zone.Wire.Reads.{
  Reads, Reads-last, Reads-bind, Reads-fail_if, Reads-map, Reads-take_u8, Reads-take_u16,
  Reads-take_u32, Reads-take_bool, Reads-take_string, Reads-take_fixed, Reads-take_endpoint,
  Reads-take_endpoints, bool_byte, prefixed, endpoint_bytes, endpoints_bytes,
}
use drop_zone.Protocol.Name.{is_valid_username, short_name}
use drop_zone.Protocol.Message.Common.{decode_with-ReadsLast, puts}

pub data ClientRole : Type 0 where
  receiver sender : ClientRole

unfoldable pub role_byte : ClientRole → ℕ
role_byte receiver = 1
role_byte sender = 2

-- `static_cast<ClientRole>(role)`, after the check that it is 1 or 2.
unfoldable pub role_of : ℕ → ClientRole
role_of byte = if byte == 1 then receiver else sender

pub record ClientHello : Type 0 where
  pub role : ClientRole
  pub username : List ℕ
  pub identity_key : List ℕ
  pub session_key : List ℕ
  pub tcp_port : ℕ
  pub udp_port : ℕ
  pub local_candidates : List Endpoint

unfoldable pub encode_client_hello : ClientHello → List ℕ
encode_client_hello hello =
    []
    ▹ put_u8 (role_byte hello.role)
    ▹ put_string hello.username
    ▹ put_bytes hello.identity_key
    ▹ put_bytes hello.session_key
    ▹ put_u16 hello.tcp_port
    ▹ put_u16 hello.udp_port
    ▹ put_endpoints hello.local_candidates

parse_client_hello : Parser ClientHello
parse_client_hello = do
  role ← take_u8
  fail_if (not (role == 1) && not (role == 2)) unknown_role
  username ← take_string
  fail_if (not (is_valid_username username)) invalid_username
  identity_key ← take_fixed 32
  session_key ← take_fixed 32
  tcp_port ← take_u16
  udp_port ← take_u16
  local_candidates ← take_endpoints
  pure (record {
    role = role_of role;
    username = username;
    identity_key = identity_key;
    session_key = session_key;
    tcp_port = tcp_port;
    udp_port = udp_port;
    local_candidates = local_candidates;
  })

unfoldable pub decode_client_hello : List ℕ → Result ClientHello
unfolding parse_client_hello
decode_client_hello = decode_with parse_client_hello

-- What a hello that a client builds satisfies.
pub record IsClientHello (hello : ClientHello) : Type 0 where
  pub valid_name : is_valid_username hello.username ≡ true
  pub identity_size : length hello.identity_key ≡ 32
  pub session_size : length hello.session_key ≡ 32
  pub tcp_fits : hello.tcp_port < 2 ^ 16
  pub udp_fits : hello.udp_port < 2 ^ 16
  pub candidates_fit : length hello.local_candidates < 2 ^ 16
  pub candidates : All IsEndpoint hello.local_candidates

-- The layout of the message.
abbrev client_hello_bytes : ClientHello → List ℕ
client_hello_bytes h =
    (role_byte h.role ∷ [])
    ++ (prefixed h.username
        ++ (prefixed h.identity_key
            ++ (prefixed h.session_key
                ++ (store_u16 h.tcp_port
                    ++ (store_u16 h.udp_port ++ endpoints_bytes h.local_candidates)))))

encode_client_hello-bytes : (h : ClientHello) → encode_client_hello h ≡ client_hello_bytes h
unfolding encode_client_hello
encode_client_hello-bytes h = simp puts

Reads-role :
    (role : ClientRole)
    → (not (role_byte role == 1) && not (role_byte role == 2) ≡ false)
      × (role_of (role_byte role) ≡ role)
unfolding role_byte role_of
Reads-role receiver = (refl, refl)
Reads-role sender = (refl, refl)

Reads-client_hello :
    (h : ClientHello) → IsClientHello h → Reads parse_client_hello (client_hello_bytes h) h
unfolding parse_client_hello
Reads-client_hello h v = Reads-bind (Reads-take_u8 (role_byte h.role)) _ (
    Reads-fail_if _ (Reads-role h.role).0 (
      Reads-bind (Reads-take_string h.username (short_name h.username v.valid_name)) _ (
        Reads-fail_if _ (rw v.valid_name refl) (
          Reads-bind (Reads-take_fixed h.identity_key 32 v.identity_size (omega arith)) _ (
            Reads-bind (Reads-take_fixed h.session_key 32 v.session_size (omega arith)) _ (
              Reads-bind (Reads-take_u16 h.tcp_port v.tcp_fits) _ (
                Reads-bind (Reads-take_u16 h.udp_port v.udp_fits) _ (
                  rw (Reads-role h.role).1 (
                    Reads-map _ (
                      Reads-take_endpoints h.local_candidates v.candidates_fit
                        v.candidates))))))))))

-- A hello that a client builds, with a valid name, keys of 32 bytes, ports of 16 bits and fewer
-- than 2 ^ 16 valid endpoints, reaches the server as it was.
pub client_hello_round_trip :
    (h : ClientHello) → IsClientHello h → decode_client_hello (encode_client_hello h) ≡ ok h
unfolding decode_client_hello
client_hello_round_trip h v =
    rw (encode_client_hello-bytes h)
      (decode_with-ReadsLast parse_client_hello _ h (Reads-last (Reads-client_hello h v)))

-- ServerHello.
pub record ServerHello : Type 0 where
  pub claim_accepted : Bool
  pub message : List ℕ
  pub reflexive_tcp : Endpoint
  pub reflexive_udp : Endpoint
  pub idle_timeout_seconds : ℕ

unfoldable pub encode_server_hello : ServerHello → List ℕ
encode_server_hello hello =
    []
    ▹ put_bool hello.claim_accepted
    ▹ put_string hello.message
    ▹ put_endpoint hello.reflexive_tcp
    ▹ put_endpoint hello.reflexive_udp
    ▹ put_u32 hello.idle_timeout_seconds

parse_server_hello : Parser ServerHello
parse_server_hello = do
  claim_accepted ← take_bool
  message ← take_string
  reflexive_tcp ← take_endpoint
  reflexive_udp ← take_endpoint
  idle_timeout_seconds ← take_u32
  pure (record {
    claim_accepted = claim_accepted;
    message = message;
    reflexive_tcp = reflexive_tcp;
    reflexive_udp = reflexive_udp;
    idle_timeout_seconds = idle_timeout_seconds;
  })

unfoldable pub decode_server_hello : List ℕ → Result ServerHello
unfolding parse_server_hello
decode_server_hello = decode_with parse_server_hello

pub record IsServerHello (hello : ServerHello) : Type 0 where
  pub message_fits : length hello.message < 2 ^ 32
  pub tcp_valid : IsEndpoint hello.reflexive_tcp
  pub udp_valid : IsEndpoint hello.reflexive_udp
  pub timeout_fits : hello.idle_timeout_seconds < 2 ^ 32

abbrev server_hello_bytes : ServerHello → List ℕ
server_hello_bytes h =
    (bool_byte h.claim_accepted ∷ [])
    ++ (prefixed h.message
        ++ (endpoint_bytes h.reflexive_tcp
            ++ (endpoint_bytes h.reflexive_udp ++ store_u32 h.idle_timeout_seconds)))

encode_server_hello-bytes : (h : ServerHello) → encode_server_hello h ≡ server_hello_bytes h
unfolding encode_server_hello
encode_server_hello-bytes h = simp puts

Reads-server_hello :
    (h : ServerHello) → IsServerHello h → Reads parse_server_hello (server_hello_bytes h) h
unfolding parse_server_hello
Reads-server_hello h v = Reads-bind (Reads-take_bool h.claim_accepted) _ (
    Reads-bind (Reads-take_string h.message v.message_fits) _ (
      Reads-bind (Reads-take_endpoint h.reflexive_tcp v.tcp_valid) _ (
        Reads-bind (Reads-take_endpoint h.reflexive_udp v.udp_valid) _
          (Reads-map _ (Reads-take_u32 h.idle_timeout_seconds v.timeout_fits)))))

-- The server's answer, with a text shorter than 2 ^ 32 bytes, valid endpoints and a timeout of
-- 32 bits, reaches the client as it was.
pub server_hello_round_trip :
    (h : ServerHello) → IsServerHello h → decode_server_hello (encode_server_hello h) ≡ ok h
unfolding decode_server_hello
server_hello_round_trip h v =
    rw (encode_server_hello-bytes h)
      (decode_with-ReadsLast parse_server_hello _ h (Reads-last (Reads-server_hello h v)))
