-- ===== src/Server/Store.antt =====
-- server/src/server.cpp: the state of the running server. A connection is the number of its object,
-- which is not used again; every member of Connection is a table from objects to its values.
use drop_zone.Base.{ℕ, Bool, List, Option, ◌==◌, ==-refl, ◌≡◌, refl, if◌then◌else◌}
use drop_zone.Wire.Endpoint.{Endpoint, unspecified, v4, v6}
use drop_zone.Protocol.Message.Hello.{ClientHello}
use drop_zone.Server.Claims.{Claims}
use drop_zone.Server.Pairing.{PairingTable}
use drop_zone.Server.Group.{ConnectionState, Groups}
use drop_zone.Server.Connection.{Input, Output}

-- A write of one object's member.
unfoldable pub set {ℓ} : {A : Type ℓ} → ℕ → A → (ℕ → A) → ℕ → A
set c value table i = if c == i then value else table i

pub set-here {ℓ} : {A : Type ℓ} (c : ℕ) (value : A) (table : ℕ → A) → set c value table c ≡ value
unfolding set
set-here c value table = rw (==-refl c) refl

-- What decides who is introduced and relayed to whom: members of the connections that exist, the
-- claimed names and the pairings. `live` says which objects exist, so which weak pointers lock;
-- `next_object` is the number of the next object that is made.
pub record Core : Type 0 where
  pub live : ℕ → Bool
  pub state : ℕ → ConnectionState
  pub hello_received : ℕ → Bool
  pub claimed_username : ℕ → List ℕ
  pub pairing_id : ℕ → ℕ
  pub relay_peer : ℕ → Option ℕ
  pub claims : Claims
  pub table : PairingTable
  pub next_object : ℕ

-- The other members, the shards' maps from descriptors (in one, as a descriptor is in one shard), the
-- wake queue of each shard, and the counters. The limiter is a client's type.
pub record Store (L : Type 0) : Type 0 where
  pub core : Core
  pub hello : ℕ → ClientHello
  pub joined_group : ℕ → List ℕ
  pub observed_endpoint : ℕ → Endpoint
  pub rate_limit_key : ℕ → ℕ
  pub last_activity_ms : ℕ → ℕ
  pub fd : ℕ → ℕ
  pub shard_index : ℕ → ℕ
  pub input : ℕ → Input
  pub output : ℕ → Output
  pub read_paused : ℕ → Bool
  pub close_requested : ℕ → Bool
  pub close_reason : ℕ → List ℕ
  pub connections : List (ℕ × ℕ)
  pub wake_queue : ℕ → List ℕ
  pub groups : Groups
  pub limiter : L
  pub total_connections : ℕ
  pub total_introductions : ℕ
  pub total_relayed_bytes : ℕ

pub record ServerOptions : Type 0 where
  pub idle_timeout_seconds : ℕ
  pub pairing_timeout_seconds : ℕ
  pub allow_relay : Bool

-- What the handlers call: the rate limiter, `constant_time_equal`, `random_bytes`; the options and the
-- number of shards; and the clock at this call.
pub record World (L : Type 0) : Type 0 where
  pub allow_connection : ℕ → ℕ → L → Bool × L
  pub allow_request : ℕ → ℕ → L → Bool × L
  pub evict_idle : ℕ → ℕ → L → L
  pub key_for : Endpoint → ℕ
  pub equal : List ℕ → List ℕ → Bool
  pub random : ℕ
  pub options : ServerOptions
  pub shard_count : ℕ
  pub now_ms : ℕ

unfoldable pub set_port : ℕ → Endpoint → Endpoint
set_port port unspecified = unspecified
set_port port (v4 old address) = v4 port address
set_port port (v6 old address) = v6 port address
