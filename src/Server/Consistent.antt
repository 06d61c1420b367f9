-- ===== src/Server/Consistent.antt =====
-- The relation of server/src/server.cpp's connections to the claimed names and the pairings, and its
-- children: lemmas for every change and every handler.
pub mod Hello
pub mod Introduce
pub mod Relay
pub mod Closing
pub mod Handlers
pub mod Introducing
pub mod Relaying
pub mod Leaving
pub mod Steps
pub mod Stranger
pub mod Forward
pub mod Freed
pub mod Course
use drop_zone.Base.{ℕ, ◌≡◌, ◌≢◌, ◌<◌, Bool, true, false, List, [], Option, none, some}
use drop_zone.Server.Map.{name_key, number_key, find}
use drop_zone.Server.Pairing.{Pairing}
use drop_zone.Server.Pairing.Distinct.{Distinct}
use drop_zone.Server.Group.{
  ConnectionState, awaiting_hello, receiver_idle, receiver_matched, sender_idle, sender_waiting,
  relaying, closing,
}
use drop_zone.Server.Store.{Core}

-- The states of a connection that was not introduced to anybody.
abbrev pub is_single : ConnectionState → Bool
is_single awaiting_hello = true
is_single receiver_idle = true
is_single sender_idle = true
is_single _ = false

-- The states that a connection is in from the moment that it is relayed.
abbrev pub is_relayed : ConnectionState → Bool
is_relayed relaying = true
is_relayed closing = true
is_relayed _ = false

-- One end of a pairing, by its members: it exists, is not closing, knows the pairing, and is relayed
-- to the other end if to anybody.
pub record IsEnd (live : Bool) (state : ConnectionState) (pairing_id : ℕ) (peer : Option ℕ)
    (id other : ℕ) : Type 0 where
  pub exists : live ≡ true
  pub stays : state ≢ closing
  pub knows : pairing_id ≡ id
  pub relayed : (d : ℕ) → peer ≡ some d → d ≡ other

abbrev pub End : Core → ℕ → ℕ → ℕ → Type 0
End k id c other = IsEnd (k.live c) (k.state c) (k.pairing_id c) (k.relay_peer c) id other

abbrev pub IsPaired : Core → ℕ → Pairing → Type 0
IsPaired k id p =
    (id ≢ 0) × (p.sender ≢ p.receiver) × End k id p.sender p.receiver × End k id p.receiver p.sender

pub record IsConsistent (k : Core) : Type 0 where
  pub owned :
      (name : List ℕ) (c : ℕ)
      → find name k.claims ≡ some c
      → k.live c ≡ true
      → k.claimed_username c ≡ name
  pub held :
      (c : ℕ)
      → k.live c ≡ true
      → k.state c ≢ closing
      → k.claimed_username c ≢ []
      → find (k.claimed_username c) k.claims ≡ some c
  pub paired : (id : ℕ) (p : Pairing) → find id k.table.pairings ≡ some p → IsPaired k id p
  pub single : (c : ℕ) → is_single (k.state c) ≡ true → k.pairing_id c ≡ 0
  pub silent :
      (c : ℕ)
      → k.hello_received c ≡ false
      → (k.claimed_username c ≡ []) × (k.state c ≢ closing → k.state c ≡ awaiting_hello)
  pub apart : (c d : ℕ) → k.relay_peer c ≡ some d → is_relayed (k.state c) ≡ true
  pub both : (c d : ℕ) → k.relay_peer c ≡ some d → k.relay_peer d ≡ some c
  pub made :
      (name : List ℕ) (c : ℕ) → find name k.claims ≡ some c → (c < k.next_object) × (name ≢ [])
  pub distinct : Distinct k.table.pairings
  pub exist : (c : ℕ) → k.live c ≡ true → c < k.next_object
  pub relays : (c d : ℕ) → k.relay_peer c ≡ some d → c < k.next_object
