-- ===== src/Server/Pairing.antt =====
-- server/src/session_table.cpp: the pairings. A connection is the number of its object, and `live`
-- says which objects still exist.
pub mod Relay
pub mod Ends
pub mod Distinct
pub mod Made
pub mod Expire
pub mod Fresh
use Prim.Native.Nat.{bit_xor}
use drop_zone.Base.{
  ℕ, zero, suc, ◌+◌, ◌-◌, ◌%◌, ◌^◌, Bool, true, false, not, ◌&&◌, ◌||◌, List, [], ◌∷◌, Option, none,
  some, length, ltb, ◌==◌, if◌then◌else◌,
}
use drop_zone.Server.Map.{number_key, find, erase, update}

pub record Pairing : Type 0 where
  pub id : ℕ
  pub sender : ℕ
  pub receiver : ℕ
  pub sender_wants_relay : Bool
  pub receiver_wants_relay : Bool
  pub relay_active : Bool
  pub created_ms : ℕ

abbrev pub Pairings : Type 0
Pairings = List (ℕ × Pairing)

pub record PairingTable : Type 0 where
  pub pairings : Pairings
  pub next_pairing_counter : ℕ
  pub pairing_id_salt : ℕ
  pub salt_ready : Bool

abbrev pub new_pairing_table : PairingTable
new_pairing_table = record {
  pairings = [];
  next_pairing_counter = 1;
  pairing_id_salt = 0;
  salt_ready = false;
}

abbrev pub has : ℕ → Pairings → Bool
has id pairings = elim (find id pairings) [ none ↦ false | some p ↦ true ]

-- The do-while loop: an id, and the counter after it. `none` is a loop that needs more rounds.
unfoldable pub choose_id : ℕ → ℕ → ℕ → Pairings → Option (ℕ × ℕ)
choose_id zero counter salt pairings = none
choose_id (suc fuel) counter salt pairings =
    let id = bit_xor counter salt in
    let next = (counter + 1) % 2 ^ 64 in
    let rest = choose_id fuel next salt pairings in
    if id == 0 || has id pairings then rest else some (id, next)

-- What `random_bytes` gives is `random`.
pub ready_salt : ℕ → PairingTable → PairingTable
ready_salt random t =
    if t.salt_ready then t else record t { pairing_id_salt = random; salt_ready = true }

abbrev pub new_pairing : ℕ → ℕ → ℕ → ℕ → Pairing
new_pairing id sender receiver now_ms = record {
  id = id;
  sender = sender;
  receiver = receiver;
  sender_wants_relay = false;
  receiver_wants_relay = false;
  relay_active = false;
  created_ms = now_ms;
}

unfoldable pub create_pairing : ℕ → ℕ → ℕ → ℕ → PairingTable → Option (ℕ × PairingTable)
unfolding ready_salt
create_pairing random now_ms sender receiver table =
    let t = ready_salt random table in
    elim (choose_id (length t.pairings + 2) t.next_pairing_counter t.pairing_id_salt t.pairings) [
      | none ↦ none
      | some (id, next) ↦ some (
        id,
        record t {
          next_pairing_counter = next;
          pairings = (id, new_pairing id sender receiver now_ms) ∷ t.pairings;
        },
      )
    ]

unfoldable pub find_pairing : ℕ → Pairings → Option Pairing
find_pairing id pairings = find id pairings

-- What one side's request does to the pairing that it names.
pub note_request : Bool → Pairing → Pairing
note_request from_sender p =
    if from_sender
    then record p { sender_wants_relay = true }
    else record p { receiver_wants_relay = true }

pub start_relay : Pairing → Bool × Pairing
start_relay p =
    if p.sender_wants_relay && p.receiver_wants_relay && not p.relay_active
    then (true, record p { relay_active = true })
    else (false, p)

unfoldable pub request_relay : ℕ → Bool → Pairings → Bool × Pairings
unfolding note_request start_relay
request_relay id from_sender pairings = elim (find id pairings) [
  | none ↦ (false, pairings)
  | some p ↦
      let (answer, after) = start_relay (note_request from_sender p) in
      (answer, update id (λ old. after) pairings)
]

unfoldable pub destroy_pairing : ℕ → Pairings → Pairings
destroy_pairing id pairings = erase id pairings

-- The test of `expire_pairings`; the age is a difference of uint64_t.
abbrev pub expired : (ℕ → Bool) → ℕ → ℕ → Pairing → Bool
expired live now_ms max_age_ms p =
    not (live p.sender) && not (live p.receiver)
    || ltb max_age_ms ((now_ms + 2 ^ 64 - p.created_ms) % 2 ^ 64)

-- How many are removed, and what is left.
unfoldable pub expire_pairings : (ℕ → Bool) → ℕ → ℕ → Pairings → ℕ × Pairings
expire_pairings live now_ms max_age_ms [] = (0, [])
expire_pairings live now_ms max_age_ms ((id, p) ∷ rest) =
    let (removed, kept) = expire_pairings live now_ms max_age_ms rest in
    if expired live now_ms max_age_ms p then (removed + 1, kept) else (removed, (id, p) ∷ kept)
