-- ===== src/Server/Pairing/Relay.antt =====
-- server/src/session_table.cpp, `request_relay`: when relaying starts, over any sequence of requests.
use drop_zone.Base.{
  ℕ, ◌+◌, ◌≡◌, refl, Bool, true, false, not, ◌&&◌, ◌||◌, List, [], ◌∷◌, some, if◌then◌else◌, arith,
}
use drop_zone.Server.Map.{number_key, find, find-update}
use drop_zone.Server.Pairing.{Pairing, Pairings, request_relay, note_request, start_relay}

-- How many of the requests for one pairing are answered with true, and the table after them.
unfoldable pub requests : ℕ → List Bool → Pairings → ℕ × Pairings
requests id [] pairings = (0, pairings)
requests id (from_sender ∷ rest) pairings =
    let (answer, next) = request_relay id from_sender pairings in
    let (starts, last) = requests id rest next in ((if answer then starts + 1 else starts), last)

-- Does a request of that side occur?
abbrev pub asked : Bool → List Bool → Bool
asked side [] = false
asked side (b ∷ bs) = (if side then b else not b) || asked side bs

-- The number of times that relaying starts for a pairing `p` on which these requests are made.
abbrev pub expected_starts : List Bool → Pairing → ℕ
expected_starts bs p =
    if p.relay_active
    then 0
    else if (p.sender_wants_relay || asked true bs) && (p.receiver_wants_relay || asked false bs)
    then 1
    else 0

-- Relaying is on exactly if both sides have asked for it.
abbrev pub Settled : Pairing → Type 0
Settled p = p.relay_active ≡ (p.sender_wants_relay && p.receiver_wants_relay)

unfoldable after_request : Bool → Pairing → Pairing
unfolding note_request start_relay
after_request from_sender p = (start_relay (note_request from_sender p)).1

after_request-Settled :
    (from_sender : Bool) (p : Pairing) → Settled p → Settled (after_request from_sender p)
unfolding after_request
after_request-Settled from_sender p s = ground arith

request_step :
    (id : ℕ) (from_sender : Bool) (pairings : Pairings) (p : Pairing)
    → find id pairings ≡ some p
    → ((request_relay id from_sender pairings).0 ≡ (start_relay (note_request from_sender p)).0)
      × (find id (request_relay id from_sender pairings).1 ≡ some (after_request from_sender p))
unfolding request_relay after_request
request_step id from_sender pairings p h =
    rw (request_relay, h) (refl, find-update id (λ old. after_request from_sender p) pairings p h)

expected_step :
    (from_sender : Bool) (bs : List Bool) (p : Pairing)
    → Settled p
    → (if (start_relay (note_request from_sender p)).0
        then expected_starts bs (after_request from_sender p) + 1
        else expected_starts bs (after_request from_sender p))
      ≡ expected_starts (from_sender ∷ bs) p
unfolding after_request
expected_step from_sender bs p s = ground arith

-- For a pairing on which relaying is on exactly if both sides have asked, as on a new one: over
-- any sequence of requests relaying is started once if it is off and both sides have asked or
-- ask in it, in whatever order and however often, and otherwise never.
pub requests-once :
    (id : ℕ) (bs : List Bool) (pairings : Pairings) (p : Pairing)
    → find id pairings ≡ some p
    → Settled p
    → (requests id bs pairings).0 ≡ expected_starts bs p
unfolding requests
requests-once id [] pairings p h s = ground arith
requests-once id (from_sender ∷ bs) pairings p h s =
    let (answer, found) = request_step id from_sender pairings p h in
    let rest = requests-once id bs _ _ found (after_request-Settled from_sender p s) in
    rw (answer, rest) (expected_step from_sender bs p s)
