-- ===== src/Server/Consistent/Freed.antt =====
-- server/src/server.cpp, `close_connection`: a sender that leaves frees its receiver.
use drop_zone.Base.{
  ℕ, ◌≡◌, ◌≢◌, refl, sym, subst, ◌∙◌, Bool, true, false, [], none, some, ◌==◌, ==-refl, ==-ne,
  arith,
}
use drop_zone.Server.Map.{number_key, name_key, find}
use drop_zone.Server.Claims.{lookup, lock}
use drop_zone.Server.Pairing.{Pairing, find_pairing}
use drop_zone.Server.Group.{ConnectionState, receiver_idle, receiver_matched, closing}
use drop_zone.Server.Store.{Store, World, set, set-here}
use drop_zone.Server.Action.{Reply, returned, ◌>>◌}
use drop_zone.Server.Handle.Introduce.{drop_pairing, to_idle}
use drop_zone.Server.Closing.{
  is_closing, start_closing, release_name, leave_joined, forget, other_end, tell_other,
  leave_pairing, close_connection,
}
use drop_zone.Server.Consistent.Closing.{dropped}
use drop_zone.Server.Consistent.Handlers.{IsOpen}
use drop_zone.Server.Consistent.Steps.{Reached, steps, closes, Reached-IsConsistent, Reached-lookup}
use drop_zone.Server.Consistent.Stranger.{set-other}

open-not_closing : (state : ConnectionState) → state ≢ closing → is_closing state ≡ false
open-not_closing state n = ground (arith, n)

-- The end of a pairing that is not the sender.
other_end-receiver :
    (live : ℕ → Bool) (c r : ℕ)
    → live c ≡ true
    → live r ≡ true
    → c ≢ r
    → other_end c (lock live c) (lock live r) ≡ some r
unfolding other_end
other_end-receiver live c r a b n = rw (other_end, a, b, ==-refl c, ==-ne r c (λ e. n (sym e))) refl

-- A receiver that is idle again, after what it was paired under is gone.
pub record IsFreed {L : Type 0} (receiver id : ℕ) (x : Reply × Store L) : Type 0 where
  pub ends : x.0 ≡ returned
  pub exists : x.1.core.live receiver ≡ true
  pub idle : x.1.core.state receiver ≡ receiver_idle
  pub unpaired : x.1.core.pairing_id receiver ≡ 0
  pub gone : find_pairing id x.1.core.table.pairings ≡ none
  pub named :
      x.1.core.claimed_username receiver ≢ []
      → lookup x.1.core.live (x.1.core.claimed_username receiver) x.1.core.claims ≡ some receiver

module _ {L : Type 0} (w : World L) (c : ℕ) where
  -- What leaving the pairing does for a sender whose matched receiver is not relayed.
  leave_pairing-frees :
      (p : Pairing) (s : Store L)
      → find (s.core.pairing_id c) s.core.table.pairings ≡ some p
      → s.core.pairing_id c ≢ 0
      → p.sender ≡ c
      → s.core.live c ≡ true
      → s.core.live p.receiver ≡ true
      → c ≢ p.receiver
      → s.core.state p.receiver ≡ receiver_matched
      → p.relay_active ≡ false
      → leave_pairing w c s ≡ (
        returned,
        record s { core = drop_pairing (s.core.pairing_id c) (to_idle p.receiver s.core) },
      )
  unfolding leave_pairing find_pairing tell_other ◌>>◌
  leave_pairing-frees p s f n e a b d m i =
      let id = s.core.pairing_id c in
      let nonzero : id == 0 ≡ false = ==-ne id 0 n in
      rw (leave_pairing, nonzero, f, e, other_end-receiver s.core.live c p.receiver a b d)
        (rw (b, ==-refl p.receiver, m, i) refl)

  -- In every reached state, where an open sender is paired with a receiver that is matched and no
  -- relaying was started: closing the sender's connection returns; the receiver, which still exists,
  -- is then idle and in no pairing, the pairing is gone, and a name that the receiver has claimed
  -- still leads to it.
  pub close_connection-frees :
      (p : Pairing) (s : Store L)
      → Reached s
      → IsOpen c s
      → find_pairing (s.core.pairing_id c) s.core.table.pairings ≡ some p
      → p.sender ≡ c
      → s.core.state p.receiver ≡ receiver_matched
      → p.relay_active ≡ false
      → IsFreed p.receiver (s.core.pairing_id c) (close_connection w c s)
  unfolding close_connection leave_joined forget ◌>>◌ find_pairing start_closing release_name
      to_idle drop_pairing
  close_connection-frees p s r o f e m i =
      let h = Reached-IsConsistent s r in
      let id = s.core.pairing_id c in
      let (nonzero, apart, first, second) = h.paired id p f in
      let d : c ≢ p.receiver = λ z. apart (e ∙ z) in
      let closing_core = release_name c (start_closing c s.core) in
      let left = leave_joined c (record s { core = closing_core }) in
      let kept = set-other c p.receiver closing s.core.state (λ z. d (sym z)) in
      let freed = leave_pairing-frees p left f nonzero e o.exists second.exists d (kept ∙ m) i in
      let last =
        forget c (record left { core = drop_pairing id (to_idle p.receiver closing_core) }) in
      let result : close_connection w c s ≡ (returned, last) =
        rw (open-not_closing (s.core.state c) o.stays, freed) refl in
      let later = subst (λ x. Reached x.1) result (steps s _ r (closes w c s)) in
      let idle = set-here p.receiver receiver_idle (set c closing s.core.state) in
      subst (IsFreed p.receiver id) (sym result) (record {
        ends = refl;
        exists = second.exists;
        idle = idle;
        unpaired = set-here p.receiver 0 s.core.pairing_id;
        gone = dropped id (to_idle p.receiver closing_core);
        named = λ n.
            (Reached-lookup last p.receiver later
              (record { exists = second.exists; stays = λ z. let y = idle in cc }) n).0;
      })
