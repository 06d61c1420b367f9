-- ===== src/Server/Consistent/Leaving.antt =====
-- server/src/server.cpp, `close_connection`, `run_maintenance` and `accept_connections` as a whole.
use drop_zone.Base.{
  ℕ, ◌*◌, ◌≡◌, refl, sym, subst, ap, ◌∙◌, inl, inr, Bool, true, not, ◌&&◌, List, [], ◌∷◌, some,
  Bool-cases, Option-cases, ◌==◌, ==_iff, arith,
}
use drop_zone.Wire.Header.{relay_close}
use drop_zone.Wire.Endpoint.{Endpoint}
use drop_zone.Server.Map.{number_key, find}
use drop_zone.Server.Claims.{lock}
use drop_zone.Server.Pairing.{Pairing, find_pairing}
use drop_zone.Server.Group.{ConnectionState, receiver_matched, closing}
use drop_zone.Server.Text.{text, codes}
use drop_zone.Server.Store.{Core, Store, World, set-here}
use drop_zone.Server.Action.{◌>>◌, modify, on_core, lock_in}
use drop_zone.Server.Action.Quiet.{Calm, calm-then, parting-Calm, after-keeps}
use drop_zone.Server.Handle.Introduce.{drop_pairing, to_idle, is_matched}
use drop_zone.Server.Closing.{
  start_closing, release_name, is_closing, is_some, other_end, leave_joined, forget, part_from,
  tell_other, leave_pairing, close_connection, close_all, stale, run_maintenance, accept_connection,
}
use drop_zone.Server.Consistent.{IsConsistent}
use drop_zone.Server.Consistent.Introduce.{
  IsStranger, drop_pairing-IsConsistent, to_idle-IsConsistent,
}
use drop_zone.Server.Consistent.Closing.{
  dropped, gone-IsStranger, zero-IsStranger, start_closing-IsConsistent, release_name-IsConsistent,
  expire-IsConsistent, arrive-IsConsistent,
}
use drop_zone.Server.Consistent.Handlers.{KeepsAt}

-- The connection closes and its name is released.
depart : ℕ → Core → Core
depart c k = release_name c (start_closing c k)

depart-IsConsistent :
    (c : ℕ) (k : Core) → IsConsistent k → IsStranger k c → IsConsistent (depart c k)
unfolding depart start_closing
depart-IsConsistent c k h s =
    release_name-IsConsistent c (start_closing c k) (start_closing-IsConsistent c k h s)
      (set-here c closing k.state)

drop-depart :
    (c : ℕ) (k : Core) → IsConsistent k → IsConsistent (drop_pairing (k.pairing_id c) (depart c k))
unfolding depart drop_pairing start_closing release_name
drop-depart c k h =
    let id = k.pairing_id c in
    let gone = drop_pairing id k in
    let h' = drop_pairing-IsConsistent id k h in
    depart-IsConsistent c gone h' (gone-IsStranger c gone h' (dropped id k))

-- The matched receiver of the pairing that is dropped is idle again.
idle-depart :
    (c other : ℕ) (k : Core)
    → IsConsistent k
    → k.pairing_id other ≡ k.pairing_id c
    → (depart c k).state other ≡ receiver_matched
    → IsConsistent (drop_pairing (k.pairing_id c) (to_idle other (depart c k)))
unfolding depart drop_pairing start_closing release_name to_idle
idle-depart c other k h same matched =
    let id = k.pairing_id c in
    let after = drop_pairing id (depart c k) in
    let h' = drop-depart c k h in
    let gone = dropped id (depart c k) in
    to_idle-IsConsistent other after h' matched
      (gone-IsStranger other after h' (ap (λ i. find i after.table.pairings) same ∙ gone))

is_matched-true : (state : ConnectionState) → is_matched state ≡ true → state ≡ receiver_matched
is_matched-true state h = ground arith

matched_receiver :
    (live : ℕ → Bool) (r other : ℕ) (a b : Bool)
    → live r ≡ true
    → is_some other (lock live r) && a && b ≡ true
    → (r ≡ other) × (a ≡ true)
matched_receiver live r other a b l h = ground (arith, h, l)

module _ {L : Type 0} (w : World L) (c : ℕ) where
  part_from-Calm : (other : ℕ) → Calm (part_from w other)
  unfolding part_from text codes
  part_from-Calm other = parting-Calm other w.shard_count relay_close _ _ refl

  tell_other-keeps :
      (p : Pairing) (other : ℕ) (k : Core) (s : Store L)
      → IsConsistent k
      → find (k.pairing_id c) k.table.pairings ≡ some p
      → KeepsAt
          (record s { core = depart c k })
          (tell_other w p other >> on_core (drop_pairing (k.pairing_id c)))
  unfolding tell_other ◌>>◌ depart start_closing release_name
  tell_other-keeps p other k s h f =
      let t = record s { core = depart c k } in
      let matched : Bool =
        is_some other (lock_in t p.receiver)
        && is_matched (t.core.state other)
        && not p.relay_active in
      elim (Bool-cases matched) [
        | inl m ↦
            let (nonzero, apart, first, second) = h.paired (k.pairing_id c) p f in
            let (same, state) =
              matched_receiver k.live p.receiver other (is_matched (t.core.state other))
                (not p.relay_active) second.exists m in
            rw m (
              idle-depart c other k h (ap k.pairing_id (sym same) ∙ second.knows)
                (is_matched-true (t.core.state other) state))
        | inr m ↦ rw m (
            calm-then IsConsistent (part_from w other) (on_core (drop_pairing (k.pairing_id c))) t
              (part_from-Calm other)
              (λ u same.
                subst (λ x. IsConsistent (drop_pairing (k.pairing_id c) x)) (sym same)
                  (drop-depart c k h)))
      ]

  leave_pairing-KeepsAt :
      (k : Core) (s : Store L)
      → IsConsistent k
      → KeepsAt (record s { core = depart c k }) (leave_pairing w c)
  unfolding leave_pairing find_pairing depart start_closing release_name
  leave_pairing-KeepsAt k s h =
      let id = k.pairing_id c in
      elim (Bool-cases (id == 0)) [
        | inl z ↦ rw z (depart-IsConsistent c k h (zero-IsStranger c k h ((==_iff id 0).0 z)))
        | inr z ↦ elim (Option-cases (find id k.table.pairings)) [
          | inl e ↦ rw (leave_pairing, z, e) (drop-depart c k h)
          | inr (p, e) ↦
              let t = record s { core = depart c k } in
              elim (Option-cases (other_end c (lock_in t p.sender) (lock_in t p.receiver))) [
                | inl o ↦ rw (leave_pairing, z, e, o) (drop-depart c k h)
                | inr (other, o) ↦ rw (leave_pairing, z, e, o) (tell_other-keeps p other k s h e)
              ]
        ]
      ]

  pub close_connection-KeepsAt :
      (s : Store L) → IsConsistent s.core → KeepsAt s (close_connection w c)
  unfolding close_connection leave_joined forget ◌>>◌ depart
  close_connection-KeepsAt s h = elim (Bool-cases (is_closing (s.core.state c))) [
    | inl t ↦ rw t h
    | inr t ↦
        let left = leave_joined c (record s { core = depart c s.core }) in
        rw t (
          after-keeps IsConsistent (leave_pairing w c left) (modify (forget c))
            (leave_pairing-KeepsAt s.core left h) (λ u k. k))
  ]

module _ {L : Type 0} (w : World L) where
  close_all-KeepsAt : (cs : List ℕ) (s : Store L) → IsConsistent s.core → KeepsAt s (close_all w cs)
  unfolding close_all ◌>>◌
  close_all-KeepsAt [] s h = h
  close_all-KeepsAt (c ∷ cs) s h =
      after-keeps IsConsistent (close_connection w c s) (close_all w cs)
        (close_connection-KeepsAt w c s h) (close_all-KeepsAt cs)

  pub run_maintenance-KeepsAt :
      (shard now_ms : ℕ) (s : Store L)
      → IsConsistent s.core
      → KeepsAt s (run_maintenance w shard now_ms)
  unfolding run_maintenance ◌>>◌
  run_maintenance-KeepsAt shard now_ms s h =
      let limit_ms = w.options.pairing_timeout_seconds * 1000 in
      after-keeps IsConsistent (close_all w (stale w shard now_ms s s.connections) s) _
        (close_all-KeepsAt (stale w shard now_ms s s.connections) s h)
        (λ t k. elim (Bool-cases (shard == 0)) [
          | inl z ↦ rw z (expire-IsConsistent now_ms limit_ms t.core k)
          | inr z ↦ rw z k
        ])

  pub accept_connection-KeepsAt :
      (shard fd : ℕ) (observed : Endpoint) (s : Store L)
      → IsConsistent s.core
      → KeepsAt s (accept_connection w shard fd observed)
  unfolding accept_connection ◌>>◌
  accept_connection-KeepsAt shard fd observed s h =
      elim (Bool-cases (w.allow_connection (w.key_for observed) w.now_ms s.limiter).0) [
        | inl a ↦ rw a (arrive-IsConsistent s.core h)
        | inr a ↦ rw a h
      ]
