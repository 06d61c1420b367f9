-- ===== src/Server/Consistent/Introducing.antt =====
-- server/src/server.cpp, the handlers of introductions as a whole.
use drop_zone.Base.{
  ℕ, ◌≡◌, refl, sym, subst, inl, inr, Bool, true, List, some, Bool-cases, Option-cases, ◌==◌, arith,
}
use drop_zone.Wire.Header.{incoming, matched, reject}
use drop_zone.Wire.Stream.{Frame}
use drop_zone.Protocol.Message.Introduction.{SendRequest, decode_send_request}
use drop_zone.Protocol.Message.Peer.{
  PeerIntroduction, encode_peer_introduction, decode_peer_introduction,
}
use drop_zone.Server.Map.{name_key, number_key, find}
use drop_zone.Server.Claims.{lookup}
use drop_zone.Server.Pairing.{Pairing, create_pairing, find_pairing}
use drop_zone.Server.Pairing.Made.{create_pairing-IsMade}
use drop_zone.Server.Group.{ConnectionState, receiver_idle, receiver_matched, sender_idle, is_idle}
use drop_zone.Server.Text.{text}
use drop_zone.Server.Store.{Core, Store, World}
use drop_zone.Server.Action.{◌>>◌, enqueue, request_close, wake_for, reject_and_close}
use drop_zone.Server.Action.Quiet.{
  Quiet, then-Quiet, enqueue-Quiet, request_close-Quiet, wake_for-Quiet, reject_and_close-Quiet,
  quiet-then,
}
use drop_zone.Server.Handle.Introduce.{
  handle_send_request, introduce, match_with, announce, handle_accept, pass_on, handle_reject,
  tell_declined, end_pairing, pair_up, drop_pairing, stand_down, introduction, is_sender_idle,
  is_matched,
}
use drop_zone.Server.Consistent.{IsConsistent}
use drop_zone.Server.Consistent.Introduce.{
  pair_up-IsConsistent, drop_pairing-IsConsistent, stand_down-IsConsistent,
}
use drop_zone.Server.Consistent.Closing.{dropped, gone-IsStranger}
use drop_zone.Server.Consistent.Handlers.{
  IsOpen, KeepsAt, Quiet-KeepsAt, change-KeepsAt, with_result-KeepsAt,
}

lookup-live :
    (live : ℕ → Bool) (name : List ℕ) (claims : List (List ℕ × ℕ)) (r : ℕ)
    → lookup live name claims ≡ some r
    → live r ≡ true
unfolding lookup
lookup-live live name claims r h = elim (Option-cases (find name claims)) [
  | inl e ↦ let h' = rw (lookup, e) at h in cc
  | inr (holder, e) ↦
      let h' = rw (lookup, e) at h in
      elim (Bool-cases (live holder)) [
        | inl t ↦ let h2 = rw t at h' in let same : holder ≡ r = cc in rw⁻¹ same t
        | inr t ↦ let h2 = rw t at h' in cc
      ]
]

is_idle-true : (state : ConnectionState) → is_idle state ≡ true → state ≡ receiver_idle
unfolding is_idle
is_idle-true state h = ground arith

is_sender_idle-true : (state : ConnectionState) → is_sender_idle state ≡ true → state ≡ sender_idle
is_sender_idle-true state h = ground arith

is_matched-true : (state : ConnectionState) → is_matched state ≡ true → state ≡ receiver_matched
is_matched-true state h = ground arith

module _ {L : Type 0} (w : World L) (c : ℕ) where
  reject-KeepsAt :
      (reason : List ℕ) (s : Store L) → IsConsistent s.core → KeepsAt s (reject_and_close c reason)
  reject-KeepsAt reason =
      Quiet-KeepsAt (reject_and_close c reason) (reject_and_close-Quiet c reason)

  pub announce-Quiet : (r id : ℕ) (request : SendRequest) → Quiet (announce w c r id request)
  unfolding announce
  announce-Quiet r id request =
      then-Quiet
        ((λ t. enqueue r incoming (encode_peer_introduction (introduction c id request t)) t)
          >> wake_for w.shard_count r)
        _
        (then-Quiet (λ t. enqueue r incoming _ t) (wake_for w.shard_count r)
          (λ t. enqueue-Quiet r incoming _ t) (wake_for-Quiet w.shard_count r))
        (λ t. refl)

  match_with-KeepsAt :
      (r : ℕ) (request : SendRequest) (s : Store L)
      → IsConsistent s.core
      → s.core.state c ≡ sender_idle
      → s.core.state r ≡ receiver_idle
      → s.core.live c ≡ true
      → s.core.live r ≡ true
      → KeepsAt s (match_with w c r request)
  unfolding match_with ◌>>◌
  match_with-KeepsAt r request s h sc sr lc lr =
      elim (Option-cases (create_pairing w.random w.now_ms c r s.core.table)) [
        | inl e ↦ rw (match_with, e) h
        | inr ((id, table), e) ↦
            let made = create_pairing-IsMade w.random w.now_ms c r s.core.table table id e in
            let paired = pair_up-IsConsistent w.now_ms c r id table s.core h sc sr lc lr made in
            rw (match_with, e)
              (change-KeepsAt (pair_up c r id table) (announce w c r id request)
                (announce-Quiet r id request) s paired)
      ]

  introduce-KeepsAt :
      (request : SendRequest) (s : Store L)
      → IsConsistent s.core
      → s.core.state c ≡ sender_idle
      → s.core.live c ≡ true
      → KeepsAt s (introduce w c request)
  unfolding introduce
  introduce-KeepsAt request s h sc lc =
      let target = request.target_username in
      elim (Option-cases (lookup s.core.live target s.core.claims)) [
        | inl e ↦ rw (introduce, e) (reject-KeepsAt _ s h)
        | inr (r, e) ↦ elim (Bool-cases (is_idle (s.core.state r))) [
          | inr i ↦ rw (introduce, e, i) (reject-KeepsAt _ s h)
          | inl i ↦
              let lr = lookup-live s.core.live target s.core.claims r e in
              rw (introduce, e, i)
                (match_with-KeepsAt r request s h sc (is_idle-true (s.core.state r) i) lc lr)
        ]
      ]

  pub handle_send_request-KeepsAt :
      (frame : Frame) (s : Store L)
      → IsConsistent s.core
      → IsOpen c s
      → KeepsAt s (handle_send_request w c frame)
  unfolding handle_send_request
  handle_send_request-KeepsAt frame s h o = elim (Bool-cases (is_sender_idle (s.core.state c))) [
    | inr i ↦ rw i (reject-KeepsAt _ s h)
    | inl i ↦
        let t = record s {
          limiter = (w.allow_request (s.rate_limit_key c) w.now_ms s.limiter).1;
        } in
        elim (Bool-cases (w.allow_request (s.rate_limit_key c) w.now_ms s.limiter).0) [
          | inr a ↦ rw (i, a) (reject-KeepsAt _ t h)
          | inl a ↦
              rw (i, a)
                (with_result-KeepsAt (decode_send_request frame.payload) (introduce w c) t h
                  (λ request.
                    introduce-KeepsAt request t h (is_sender_idle-true (s.core.state c) i)
                      o.exists))
        ]
  ]

  pass_on-Quiet : (sender : ℕ) (decoded : PeerIntroduction) → Quiet (pass_on w c sender decoded)
  unfolding pass_on
  pass_on-Quiet sender decoded s =
      then-Quiet (enqueue sender matched _) (wake_for w.shard_count sender)
        (enqueue-Quiet sender matched _) (wake_for-Quiet w.shard_count sender) s

  -- A pairing that is found has both its ends.
  no_sender :
      (s : Store L) (p : Pairing)
      → IsConsistent s.core
      → find (s.core.pairing_id c) s.core.table.pairings ≡ some p
      → s.core.live p.sender ≡ true
  no_sender s p h f = (h.paired (s.core.pairing_id c) p f).2.exists

  pub handle_accept-KeepsAt :
      (frame : Frame) (s : Store L) → IsConsistent s.core → KeepsAt s (handle_accept w c frame)
  unfolding handle_accept find_pairing
  handle_accept-KeepsAt frame s h = elim (Bool-cases (is_matched (s.core.state c))) [
    | inr i ↦ rw i (reject-KeepsAt _ s h)
    | inl i ↦ elim (Option-cases (find (s.core.pairing_id c) s.core.table.pairings)) [
      | inl e ↦ rw (handle_accept, i, e) (reject-KeepsAt _ s h)
      | inr (p, e) ↦
          rw (handle_accept, i, e, no_sender s p h e)
            (with_result-KeepsAt (decode_peer_introduction frame.payload) (pass_on w c p.sender) s h
              (λ decoded.
                Quiet-KeepsAt (pass_on w c p.sender decoded) (pass_on-Quiet p.sender decoded) s h))
    ]
  ]

  tell_declined-Quiet : (frame : Frame) (p : Pairing) → Quiet (tell_declined w c frame p)
  unfolding tell_declined
  tell_declined-Quiet frame p s = elim (Bool-cases (s.core.live p.sender)) [
    | inr l ↦ rw (tell_declined, l) refl
    | inl l ↦ elim (Bool-cases (p.sender == c)) [
      | inl e ↦ rw (tell_declined, l, e) refl
      | inr e ↦
          let reason = text "the receiver declined" in
          rw (tell_declined, l, e)
            (then-Quiet (enqueue p.sender reject frame.payload >> request_close p.sender reason)
              (wake_for w.shard_count p.sender)
              (then-Quiet (enqueue p.sender reject frame.payload) (request_close p.sender reason)
                (enqueue-Quiet p.sender reject frame.payload) (request_close-Quiet p.sender reason))
              (wake_for-Quiet w.shard_count p.sender) s)
    ]
  ]

  end_pairing-KeepsAt :
      (k : Core) (s : Store L)
      → IsConsistent k
      → s.core ≡ k
      → KeepsAt s (end_pairing w (k.pairing_id c) c)
  unfolding end_pairing ◌>>◌ drop_pairing
  end_pairing-KeepsAt k s h same =
      let id = k.pairing_id c in
      let after = drop_pairing id k in
      let h' = drop_pairing-IsConsistent id k h in
      subst (λ x. IsConsistent (stand_down c (drop_pairing id x))) (sym same)
        (stand_down-IsConsistent c after h' (gone-IsStranger c after h' (dropped id k)))

  pub handle_reject-KeepsAt :
      (frame : Frame) (s : Store L) → IsConsistent s.core → KeepsAt s (handle_reject w c frame)
  unfolding handle_reject find_pairing
  handle_reject-KeepsAt frame s h =
      let id = s.core.pairing_id c in
      elim (Bool-cases (id == 0)) [
        | inl z ↦ rw z h
        | inr z ↦ elim (Option-cases (find id s.core.table.pairings)) [
          | inl e ↦
              rw (handle_reject, z, e)
                (stand_down-IsConsistent c s.core h (gone-IsStranger c s.core h e))
          | inr (p, e) ↦
              rw (handle_reject, z, e)
                (quiet-then IsConsistent (tell_declined w c frame p) (end_pairing w id c) s
                  (tell_declined-Quiet frame p) h (λ t same. end_pairing-KeepsAt s.core t h same))
        ]
      ]
