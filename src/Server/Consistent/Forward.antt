-- ===== src/Server/Consistent/Forward.antt =====
-- server/src/server.cpp, `handle_relay_data`: what relaying does with the bytes of one side.
use drop_zone.Base.{
  ℕ, ◌≡◌, ◌≢◌, refl, sym, ap, ◌∙◌, inl, inr, Bool, true, false, ◌||◌, List, some, Bool-cases,
  Option-cases, length, ltb, leb, ◌≤◌, if◌then◌else◌, arith,
}
use drop_zone.Base.Result.{ok}
use drop_zone.Wire.Header.{type_byte, relay_data, max_frame_length}
use drop_zone.Wire.Stream.{Frame}
use drop_zone.Server.Connection.{Output, enqueue_frame, pending_output}
use drop_zone.Server.Store.{Store, World, set, set-here}
use drop_zone.Server.Action.{Reply, returned, ◌>>◌, enqueue, wake_for}
use drop_zone.Server.Handle.Relay.{handle_relay_data, forward, peer_of, relay_pause_threshold}
use drop_zone.Server.Consistent.Handlers.{IsOpen}
use drop_zone.Server.Consistent.Steps.{Reached, Reached-IsConsistent}
use drop_zone.Server.Consistent.Stranger.{set-other}

pause_lem :
    (c : ℕ) (full : Bool) (paused : ℕ → Bool)
    → (if full then set c true paused else paused) c ≡ full || paused c
pause_lem c true paused = set-here c true paused
pause_lem c false paused = refl

pause_other :
    (c d : ℕ) (full : Bool) (paused : ℕ → Bool)
    → d ≢ c
    → (if full then set c true paused else paused) d ≡ paused d
pause_other c d true paused n = set-other c d true paused n
pause_other c d false paused n = refl

enqueue_frame-ok :
    (type : ℕ) (payload : List ℕ) (c : Output)
    → length payload ≤ max_frame_length
    → (queued : Output) × (enqueue_frame type 0 payload c ≡ ok queued)
unfolding enqueue_frame
enqueue_frame-ok type payload c h =
    let short : ltb max_frame_length (length payload) ≡ false = ground arith in rw short (_, refl)

module _ {L : Type 0} where
  -- What forwarding to `peer` leaves.
  pub record IsForwarded (c peer : ℕ) (payload : List ℕ) (s : Store L) (r : Reply × Store L)
      : Type 0 where
    pub ends : r.0 ≡ returned
    pub same_core : r.1.core ≡ s.core
    pub queued :
        enqueue_frame (type_byte relay_data) 0 payload (s.output peer) ≡ ok (r.1.output peer)
    pub same_outputs : (d : ℕ) → d ≢ peer → r.1.output d ≡ s.output d
    pub paused :
        r.1.read_paused c
        ≡ (ltb relay_pause_threshold (pending_output (r.1.output peer)) || s.read_paused c)
    pub same_pauses : (d : ℕ) → d ≢ c → r.1.read_paused d ≡ s.read_paused d

  woken-IsForwarded :
      (c peer shard_count : ℕ) (payload : List ℕ) (s t : Store L)
      → IsForwarded c peer payload s (returned, t)
      → IsForwarded c peer payload s (wake_for shard_count peer t)
  unfolding wake_for
  woken-IsForwarded c peer shard_count payload s t h =
      elim (Bool-cases (leb shard_count (t.shard_index peer))) [
        | inl e ↦ rw e h
        | inr e ↦ rw e (record {
          ends = refl;
          same_core = h.same_core;
          queued = h.queued;
          same_outputs = h.same_outputs;
          paused = h.paused;
          same_pauses = h.same_pauses;
        })
      ]

  forward-IsForwarded :
      (w : World L) (c peer : ℕ) (frame : Frame) (s : Store L) (queued : Output)
      → enqueue_frame (type_byte relay_data) 0 frame.payload (s.output peer) ≡ ok queued
      → IsForwarded c peer frame.payload s (forward w c frame peer s)
  unfolding forward ◌>>◌ enqueue
  forward-IsForwarded w c peer frame s queued e =
      let output = set peer queued s.output in
      let here = set-here peer queued s.output in
      let full = ltb relay_pause_threshold (pending_output (output peer)) in
      rw e (
        woken-IsForwarded c peer w.shard_count frame.payload s _ (record {
          ends = refl;
          same_core = refl;
          queued = e ∙ ap ok (sym here);
          same_outputs = λ d n. set-other peer d queued s.output n;
          paused = pause_lem c full s.read_paused;
          same_pauses = λ d n. pause_other c d full s.read_paused n;
        }))

  peer_of-open :
      (w : World L) (c peer : ℕ) (s : Store L)
      → peer_of w s c ≡ some peer
      → (s.core.relay_peer c ≡ some peer) × (s.core.live peer ≡ true)
  peer_of-open w c peer s h = elim (Option-cases (s.core.relay_peer c)) [
    | inl e ↦ let h' = rw (peer_of, e) at h in cc
    | inr (d, e) ↦
        let h' = rw (peer_of, e) at h in
        elim (Bool-cases (s.core.live d)) [
          | inl l ↦
              let h2 = rw l at h' in let same : d ≡ peer = cc in (e ∙ ap some same, rw⁻¹ same l)
          | inr l ↦ let h2 = rw l at h' in cc
        ]
  ]

  -- In every reached state, for a payload of at most `max_frame_length` bytes from an open connection
  -- that has a relay peer which still exists: the handler returns; the payload goes as one RelayData
  -- frame to that peer, whose own relay peer the connection is, and no other output changes; reading
  -- from the connection is paused if more than 4 MiB are then pending for the peer; and no other
  -- connection's reading is paused or resumed.
  pub handle_relay_data-IsForwarded :
      (w : World L) (c peer : ℕ) (frame : Frame) (s : Store L)
      → Reached s
      → IsOpen c s
      → peer_of w s c ≡ some peer
      → length frame.payload ≤ max_frame_length
      → IsForwarded c peer frame.payload s (handle_relay_data w c frame s)
        × (peer_of w s peer ≡ some c)
  unfolding handle_relay_data
  handle_relay_data-IsForwarded w c peer frame s r o e short =
      let h = Reached-IsConsistent s r in
      let (known, alive) = peer_of-open w c peer s e in
      let (queued, fits) =
        enqueue_frame-ok (type_byte relay_data) frame.payload (s.output peer) short in
      (
        rw (handle_relay_data, e) (forward-IsForwarded w c peer frame s queued fits),
        rw (peer_of, h.both c peer known, o.exists) refl,
      )
