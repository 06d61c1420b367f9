-- ===== src/Server/Consistent/Steps.antt =====
-- The steps of server/src/server.cpp, one handler after the other; the handlers of two shards are not
-- interleaved.
use drop_zone.Base.{
  ℕ, ◌≡◌, ◌≢◌, refl, sym, subst, ap, ◌∙◌, ◌⊎◌, inl, inr, Bool, true, false, [], ◌++◌, none, some,
  ◌==◌, if◌then◌else◌,
}
use drop_zone.Wire.Header.{
  MessageType, type_byte, client_hello, send_request, group_query, group_join, group_send_request,
  accept, reject, relay_open, relay_data, relay_close, keep_alive, bye,
}
use drop_zone.Wire.Endpoint.{Endpoint}
use drop_zone.Wire.Stream.{Frame}
use drop_zone.Server.Map.{name_key, number_key, find}
use drop_zone.Server.Claims.{lookup}
use drop_zone.Server.Pairing.{Pairing, new_pairing_table, find_pairing}
use drop_zone.Server.Group.{awaiting_hello}
use drop_zone.Server.Store.{Core, Store, World}
use drop_zone.Server.Text.{text, message_type_name}
use drop_zone.Server.Action.{Action, request_close, reject_and_close}
use drop_zone.Server.Handle.Groups.{
  handle_group_query, handle_group_join, handle_group_send_request,
}
use drop_zone.Server.Handle.Relay.{handle_relay_close}
use drop_zone.Server.Action.Quiet.{request_close-Quiet, reject_and_close-Quiet}
use drop_zone.Server.Handle.{handle_frame}
use drop_zone.Server.Closing.{destroy_closed, close_connection, run_maintenance, accept_connection}
use drop_zone.Server.Consistent.{IsConsistent, IsPaired}
use drop_zone.Server.Consistent.Closing.{destroy_closed-IsConsistent}
use drop_zone.Server.Consistent.Handlers.{
  IsOpen, KeepsAt, Quiet-KeepsAt, handle_client_hello-KeepsAt,
}
use drop_zone.Server.Consistent.Introducing.{
  handle_send_request-KeepsAt, handle_accept-KeepsAt, handle_reject-KeepsAt,
}
use drop_zone.Server.Consistent.Relaying.{
  handle_group_query-Quiet, handle_group_join-Quiet, handle_group_send_request-Quiet,
  handle_relay_open-KeepsAt, handle_relay_data-KeepsAt, handle_relay_close-Quiet,
}
use drop_zone.Server.Consistent.Leaving.{
  close_connection-KeepsAt, run_maintenance-KeepsAt, accept_connection-KeepsAt,
}

abbrev pub new_core : Core
new_core = record {
  live = λ c. false;
  state = λ c. awaiting_hello;
  hello_received = λ c. false;
  claimed_username = λ c. [];
  pairing_id = λ c. 0;
  relay_peer = λ c. none;
  claims = [];
  table = new_pairing_table;
  next_object = 0;
}

new_core-IsConsistent : IsConsistent new_core
unfolding find
new_core-IsConsistent = record {
  owned = λ name c f. cc;
  held = λ c l. cc;
  paired = λ id p f. cc;
  single = λ c h. refl;
  silent = λ c h. (refl, λ n. refl);
  apart = λ c d e. cc;
  both = λ c d e. cc;
  made = λ name c f. cc;
  distinct = tt;
  exist = λ c l. cc;
  relays = λ c d e. cc;
}

module _ {L : Type 0} where
  if-KeepsAt :
      (b : Bool) (m n : Action L) (s : Store L)
      → KeepsAt s m
      → KeepsAt s n
      → KeepsAt s (if b then m else n)
  if-KeepsAt true m n s h k = h
  if-KeepsAt false m n s h k = k

  pub handle_frame-KeepsAt :
      (w : World L) (c : ℕ) (frame : Frame) (s : Store L)
      → IsConsistent s.core
      → IsOpen c s
      → KeepsAt s (handle_frame w c frame)
  unfolding handle_frame
  handle_frame-KeepsAt w c frame s h o =
      let said_bye = text "peer said goodbye" in
      let invalid =
        text "a " ++ (message_type_name frame.header.type ++ text " frame is not valid here") in
      let is = λ (m : MessageType). frame.header.type == type_byte m in
      if-KeepsAt (is client_hello) _ _ s (handle_client_hello-KeepsAt w c frame s h o) (
        if-KeepsAt (is send_request) _ _ s (handle_send_request-KeepsAt w c frame s h o) (
          if-KeepsAt (is group_query) _ _ s
            (Quiet-KeepsAt (handle_group_query c frame) (handle_group_query-Quiet w c frame) s h)
            (if-KeepsAt (is group_join) _ _ s
              (Quiet-KeepsAt (handle_group_join w c frame) (handle_group_join-Quiet w c frame) s h)
              (if-KeepsAt (is group_send_request) _ _ s
                (Quiet-KeepsAt (handle_group_send_request w c frame)
                  (handle_group_send_request-Quiet w c frame) s h)
                (if-KeepsAt (is accept) _ _ s (handle_accept-KeepsAt w c frame s h) (
                  if-KeepsAt (is reject) _ _ s (handle_reject-KeepsAt w c frame s h) (
                    if-KeepsAt (is relay_open) _ _ s (handle_relay_open-KeepsAt w c frame s h) (
                      if-KeepsAt (is relay_data) _ _ s (handle_relay_data-KeepsAt w c frame s h) (
                        if-KeepsAt (is relay_close) _ _ s
                          (Quiet-KeepsAt (handle_relay_close w c frame)
                            (handle_relay_close-Quiet w c frame) s h)
                          (if-KeepsAt (is keep_alive) _ _ s h (
                            if-KeepsAt (is bye) _ _ s
                              (Quiet-KeepsAt (request_close c said_bye)
                                (request_close-Quiet c said_bye) s h)
                              (Quiet-KeepsAt (reject_and_close c invalid)
                                (reject_and_close-Quiet c invalid) s h))))))))))))

-- One step, at any clock and with any answers of what the server calls.
pub data Step {L : Type 0} : Store L → Store L → Type 0 where
  accepts :
      (w : World L) (shard fd : ℕ) (observed : Endpoint) (s : Store L)
      → Step s (accept_connection w shard fd observed s).1
  handles :
      (w : World L) (c : ℕ) (frame : Frame) (s : Store L)
      → IsOpen c s
      → Step s (handle_frame w c frame s).1
  closes : (w : World L) (c : ℕ) (s : Store L) → Step s (close_connection w c s).1
  maintains :
      (w : World L) (shard now_ms : ℕ) (s : Store L) → Step s (run_maintenance w shard now_ms s).1
  destroys : (s : Store L) → Step s (record s { core = destroy_closed s.core })
  -- Reading and writing the sockets changes buffers only.
  transmits : (s t : Store L) → t.core ≡ s.core → Step s t

pub data Reached {L : Type 0} : Store L → Type 0 where
  starts : (s : Store L) → s.core ≡ new_core → Reached s
  steps : (s t : Store L) → Reached s → Step s t → Reached t

end-knows :
    (k : Core) (id : ℕ) (p : Pairing) (c : ℕ)
    → IsPaired k id p
    → (p.sender ≡ c) ⊎ (p.receiver ≡ c)
    → k.pairing_id c ≡ id
end-knows k id p c (nonzero, apart, first, second) (inl e) = ap k.pairing_id (sym e) ∙ first.knows
end-knows k id p c (nonzero, apart, first, second) (inr e) = ap k.pairing_id (sym e) ∙ second.knows

module _ {L : Type 0} where
  Step-IsConsistent : (s t : Store L) → Step s t → IsConsistent s.core → IsConsistent t.core
  Step-IsConsistent _ _ (accepts w shard fd observed s) h =
      accept_connection-KeepsAt w shard fd observed s h
  Step-IsConsistent _ _ (handles w c frame s o) h = handle_frame-KeepsAt w c frame s h o
  Step-IsConsistent _ _ (closes w c s) h = close_connection-KeepsAt w c s h
  Step-IsConsistent _ _ (maintains w shard now_ms s) h = run_maintenance-KeepsAt w shard now_ms s h
  Step-IsConsistent _ _ (destroys s) h = destroy_closed-IsConsistent s.core h
  Step-IsConsistent _ _ (transmits s t e) h = subst IsConsistent (sym e) h

  -- Names and pairings are consistent in every state that is reached from a server without
  -- connections by steps of which each is one connection that is accepted, one frame of an open
  -- connection that is handled, one connection that is closed, one round of maintenance, the end of
  -- the objects that were closed, or reading and writing sockets; a handler that throws is a step too.
  pub Reached-IsConsistent : (s : Store L) → Reached s → IsConsistent s.core
  Reached-IsConsistent _ (starts s e) = subst IsConsistent (sym e) new_core-IsConsistent
  Reached-IsConsistent _ (steps s t r step) = Step-IsConsistent s t step (Reached-IsConsistent s r)

  -- In every reached state a name that an open connection has claimed leads to that connection, and no
  -- other open connection has claimed it.
  pub Reached-lookup :
      (s : Store L) (c : ℕ)
      → Reached s
      → IsOpen c s
      → s.core.claimed_username c ≢ []
      → (lookup s.core.live (s.core.claimed_username c) s.core.claims ≡ some c)
        × ((d : ℕ) → IsOpen d s → s.core.claimed_username d ≡ s.core.claimed_username c → d ≡ c)
  unfolding lookup
  Reached-lookup s c r o n =
      let h = Reached-IsConsistent s r in
      let found = h.held c o.exists o.stays n in
      (
        rw (lookup, found, o.exists) refl,
        λ d p e.
            let other = h.held d p.exists p.stays (λ z. n (sym e ∙ z)) in
            let same : some d ≡ some c =
              sym other ∙ ap (λ name. find name s.core.claims) e ∙ found in
            cc,
      )

  -- In every reached state a pairing that is found has two different ends that exist, are not closing
  -- and have its id, which is not 0; and two pairings that share an end are one pairing.
  pub Reached-find_pairing :
      (s : Store L) (id other : ℕ) (p q : Pairing)
      → Reached s
      → find_pairing id s.core.table.pairings ≡ some p
      → find_pairing other s.core.table.pairings ≡ some q
      → IsPaired s.core id p
        × ((c : ℕ)
            → (p.sender ≡ c) ⊎ (p.receiver ≡ c)
            → (q.sender ≡ c) ⊎ (q.receiver ≡ c)
            → (id ≡ other) × (p ≡ q))
  unfolding find_pairing
  Reached-find_pairing s id other p q r f g =
      let h = Reached-IsConsistent s r in
      let paired = h.paired id p f in
      let paired' = h.paired other q g in
      (
        paired,
        λ c x y.
            let same : id ≡ other =
              sym (end-knows s.core id p c paired x) ∙ end-knows s.core other q c paired' y in
            (same, let g' = ap (λ i. find i s.core.table.pairings) same in cc),
      )
