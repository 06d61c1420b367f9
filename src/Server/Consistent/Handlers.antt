-- ===== src/Server/Consistent/Handlers.antt =====
-- server/src/server.cpp, `handle_client_hello` as a whole, and what the proofs about handlers share.
use drop_zone.Base.{
  ℕ, ◌<◌, ◌++◌, ◌≡◌, ◌≢◌, refl, sym, subst, inl, inr, Bool, true, ◌&&◌, List, [], Bool-cases,
  if◌then◌else◌, same_bytes, arith,
}
use drop_zone.Base.Result.{Result, ok, err}
use drop_zone.Wire.Stream.{Frame}
use drop_zone.Protocol.Message.Hello.{ClientHello, decode_client_hello}
use drop_zone.Server.Claims.{claim}
use drop_zone.Server.Group.{awaiting_hello, closing, is_idle}
use drop_zone.Server.Store.{Core, Store, World, set}
use drop_zone.Server.Text.{text}
use drop_zone.Server.Action.{
  Action, with_result, ◌>>◌, done, on_core, request_close, reject_and_close,
}
use drop_zone.Server.Action.Quiet.{
  Quiet, if-Quiet, enqueue-Quiet, request_close-Quiet, reject_and_close-Quiet, after-keeps,
}
use drop_zone.Server.Handle.Hello.{
  handle_client_hello, accept_hello, first_hello, answer_hello, note_hello, greet, take_name,
  is_receiver, is_granted, claim_message,
}
use drop_zone.Server.Consistent.{IsConsistent}
use drop_zone.Server.Consistent.Hello.{
  greet-IsConsistent, become_sender-IsConsistent, take_name-IsConsistent,
}

greet-here : (c : ℕ) (k : Core) → (greet c k).hello_received c ≡ true
unfolding greet set
greet-here c k = ground arith

module _ {L : Type 0} where
  -- A connection that a frame is handled for exists and is not closing.
  pub record IsOpen (c : ℕ) (s : Store L) : Type 0 where
    pub exists : s.core.live c ≡ true
    pub stays : s.core.state c ≢ closing

  abbrev pub KeepsAt : Store L → Action L → Type 0
  KeepsAt s m = IsConsistent (m s).1.core

  pub Quiet-KeepsAt : (m : Action L) → Quiet m → (s : Store L) → IsConsistent s.core → KeepsAt s m
  Quiet-KeepsAt m q s h = subst IsConsistent (sym (q s)) h

  -- A change of the core that keeps it consistent, and then quiet actions.
  pub change-KeepsAt :
      (f : Core → Core) (m : Action L)
      → Quiet m
      → (s : Store L) → IsConsistent (f s.core)
      → KeepsAt s (on_core f >> m)
  unfolding ◌>>◌
  change-KeepsAt f m q s h = Quiet-KeepsAt m q (record s { core = f s.core }) h

  pub with_result-KeepsAt :
      {A : Type 0} (r : Result A) (rest : A → Action L) (s : Store L)
      → IsConsistent s.core
      → ((a : A) → KeepsAt s (rest a))
      → KeepsAt s (with_result r rest)
  with_result-KeepsAt (ok a) rest s h k = k a
  with_result-KeepsAt (err e) rest s h k = h

  module _ (w : World L) (c : ℕ) where
    pub answer_hello-Quiet :
        (hello : ClientHello) (accepted : Bool) (message : List ℕ)
        → Quiet (answer_hello w c hello accepted message)
    unfolding answer_hello
    answer_hello-Quiet hello accepted message s = enqueue-Quiet c _ _ s

    first_hello-KeepsAt :
        (hello : ClientHello) (s : Store L)
        → IsConsistent s.core
        → s.core.state c ≡ awaiting_hello
        → s.core.hello_received c ≡ true
        → s.core.claimed_username c ≡ []
        → c < s.core.next_object
        → KeepsAt s (first_hello w c hello)
    unfolding first_hello ◌>>◌
    first_hello-KeepsAt hello s h a g fresh small = elim (Bool-cases (is_receiver hello.role)) [
      | inl t ↦
          let result = (claim s.core.live hello.username c s.core.claims).0 in
          let message = claim_message hello.username result in
          rw t (
            after-keeps IsConsistent
              (answer_hello w c hello (is_granted result) message
                (record s { core = take_name c hello.username s.core }))
              (if is_granted result then done else request_close c message)
              (Quiet-KeepsAt (answer_hello w c hello (is_granted result) message)
                (answer_hello-Quiet hello (is_granted result) message) _
                (take_name-IsConsistent c hello.username s.core h a g fresh small))
              (Quiet-KeepsAt (if is_granted result then done else request_close c message) (
                if-Quiet (is_granted result) done (request_close c message) (λ t. refl)
                  (request_close-Quiet c message))))
      | inr t ↦ rw t (
          Quiet-KeepsAt (answer_hello w c hello true []) (answer_hello-Quiet hello true []) _
            (become_sender-IsConsistent c s.core h a g))
    ]

    accept_hello-KeepsAt :
        (hello : ClientHello) (s : Store L)
        → IsConsistent s.core
        → IsOpen c s
        → KeepsAt s (accept_hello w c hello)
    unfolding accept_hello note_hello ◌>>◌ greet
    accept_hello-KeepsAt hello s h o =
        let name = s.core.claimed_username c in
        let rest =
          is_idle (s.core.state c) && is_receiver hello.role && same_bytes hello.username name in
        let noted = record s { core = greet c s.core; hello = set c hello s.hello } in
        elim (Bool-cases (s.core.hello_received c)) [
          | inr f ↦
              let (unnamed, waiting) = h.silent c f in
              rw f (
                first_hello-KeepsAt hello noted (greet-IsConsistent c s.core h) (waiting o.stays)
                  (greet-here c s.core) unnamed (h.exist c o.exists))
          | inl t ↦ elim (Bool-cases rest) [
            | inl r ↦
                let message = text "still accepting as " ++ name in
                rw (t, r)
                  (Quiet-KeepsAt (answer_hello w c hello true message)
                    (answer_hello-Quiet hello true message) noted (greet-IsConsistent c s.core h))
            | inr r ↦
                let reason = text "hello sent twice" in
                rw (t, r)
                  (Quiet-KeepsAt (reject_and_close c reason) (reject_and_close-Quiet c reason) s h)
          ]
        ]

    pub handle_client_hello-KeepsAt :
        (frame : Frame) (s : Store L)
        → IsConsistent s.core
        → IsOpen c s
        → KeepsAt s (handle_client_hello w c frame)
    unfolding handle_client_hello
    handle_client_hello-KeepsAt frame s h o =
        with_result-KeepsAt (decode_client_hello frame.payload) (accept_hello w c) s h
          (λ hello. accept_hello-KeepsAt hello s h o)
