-- ===== src/Server/Action.antt =====
-- server/src/connection.cpp and server.cpp: one handler is an action on the state of the server. It
-- returns, or throws and leaves what it has written; `looping` is a loop whose fuel is short.
pub mod Quiet
use drop_zone.Base.{ℕ, Bool, true, false, List, [], ◌∷◌, ◌++◌, Option, leb, if◌then◌else◌}
use drop_zone.Base.Result.{Error, Result, ok, err}
use drop_zone.Wire.Header.{MessageType, type_byte, reject}
use drop_zone.Server.Claims.{lock}
use drop_zone.Server.Connection.{enqueue_frame}
use drop_zone.Server.Store.{Core, Store, set}

pub data Reply : Type 0 where
  returned : Reply
  threw : Error → Reply
  looping : Reply

abbrev pub Action : Type 0 → Type 0
Action L = Store L → Reply × Store L

module _ {L : Type 0} where
  -- An expression that may throw, and the rest of the body.
  abbrev pub with_result {ℓ} : {A : Type ℓ} → Result A → (A → Action L) → Action L
  with_result (ok a) rest s = rest a s
  with_result (err e) rest s = (threw e, s)

  -- `first; second`.
  abbrev pub after : Reply × Store L → Action L → Reply × Store L
  after (returned, s) second = second s
  after (threw e, s) second = (threw e, s)
  after (looping, s) second = (looping, s)

  infixl 5 ◌>>◌
  unfoldable pub ◌>>◌ : Action L → Action L → Action L
  (first >> second) s = after (first s) second

  abbrev pub done : Action L
  done s = (returned, s)

  abbrev pub modify : (Store L → Store L) → Action L
  modify f s = (returned, f s)

  abbrev pub on_core : (Core → Core) → Action L
  on_core f s = (returned, record s { core = f s.core })

  -- `enqueue_frame` on a connection: the frame has no flags.
  unfoldable pub enqueue : ℕ → MessageType → List ℕ → Action L
  enqueue c type payload s =
      with_result (enqueue_frame (type_byte type) 0 payload (s.output c))
        (λ queued. modify (λ t. record t { output = set c queued t.output })) s

  unfoldable pub request_close : ℕ → List ℕ → Action L
  request_close c reason s = if s.close_requested c then (returned, s) else (
    returned,
    record s {
      close_reason = set c reason s.close_reason;
      close_requested = set c true s.close_requested;
    },
  )

  unfoldable pub wake_for : ℕ → ℕ → Action L
  wake_for shard_count c s =
      let index = s.shard_index c in
      if leb shard_count index then (returned, s) else (
        returned,
        record s { wake_queue = set index (s.wake_queue index ++ s.fd c ∷ []) s.wake_queue },
      )

  unfoldable pub reject_and_close : ℕ → List ℕ → Action L
  reject_and_close c reason = enqueue c reject reason >> request_close c reason

  abbrev pub lock_in : Store L → ℕ → Option ℕ
  lock_in s c = lock s.core.live c
