-- ===== src/Server/Action/Quiet.antt =====
-- Actions of the server that leave names, pairings and the states of connections alone, and what a
-- sequence of actions keeps.
use drop_zone.Base.{
  ℕ, ◌≡◌, refl, sym, subst, ◌∙◌, inl, inr, Bool, true, false, List, Bool-cases, leb, ltb, length,
  if◌then◌else◌,
}
use drop_zone.Base.Result.{Result, ok, err}
use drop_zone.Wire.Header.{MessageType, max_frame_length}
use drop_zone.Server.Connection.{enqueue_frame}
use drop_zone.Server.Store.{Core, Store}
use drop_zone.Server.Action.{
  Reply, returned, threw, looping, Action, with_result, after, ◌>>◌, enqueue, request_close,
  wake_for, reject_and_close,
}

module _ {L : Type 0} where
  abbrev pub Quiet : Action L → Type 0
  Quiet m = (s : Store L) → (m s).1.core ≡ s.core

  pub after-core : (r : Reply × Store L) (n : Action L) → Quiet n → (after r n).1.core ≡ r.1.core
  after-core (returned, s) n q = q s
  after-core (threw e, s) n q = refl
  after-core (looping, s) n q = refl

  pub then-Quiet : (m n : Action L) → Quiet m → Quiet n → Quiet (m >> n)
  unfolding ◌>>◌
  then-Quiet m n p q s = after-core (m s) n q ∙ p s

  pub with_result-Quiet :
      {A : Type 0} (r : Result A) (rest : A → Action L)
      → ((a : A) → Quiet (rest a))
      → Quiet (with_result r rest)
  with_result-Quiet (ok a) rest q s = q a s
  with_result-Quiet (err e) rest q s = refl

  pub if-Quiet : (b : Bool) (m n : Action L) → Quiet m → Quiet n → Quiet (if b then m else n)
  if-Quiet true m n p q = p
  if-Quiet false m n p q = q

  pub enqueue-Quiet :
      (c : ℕ) (type : MessageType) (payload : List ℕ) → Quiet (enqueue c type payload)
  unfolding enqueue
  enqueue-Quiet c type payload s = with_result-Quiet _ _ (λ queued t. refl) s

  pub request_close-Quiet : (c : ℕ) (reason : List ℕ) → Quiet (request_close c reason)
  unfolding request_close
  request_close-Quiet c reason s = elim (Bool-cases (s.close_requested c)) [
    | inl t ↦ rw t refl
    | inr t ↦ rw t refl
  ]

  pub wake_for-Quiet : (shard_count c : ℕ) → Quiet (wake_for shard_count c)
  unfolding wake_for
  wake_for-Quiet shard_count c s = elim (Bool-cases (leb shard_count (s.shard_index c))) [
    | inl t ↦ rw t refl
    | inr t ↦ rw t refl
  ]

  pub reject_and_close-Quiet : (c : ℕ) (reason : List ℕ) → Quiet (reject_and_close c reason)
  unfolding reject_and_close
  reject_and_close-Quiet c reason =
      then-Quiet (enqueue c _ reason) (request_close c reason) (enqueue-Quiet c _ reason)
        (request_close-Quiet c reason)

  -- What holds of the core after the first action, and is kept by the second, holds after both.
  pub after-keeps :
      (P : Core → Type 0) (r : Reply × Store L) (n : Action L)
      → P r.1.core
      → ((s : Store L) → P s.core → P (n s).1.core)
      → P (after r n).1.core
  after-keeps P (returned, s) n h k = k s h
  after-keeps P (threw e, s) n h k = h
  after-keeps P (looping, s) n h k = h

  after-then :
      (P : Core → Type 0) (r : Reply × Store L) (n : Action L) (k : Core)
      → r.1.core ≡ k
      → P k
      → ((t : Store L) → t.core ≡ k → P (n t).1.core)
      → P (after r n).1.core
  after-then P (returned, s) n k e h f = f s e
  after-then P (threw x, s) n k e h f = subst P (sym e) h
  after-then P (looping, s) n k e h f = subst P (sym e) h

  -- After a quiet action, the second starts from the core that the first found; if the first throws,
  -- that core is left.
  pub quiet-then :
      (P : Core → Type 0) (m n : Action L) (s : Store L)
      → Quiet m
      → P s.core
      → ((t : Store L) → t.core ≡ s.core → P (n t).1.core)
      → P ((m >> n) s).1.core
  unfolding ◌>>◌
  quiet-then P m n s q h k = after-then P (m s) n s.core (q s) h k

  -- A quiet action that always returns.
  abbrev pub Calm : Action L → Type 0
  Calm m = (s : Store L) → ((m s).0 ≡ returned) × ((m s).1.core ≡ s.core)

  after-returned :
      (P : Reply × Store L → Type 0) (r : Reply × Store L) (n : Action L)
      → r.0 ≡ returned
      → P (n r.1)
      → P (after r n)
  after-returned P (returned, s) n e h = h
  after-returned P (threw x, s) n e h = cc
  after-returned P (looping, s) n e h = cc

  -- What follows a calm action starts from the same core.
  pub calm-then :
      (P : Core → Type 0) (m n : Action L) (s : Store L)
      → Calm m
      → ((t : Store L) → t.core ≡ s.core → P (n t).1.core)
      → P ((m >> n) s).1.core
  unfolding ◌>>◌
  calm-then P m n s q k = after-returned (λ r. P r.1.core) (m s) n (q s).0 (k (m s).1 (q s).1)

  pub then-Calm : (m n : Action L) → Calm m → Calm n → Calm (m >> n)
  unfolding ◌>>◌
  then-Calm m n p q s =
      let (ends, same) = q (m s).1 in
      after-returned (λ r. (r.0 ≡ returned) × (r.1.core ≡ s.core)) (m s) n (p s).0
        (ends, same ∙ (p s).1)

  request_close-returns :
      (c : ℕ) (reason : List ℕ) (s : Store L) → (request_close c reason s).0 ≡ returned
  unfolding request_close
  request_close-returns c reason s = elim (Bool-cases (s.close_requested c)) [
    | inl t ↦ rw t refl
    | inr t ↦ rw t refl
  ]

  wake_for-returns : (shard_count c : ℕ) (s : Store L) → (wake_for shard_count c s).0 ≡ returned
  unfolding wake_for
  wake_for-returns shard_count c s = elim (Bool-cases (leb shard_count (s.shard_index c))) [
    | inl t ↦ rw t refl
    | inr t ↦ rw t refl
  ]

  pub enqueue-returns :
      (c : ℕ) (type : MessageType) (payload : List ℕ) (s : Store L)
      → ltb max_frame_length (length payload) ≡ false
      → (enqueue c type payload s).0 ≡ returned
  unfolding enqueue enqueue_frame
  enqueue-returns c type payload s short = rw short refl

  -- A frame that fits, the request to close, and the wake.
  pub parting-Calm :
      (c shard_count : ℕ) (type : MessageType) (payload reason : List ℕ)
      → ltb max_frame_length (length payload) ≡ false
      → Calm (enqueue c type payload >> request_close c reason >> wake_for shard_count c)
  parting-Calm c shard_count type payload reason short =
      then-Calm (enqueue c type payload >> request_close c reason) (wake_for shard_count c)
        (then-Calm (enqueue c type payload) (request_close c reason)
          (λ s. (enqueue-returns c type payload s short, enqueue-Quiet c type payload s))
          (λ s. (request_close-returns c reason s, request_close-Quiet c reason s)))
        (λ s. (wake_for-returns shard_count c s, wake_for-Quiet shard_count c s))
