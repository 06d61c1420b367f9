-- ===== src/Base/Result.antt =====
-- Failures of the C++ code as values (common/include/dz/error.hpp). Every `fail(...)` of the
-- modelled code is a constructor that carries the numbers or bytes its message is built from.
use Prim.Native.Nat.{ℕ}
use mathlib.Core.Path.{◌≡◌, refl}
use mathlib.Core.Logic.{◌⊎◌, inl, inr}
use mathlib.Core.List.{List}

pub data Error : Type 0 where
  -- common/src/frame.cpp
  version_mismatch frame_too_long : ℕ → Error
  refused_oversized : Error
  unexpected_frame : ℕ → ℕ → Error
  peer_aborted : List ℕ → Error
  truncated wrong_field_length : ℕ → ℕ → Error
  unknown_family endpoint_count : ℕ → Error
  -- common/src/protocol.cpp
  unknown_role invalid_username unknown_transport invalid_group unknown_outcome : Error
  roster_too_long reflexive_too_large unknown_cipher unusable_chunk_size : Error
  too_many_files : ℕ → Error
  total_mismatch : Error
  unsafe_path : List ℕ → Error
  -- client/src/reliable_udp.cpp
  reorder_overflow : Error
  peer_closed : Error
  timed_out : ℕ → Error

pub data Result {ℓ} (A : Type ℓ) : Type ℓ where
  ok : A → Result A
  err : Error → Result A

pub Result-cases {ℓ} :
    {A : Type ℓ} (m : Result A) → ((a : A) × (m ≡ ok a)) ⊎ ((e : Error) × (m ≡ err e))
Result-cases (ok a) = inl (a, refl)
Result-cases (err e) = inr (e, refl)
