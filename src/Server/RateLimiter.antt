-- ===== src/Server/RateLimiter.antt =====
-- server/src/rate_limiter.cpp: a token bucket for every key. What the code does with a `double` is an
-- interface; `key_for`, a keyed hash of libcrypto, is an argument.
pub mod Bounds
use drop_zone.Base.{
  ℕ, ◌+◌, ◌-◌, ◌/◌, ◌%◌, ◌^◌, Bool, true, false, List, [], ◌∷◌, Option, none, some, length, ltb,
  leb, if◌then◌else◌,
}
use drop_zone.Wire.Endpoint.{Endpoint}
use drop_zone.Server.Map.{number_key, find, update}
use drop_zone.Server.Store.{World, ServerOptions}

-- `minutes n` is `static_cast<double>(n) / 60'000.0`.
pub record Double (W : Type 0) : Type 0 where
  pub nought : W
  pub one : W
  pub minutes : ℕ → W
  pub plus : W → W → W
  pub minus : W → W → W
  pub times : W → W → W
  pub gt : W → W → Bool
  pub lt : W → W → Bool

pub record RateLimits (W : Type 0) : Type 0 where
  pub connections_per_minute : W
  pub requests_per_minute : W
  pub burst : W
  pub max_buckets : ℕ

pub record Bucket (W : Type 0) : Type 0 where
  pub connection_tokens : W
  pub request_tokens : W
  pub last_refill_ms : ℕ

abbrev pub Buckets : Type 0 → Type 0
Buckets W = List (ℕ × Bucket W)

module _ {W : Type 0} ⦃d : Double W⦄ (limits : RateLimits W) where
  abbrev pub fresh : ℕ → Bucket W
  fresh now_ms = record {
    connection_tokens = limits.burst;
    request_tokens = limits.burst;
    last_refill_ms = now_ms;
  }

  -- The bucket of the key, made if there is none; a full table is cleared first.
  unfoldable pub ensure : ℕ → ℕ → Buckets W → Bucket W × Buckets W
  ensure key now_ms buckets = elim (find key buckets) [
    | some bucket ↦ (bucket, buckets)
    | none ↦
        let kept = if leb limits.max_buckets (length buckets) then [] else buckets in
        (fresh now_ms, (key, fresh now_ms) ∷ kept)
  ]

  abbrev pub capped : W → W
  capped tokens = if d.gt tokens limits.burst then limits.burst else tokens

  -- The time since the last refill is a difference of uint64_t.
  unfoldable pub refill : ℕ → Bucket W → Bucket W
  refill now_ms bucket =
      let elapsed = d.minutes ((now_ms + 2 ^ 64 - bucket.last_refill_ms) % 2 ^ 64) in
      let earned = λ (rate : W). d.times elapsed rate in
      if d.gt elapsed d.nought
      then record {
        connection_tokens =
            capped (d.plus bucket.connection_tokens (earned limits.connections_per_minute));
        request_tokens = capped (d.plus bucket.request_tokens (earned limits.requests_per_minute));
        last_refill_ms = now_ms;
      }
      else bucket

  unfoldable pub charge : Bool → Bucket W → Bool × Bucket W
  charge is_request bucket =
      let tokens = if is_request then bucket.request_tokens else bucket.connection_tokens in
      let rest = d.minus tokens d.one in
      if d.lt tokens d.one then (false, bucket) else (
        true,
        if is_request
            then record bucket { request_tokens = rest }
            else record bucket { connection_tokens = rest },
      )

  unfoldable pub consume : ℕ → ℕ → Bool → Buckets W → Bool × Buckets W
  consume key now_ms is_request buckets =
      let (bucket, held) = ensure key now_ms buckets in
      let (allowed, last) = charge is_request (refill now_ms bucket) in
      (allowed, update key (λ old. last) held)

  unfoldable pub allow_connection : ℕ → ℕ → Buckets W → Bool × Buckets W
  allow_connection key now_ms buckets = consume key now_ms false buckets

  unfoldable pub allow_request : ℕ → ℕ → Buckets W → Bool × Buckets W
  allow_request key now_ms buckets = consume key now_ms true buckets

-- How many are removed, and what is left; the age is a difference of uint64_t.
unfoldable pub evict_idle : {W : Type 0} → ℕ → ℕ → Buckets W → ℕ × Buckets W
evict_idle now_ms idle_ms [] = (0, [])
evict_idle now_ms idle_ms ((key, bucket) ∷ rest) =
    let (removed, left) = evict_idle now_ms idle_ms rest in
    if ltb idle_ms ((now_ms + 2 ^ 64 - bucket.last_refill_ms) % 2 ^ 64)
    then (removed + 1, left)
    else (removed, (key, bucket) ∷ left)

-- The limiter as the handlers call it.
abbrev pub limited :
    {W : Type 0}
    → ⦃d : Double W⦄ → RateLimits W
    → (Endpoint → ℕ)
    → (List ℕ → List ℕ → Bool)
    → ℕ
    → ServerOptions
    → ℕ
    → ℕ
    → World (Buckets W)
limited limits key_for equal random options shard_count now_ms = record {
  allow_connection = allow_connection limits;
  allow_request = allow_request limits;
  evict_idle = λ now idle buckets. (evict_idle now idle buckets).1;
  key_for = key_for;
  equal = equal;
  random = random;
  options = options;
  shard_count = shard_count;
  now_ms = now_ms;
}
