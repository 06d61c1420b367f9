-- ===== src/Server/RateLimiter/Bounds.antt =====
-- server/src/rate_limiter.cpp: how much a key may do, and how many buckets there are.
use drop_zone.Base.{
  ℕ, zero, suc, ◌+◌, ◌%◌, ◌^◌, ◌≤◌, ◌<◌, ◌-◌, ◌≡◌, refl, sym, ap, subst, inl, inr, Bool, true,
  false, [], ◌∷◌, none, some, length, Bool-cases, Option-cases, leb, ◌==◌, if◌then◌else◌, arith,
}
use drop_zone.Server.Map.{number_key, find, update, find-update, find-here}
use drop_zone.Server.RateLimiter.{
  Double, RateLimits, Bucket, Buckets, fresh, ensure, refill, charge, consume,
}

length-update :
    {W : Type 0} (key : ℕ) (f : Bucket W → Bucket W) (m : Buckets W)
    → length (update key f m) ≡ length m
unfolding update
length-update key f [] = refl
length-update key f ((k, b) ∷ m) = elim (Bool-cases (k == key)) [
  | inl t ↦ rw t refl
  | inr t ↦ rw t (ap suc (length-update key f m))
]

-- What the code relies on in a `double` that counts tokens. Only some values are counts: for IEEE 754
-- those from 0 to 2 ^ 52, where taking 1 away is exact, and neither an infinity nor NaN. `units` whole
-- tokens are in a count; a count of a token or more is, a token less, a count of one unit less; no time
-- earns nothing.
pub record CountsTokens (W : Type 0) ⦃d : Double W⦄ : Type 0 where
  pub is_count : W → Bool
  pub units : W → ℕ
  pub minus-is_count :
      (t : W) → is_count t ≡ true → d.lt t d.one ≡ false → is_count (d.minus t d.one) ≡ true
  pub minus-units :
      (t : W) → is_count t ≡ true → d.lt t d.one ≡ false → units (d.minus t d.one) + 1 ≤ units t
  pub no_time : d.gt (d.minutes 0) d.nought ≡ false

module _ {W : Type 0} ⦃d : Double W⦄ (limits : RateLimits W) where
  -- How many of `n` requests for one key at one time are let pass, and the table after them.
  unfoldable pub burst_of : ℕ → ℕ → ℕ → Buckets W → ℕ × Buckets W
  burst_of zero key now_ms buckets = (0, buckets)
  burst_of (suc n) key now_ms buckets =
      let (allowed, next) = consume limits key now_ms true buckets in
      let (more, last) = burst_of n key now_ms next in ((if allowed then more + 1 else more), last)

  ensure-length :
      (key now_ms : ℕ) (buckets : Buckets W)
      → 1 ≤ limits.max_buckets
      → length buckets ≤ limits.max_buckets
      → length (ensure limits key now_ms buckets).1 ≤ limits.max_buckets
  unfolding ensure
  ensure-length key now_ms buckets one h = elim (Option-cases (find key buckets)) [
    | inr (b, e) ↦ rw (ensure, e) h
    | inl e ↦ elim (Bool-cases (leb limits.max_buckets (length buckets))) [
      | inl t ↦ rw (ensure, e, t) one
      | inr t ↦ rw (ensure, e, t) (ground (arith, t))
    ]
  ]

  consume-length :
      (key now_ms : ℕ) (is_request : Bool) (buckets : Buckets W)
      → 1 ≤ limits.max_buckets
      → length buckets ≤ limits.max_buckets
      → length (consume limits key now_ms is_request buckets).1 ≤ limits.max_buckets
  unfolding consume
  consume-length key now_ms is_request buckets one h =
      let (bucket, held) = ensure limits key now_ms buckets in
      rw
        (length-update key (λ old. (charge limits is_request (refill limits now_ms bucket)).1) held)
        (ensure-length key now_ms buckets one h)

  module _ (counts : CountsTokens W) where
    refill_same :
        (now_ms : ℕ) (bucket : Bucket W)
        → now_ms < 2 ^ 64
        → bucket.last_refill_ms ≡ now_ms
        → refill limits now_ms bucket ≡ bucket
    unfolding refill
    refill_same now_ms bucket small same =
        let none_passed : (now_ms + 2 ^ 64 - bucket.last_refill_ms) % 2 ^ 64 ≡ 0 =
          omega (arith, same) in
        rw (refill, none_passed, counts.no_time) refl

    consume-charge :
        (key now_ms : ℕ) (buckets : Buckets W) (bucket : Bucket W)
        → now_ms < 2 ^ 64
        → find key buckets ≡ some bucket
        → bucket.last_refill_ms ≡ now_ms
        → consume limits key now_ms true buckets ≡ (
          (charge limits true bucket).0,
          update key (λ old. (charge limits true bucket).1) buckets,
        )
    unfolding consume ensure
    consume-charge key now_ms buckets bucket small f same =
        rw (consume, ensure, f, refill_same now_ms bucket small same) refl

    -- A key may do as much as its bucket holds units.
    spend :
        (n key now_ms : ℕ) (buckets : Buckets W) (bucket : Bucket W)
        → now_ms < 2 ^ 64
        → find key buckets ≡ some bucket
        → bucket.last_refill_ms ≡ now_ms
        → counts.is_count bucket.request_tokens ≡ true
        → (burst_of n key now_ms buckets).0 ≤ counts.units bucket.request_tokens
    unfolding burst_of charge
    spend zero key now_ms buckets bucket small f same k = omega arith
    spend (suc n) key now_ms buckets bucket small f same k =
        let step = consume-charge key now_ms buckets bucket small f same in
        elim (Bool-cases (d.lt bucket.request_tokens d.one)) [
          | inl t ↦
              let found = find-update key (λ old. bucket) buckets bucket f in
              rw (step, t)
                (spend n key now_ms (update key (λ old. bucket) buckets) bucket small found same k)
          | inr t ↦
              let less = record bucket { request_tokens = d.minus bucket.request_tokens d.one } in
              let found = find-update key (λ old. less) buckets bucket f in
              let rest =
                spend n key now_ms (update key (λ old. less) buckets) less small found same
                  (counts.minus-is_count bucket.request_tokens k t) in
              let fewer = counts.minus-units bucket.request_tokens k t in
              rw (step, t) (omega (arith, rest, fewer))
        ]

    consume-fresh :
        (key now_ms : ℕ) (buckets : Buckets W)
        → find key buckets ≡ none
        → (held : Buckets W) × (find key held ≡ some (fresh limits now_ms))
          × (consume limits key now_ms true buckets ≡ consume limits key now_ms true held)
    unfolding consume ensure
    consume-fresh key now_ms buckets e =
        let kept = if leb limits.max_buckets (length buckets) then [] else buckets in
        let held = (key, fresh limits now_ms) ∷ kept in
        let found = find-here key (fresh limits now_ms) kept in
        (held, found, rw (consume, ensure, e, found) refl)

    burst_of-length :
        (n key now_ms : ℕ) (buckets : Buckets W)
        → 1 ≤ limits.max_buckets
        → length buckets ≤ limits.max_buckets
        → length (burst_of n key now_ms buckets).1 ≤ limits.max_buckets
    unfolding burst_of
    burst_of-length zero key now_ms buckets one h = h
    burst_of-length (suc n) key now_ms buckets one h =
        burst_of-length n key now_ms (consume limits key now_ms true buckets).1 one
          (consume-length key now_ms true buckets one h)

    -- Where the burst is a count of tokens, a count of a token or more is a token less a count of one
    -- unit less, and no time earns nothing: of any number of requests that are made at one time for a key without a bucket, at most
    -- as many are let pass as the burst holds units; and with room for one bucket at least, a table of
    -- at most `max_buckets` buckets stays so.
    pub burst_of-units :
        (n key now_ms : ℕ) (buckets : Buckets W)
        → counts.is_count limits.burst ≡ true
        → now_ms < 2 ^ 64
        → find key buckets ≡ none
        → 1 ≤ limits.max_buckets
        → length buckets ≤ limits.max_buckets
        → ((burst_of n key now_ms buckets).0 ≤ counts.units limits.burst)
          × (length (burst_of n key now_ms buckets).1 ≤ limits.max_buckets)
    unfolding burst_of
    burst_of-units zero key now_ms buckets k small e one h = (omega arith, h)
    burst_of-units (suc n) key now_ms buckets k small e one h =
        let (held, found, same) = consume-fresh key now_ms buckets e in
        let within = spend (suc n) key now_ms held (fresh limits now_ms) small found refl k in
        (
          subst
              (λ r.
                (let (more, last) = burst_of n key now_ms r.1 in if r.0 then more + 1 else more)
                ≤ counts.units limits.burst)
              (sym same) within,
          burst_of-length (suc n) key now_ms buckets one h,
        )
