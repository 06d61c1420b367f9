-- ===== src/Tests/Limits.antt =====
-- The properties of the rate limiter, with a whole number of tokens or infinity for a `double`.
use drop_zone.Base.{
  ℕ, ◌+◌, ◌-◌, ◌*◌, ◌/◌, ◌≤◌, ◌≡◌, refl, Bool, true, false, [], Option, none, some, ltb, length,
  arith,
}
use drop_zone.Server.Map.{number_key, find, update}
use drop_zone.Server.RateLimiter.{Double, RateLimits, Buckets, ensure, refill, charge, consume}
use drop_zone.Server.RateLimiter.Bounds.{CountsTokens, burst_of, burst_of-units}

-- A whole number of tokens, or infinity.
abbrev of_numbers : (ℕ → ℕ → ℕ) → Option ℕ → Option ℕ → Option ℕ
of_numbers f (some a) (some b) = some (f a b)
of_numbers f _ _ = none

abbrev is_less : Option ℕ → Option ℕ → Bool
is_less (some a) (some b) = ltb a b
is_less (some a) none = true
is_less none b = false

instance abbrev whole_tokens : Double (Option ℕ)
whole_tokens = record {
  nought = some 0;
  one = some 1;
  minutes = λ ms. some (ms / 60000);
  plus = of_numbers (λ a b. a + b);
  minus = of_numbers (λ a b. a - b);
  times = of_numbers (λ a b. a * b);
  gt = λ a b. is_less b a;
  lt = is_less;
}

-- Infinity less a token is infinity, and is no count.
infinity_stays : of_numbers (λ a b. a - b) none (some 1) ≡ none
infinity_stays = refl

abbrev is_finite : Option ℕ → Bool
is_finite none = false
is_finite (some t) = true

abbrev units_in : Option ℕ → ℕ
units_in none = 0
units_in (some t) = t

minus-is_finite :
    (t : Option ℕ)
    → is_finite t ≡ true
    → is_less t (some 1) ≡ false
    → is_finite (of_numbers (λ a b. a - b) t (some 1)) ≡ true
minus-is_finite none k h = k
minus-is_finite (some t) k h = refl

minus-units_in :
    (t : Option ℕ)
    → is_finite t ≡ true
    → is_less t (some 1) ≡ false
    → units_in (of_numbers (λ a b. a - b) t (some 1)) + 1 ≤ units_in t
minus-units_in none k h = absurd (cc k)
minus-units_in (some t) k h = ground (arith, h)

abbrev whole_counts : CountsTokens (Option ℕ)
whole_counts = record {
  is_count = is_finite;
  units = units_in;
  minus-is_count = minus-is_finite;
  minus-units = minus-units_in;
  no_time = refl;
}

abbrev limits : RateLimits (Option ℕ)
limits = record {
  connections_per_minute = some 60;
  requests_per_minute = some 20;
  burst = some 10;
  max_buckets = 2;
}

abbrev no_buckets : Buckets (Option ℕ)
no_buckets = []

no_bucket : find 7 no_buckets ≡ none
unfolding find
no_bucket = refl

-- Of twelve requests ten are let pass.
twelve : (burst_of limits 12 7 1000 no_buckets).0 ≡ 10
unfolding burst_of consume ensure refill charge find update
twelve = refl

burst_of-units_example :
    ((burst_of limits 12 7 1000 no_buckets).0 ≤ 10)
    × (length (burst_of limits 12 7 1000 no_buckets).1 ≤ 2)
burst_of-units_example =
    burst_of-units limits whole_counts 12 7 1000 no_buckets refl (omega arith) no_bucket
      (omega arith) (omega arith)
