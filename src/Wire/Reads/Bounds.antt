-- ===== src/Wire/Reads/Bounds.antt =====
-- The reader never passes the end of its buffer: what each parser does to the cursor, and the rules
-- by which a whole decoder is followed.
use drop_zone.Base.{
  ℕ, zero, suc, ◌*◌, ◌≤◌, ◌≡◌, refl, ◌∙◌, Bool, true, false, List, take, length, arith, ltb, ◌==◌,
  if◌then◌else◌,
}
use mathlib.Core.Logic.{inl, inr}
use drop_zone.Base.Result.{Error, endpoint_count, ok, Result-cases}
use drop_zone.Wire.Endian.{byte, load_u16, load_u32, load_u64}
use drop_zone.Wire.Reader.{
  Reader, Parser, remaining, advance, pure, fail, fail_if, ◌>>=◌, ◌>>◌, need, at_cursor, take_u8,
  take_u16, take_u32, take_u64, take_bool, take_raw, take_bytes, take_fixed, take_string,
  take_address, take_endpoint, take_each, take_endpoints,
}

-- The buffer is the same, and the cursor has moved forward within it.
pub record Moved (r r' : Reader) : Type 0 where
  pub same : r'.bytes ≡ r.bytes
  pub forward : r.offset ≤ r'.offset
  pub within : r'.offset ≤ length r'.bytes

-- Wherever `m` succeeds it moves the cursor within the buffer.
pub record Stays {ℓ} {A : Type ℓ} (m : Parser A) : Type ℓ where
  pub apply :
      (r : Reader)
      → r.offset ≤ length r.bytes
      → (a : A) (r' : Reader) → m r ≡ ok (a, r')
      → Moved r r'

Moved-trans : {r s t : Reader} → Moved r s → Moved s t → Moved r t
Moved-trans p q = record { same = q.same ∙ p.same; forward = omega arith; within = q.within }

module _ {ℓ κ} {A : Type ℓ} {B : Type κ} where
  pub Stays-bind :
      {m : Parser A} {f : A → Parser B} → Stays m → ((a : A) → Stays (f a)) → Stays (m >>= f)
  Stays-bind {m} {f} hm hf = record {
    apply = λ r h b t e. elim (Result-cases (m r)) [
      | inl ((a, s), p) ↦
          let first = hm.apply r h a s p in
          Moved-trans first ((hf a).apply s first.within b t (rw (p, ◌>>=◌) at e))
      | inr (x, p) ↦ let e' = rw (p, ◌>>=◌) at e in cc
    ];
  }

need-enough :
    (n : ℕ) (r s : Reader) (u : Unit {0}) → need n r ≡ ok (u, s) → (s ≡ r) × (n ≤ remaining r)
unfolding need
need-enough n r s u e = ground arith

advance-Moved :
    (n : ℕ) (r t : Reader)
    → r.offset ≤ length r.bytes
    → n ≤ remaining r
    → t ≡ advance r n
    → Moved r t
advance-Moved n r t h enough e =
    rw e (record { same = refl; forward = omega arith; within = omega arith })

module _ {ℓ} {A : Type ℓ} where
  pub Stays-pure : (a : A) → Stays (pure a)
  Stays-pure a = record { apply = λ r h b t e. ground arith }

  pub Stays-fail : (x : Error) → Stays (fail {A = A} x)
  Stays-fail x = record { apply = λ r h b t e. cc }

  pub Stays-at_cursor : (load : List ℕ → A) (n : ℕ) → Stays (need n >> at_cursor load n)
  unfolding at_cursor
  Stays-at_cursor load n = record {
    apply = λ r h b t e. elim (Result-cases (need n r)) [
      | inl ((u, s), p) ↦
          let (same, enough) = need-enough n r s u p in
          advance-Moved n r t h enough (cc (rw (p, ◌>>=◌) at e))
      | inr (x, p) ↦ let e' = rw (p, ◌>>=◌) at e in cc
    ];
  }

pub Stays-fail_if : (bad : Bool) (x : Error) → Stays (fail_if bad x)
Stays-fail_if bad x = record { apply = λ r h b t e. ground arith }

pub Stays-take_u8 : Stays take_u8
unfolding take_u8
Stays-take_u8 = Stays-at_cursor (λ in_. byte in_ 0) 1

pub Stays-take_u16 : Stays take_u16
unfolding take_u16
Stays-take_u16 = Stays-at_cursor load_u16 2

pub Stays-take_u32 : Stays take_u32
unfolding take_u32
Stays-take_u32 = Stays-at_cursor load_u32 4

pub Stays-take_u64 : Stays take_u64
unfolding take_u64
Stays-take_u64 = Stays-at_cursor load_u64 8

pub Stays-take_bool : Stays take_bool
unfolding take_bool
Stays-take_bool = Stays-bind Stays-take_u8 (λ v. Stays-pure _)

pub Stays-take_raw : (n : ℕ) → Stays (take_raw n)
unfolding take_raw
Stays-take_raw n = Stays-at_cursor (take n) n

pub Stays-take_string : Stays take_string
unfolding take_string
Stays-take_string = Stays-bind Stays-take_u32 (λ n. Stays-at_cursor (take n) n)

pub Stays-take_bytes : Stays take_bytes
unfolding take_bytes
Stays-take_bytes = Stays-bind Stays-take_u32 (λ n. Stays-at_cursor (take n) n)

pub Stays-take_fixed : (n : ℕ) → Stays (take_fixed n)
unfolding take_fixed
Stays-take_fixed n =
    Stays-bind Stays-take_u32 (λ len. Stays-bind (Stays-fail_if _ _) (λ _. Stays-take_raw n))

pub Stays-if {ℓ} :
    {A : Type ℓ} (b : Bool) {m n : Parser A} → Stays m → Stays n → Stays (if b then m else n)
Stays-if true hm hn = hm
Stays-if false hm hn = hn

Stays-take_address : (family port : ℕ) → Stays (take_address family port)
unfolding take_address
Stays-take_address family port =
    Stays-if (family == 4) (Stays-bind (Stays-take_raw 4) (λ a. Stays-pure _)) (
      Stays-if (family == 6) (Stays-bind (Stays-take_raw 16) (λ a. Stays-pure _))
        (Stays-if (family == 0) (Stays-pure _) (Stays-fail _)))

pub Stays-take_endpoint : Stays take_endpoint
unfolding take_endpoint
Stays-take_endpoint =
    Stays-bind Stays-take_u8 (λ f. Stays-bind Stays-take_u16 (λ p. Stays-take_address f p))

pub Stays-take_each {ℓ} : {A : Type ℓ} {m : Parser A} → Stays m → (n : ℕ) → Stays (take_each m n)
unfolding take_each
Stays-take_each h zero = Stays-pure _
Stays-take_each h (suc n) =
    Stays-bind h (λ x. Stays-bind (Stays-take_each h n) (λ xs. Stays-pure _))

pub Stays-take_endpoints : Stays take_endpoints
unfolding take_endpoints
Stays-take_endpoints = Stays-bind Stays-take_u16 (λ count. record {
  apply = λ r.
      (Stays-bind (Stays-fail_if (ltb (remaining r) (count * 3)) (endpoint_count count))
          (λ _. Stays-take_each Stays-take_endpoint count)).apply
        r;
})
