-- ===== src/Wire/Ensures.antt =====
-- What a decoder guarantees of the message it returns, with a rule for each step of a `do` block.
use mathlib.Core.Logic.{inl, inr}
use drop_zone.Base.{ℕ, zero, suc, ◌≡◌, refl, subst, Bool, true, false, List, [], All}
use drop_zone.Base.Result.{Error, ok, Result-cases}
use drop_zone.Wire.Reader.{
  Reader, Parser, pure, fail_if, ◌>>=◌, ◌>>◌, open_reader, decode_with, take_each,
}

pub record Ensures {ℓ κ} {A : Type ℓ} (m : Parser A) (P : A → Type κ) : Type (ℓ ⊔ κ) where
  pub apply : (r : Reader) (a : A) (r' : Reader) → m r ≡ ok (a, r') → P a

module _ {ℓ κ μ} {A : Type ℓ} {B : Type κ} {P : B → Type μ} where
  pub Ensures-step :
      (m : Parser A) (f : A → Parser B) → ((a : A) → Ensures (f a) P) → Ensures (m >>= f) P
  Ensures-step m f h = record {
    apply = λ r b t e. elim (Result-cases (m r)) [
      | inl ((a, s), p) ↦ (h a).apply s b t (rw (p, ◌>>=◌) at e)
      | inr (x, p) ↦ let e' = rw (p, ◌>>=◌) at e in cc
    ];
  }

  -- A step of which something is known.
  pub Ensures-bind {ν} :
      {Q : A → Type ν} {m : Parser A} (f : A → Parser B)
      → Ensures m Q
      → ((a : A) → Q a → Ensures (f a) P)
      → Ensures (m >>= f) P
  Ensures-bind {m = m} f hm h = record {
    apply = λ r b t e. elim (Result-cases (m r)) [
      | inl ((a, s), p) ↦ (h a (hm.apply r a s p)).apply s b t (rw (p, ◌>>=◌) at e)
      | inr (x, p) ↦ let e' = rw (p, ◌>>=◌) at e in cc
    ];
  }

module _ {ℓ κ} {A : Type ℓ} {P : A → Type κ} where
  pub Ensures-pure : (a : A) → P a → Ensures (pure a) P
  Ensures-pure a h = record { apply = λ r b t e. let same : a ≡ b = cc in subst P same h }

  pub Ensures-fail_if :
      (bad : Bool) (x : Error) (m : Parser A)
      → (bad ≡ false → Ensures m P)
      → Ensures (fail_if bad x >> m) P
  Ensures-fail_if true x m h = record { apply = λ r b t e. cc }
  Ensures-fail_if false x m h = record { apply = λ r b t e. (h refl).apply r b t e }

-- What the whole decoder guarantees, of a message that it accepts.
pub decode_with-Ensures {ℓ κ} :
    {A : Type ℓ} {P : A → Type κ} {m : Parser A} (payload : List ℕ) (a : A)
    → Ensures m P
    → decode_with m payload ≡ ok a
    → P a
decode_with-Ensures {m = m} payload a h e = elim (Result-cases (m (open_reader payload))) [
  | inl ((b, s), p) ↦ h.apply (open_reader payload) a s (cc (p, rw (p, decode_with) at e))
  | inr (x, p) ↦ let e' = rw (p, decode_with) at e in cc
]

pub Ensures-take_each {ℓ κ} :
    {A : Type ℓ} {P : A → Type κ} {m : Parser A}
    → Ensures m P
    → (n : ℕ) → Ensures (take_each m n) (All P)
unfolding take_each
Ensures-take_each h zero = Ensures-pure [] tt
Ensures-take_each h (suc n) =
    Ensures-bind _ h
      (λ x px. Ensures-bind _ (Ensures-take_each h n) (λ xs pxs. Ensures-pure _ (px, pxs)))
