-- ===== src/Wire/Reads/Basic.antt =====
-- `Reads m bytes a`: wherever `bytes` lie ahead of the cursor, `m` succeeds with `a` and leaves the
-- cursor behind them. `ReadsLast` is the same where nothing follows.
use drop_zone.Base.{
  ℕ, ◌≡◌, refl, sym, subst, ap, ◌∙◌, Bool, false, List, [], ◌++◌, append-nil, append_assoc, drop,
  length, length-append, drop_left, drop-drop, arith,
}
use native.Mathlib.Nat.{add-zero}
use drop_zone.Base.Result.{Error, ok}
use drop_zone.Wire.Reader.{Reader, Parser, advance, cursor, pure, fail_if, ◌>>=◌, ◌>>◌}

pub record Reads {ℓ} {A : Type ℓ} (m : Parser A) (bytes : List ℕ) (a : A) : Type ℓ where
  pub apply :
      (r : Reader) (rest : List ℕ)
      → cursor r ≡ bytes ++ rest
      → m r ≡ ok (a, advance r (length bytes))

pub record ReadsLast {ℓ} {A : Type ℓ} (m : Parser A) (bytes : List ℕ) (a : A) : Type ℓ where
  pub apply : (r : Reader) → cursor r ≡ bytes → m r ≡ ok (a, advance r (length bytes))

-- The cursor after the bytes that were ahead of it.
cursor-advance :
    (r : Reader) (bs rest : List ℕ) → cursor r ≡ bs ++ rest → cursor (advance r (length bs)) ≡ rest
cursor-advance r bs rest h =
    sym (drop-drop (length bs) r.offset r.bytes) ∙ ap (drop (length bs)) h ∙ drop_left bs rest

advance-advance :
    (r : Reader) (bs cs : List ℕ)
    → advance (advance r (length bs)) (length cs) ≡ advance r (length (bs ++ cs))
advance-advance r bs cs = ap (λ n. record r { offset = n }) (omega (arith, length-append bs cs))

module _ {ℓ κ} {A : Type ℓ} {B : Type κ} {m : Parser A} {bs cs : List ℕ} {a : A} {b : B}
    (hm : Reads m bs a) where
  pub Reads-bind : (f : A → Parser B) → Reads (f a) cs b → Reads (m >>= f) (bs ++ cs) b
  Reads-bind f hf = record {
    apply = λ r rest h.
        let h' = h ∙ append_assoc bs cs rest in
        rw (hm.apply r (cs ++ rest) h', ◌>>=◌)
          (hf.apply (advance r (length bs)) rest (cursor-advance r bs (cs ++ rest) h')
            ∙ ap (λ r'. ok (b, r')) (advance-advance r bs cs));
  }

  pub Reads-bind_last : (f : A → Parser B) → ReadsLast (f a) cs b → ReadsLast (m >>= f) (bs ++ cs) b
  Reads-bind_last f hf = record {
    apply = λ r h.
        rw (hm.apply r cs h, ◌>>=◌)
          (hf.apply (advance r (length bs)) (cursor-advance r bs cs h)
            ∙ ap (λ r'. ok (b, r')) (advance-advance r bs cs));
  }

module _ {ℓ} {A : Type ℓ} where
  pub Reads-pure : (a : A) → Reads (pure a) [] a
  Reads-pure a = record {
    apply = λ r rest h. ap (λ n. ok (a, record r { offset = n })) (sym (add-zero r.offset));
  }

module _ {ℓ} {A : Type ℓ} {m : Parser A} {bs : List ℕ} {a : A} where
  pub Reads-last : Reads m bs a → ReadsLast m bs a
  Reads-last hm = record { apply = λ r h. hm.apply r [] (h ∙ sym (append-nil bs)) }

  -- A check that passes reads nothing.
  pub Reads-fail_if :
      {bad : Bool} (e : Error) → bad ≡ false → Reads m bs a → Reads (fail_if bad e >> m) bs a
  Reads-fail_if e h hm = record { apply = λ r rest p. rw h (hm.apply r rest p) }

  pub Reads-fail_if_last :
      {bad : Bool} (e : Error)
      → bad ≡ false
      → ReadsLast m bs a
      → ReadsLast (fail_if bad e >> m) bs a
  Reads-fail_if_last e h hm = record { apply = λ r p. rw h (hm.apply r p) }

-- The last field, with what is made of all.
pub Reads-map {ℓ κ} :
    {A : Type ℓ} {B : Type κ} {m : Parser A} {bs : List ℕ} {a : A} (g : A → B)
    → Reads m bs a
    → Reads (m >>= λ x. pure (g x)) bs (g a)
Reads-map g hm = record { apply = λ r rest h. rw (hm.apply r rest h, ◌>>=◌) refl }

pub Reads-map_last {ℓ κ} :
    {A : Type ℓ} {B : Type κ} {m : Parser A} {bs : List ℕ} {a : A} (g : A → B)
    → ReadsLast m bs a
    → ReadsLast (m >>= λ x. pure (g x)) bs (g a)
Reads-map_last g hm = record { apply = λ r h. rw (hm.apply r h, ◌>>=◌) refl }

-- The same value, written another way.
pub Reads-result {ℓ} :
    {A : Type ℓ} {m : Parser A} {bs : List ℕ} {a b : A} → Reads m bs a → a ≡ b → Reads m bs b
Reads-result {m = m} {bs = bs} h e = subst (Reads m bs) e h

-- A last step that reads nothing.
pub Reads-bind_end {ℓ κ} :
    {A : Type ℓ} {B : Type κ} {m : Parser A} {bs : List ℕ} {a : A} {b : B}
    → Reads m bs a
    → (f : A → Parser B) → Reads (f a) [] b
    → Reads (m >>= f) bs b
Reads-bind_end {m = m} {bs = bs} {b = b} hm f hf =
    subst (λ cs. Reads (m >>= f) cs b) (append-nil bs) (Reads-bind hm f hf)
