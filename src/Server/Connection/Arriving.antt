-- ===== src/Server/Connection/Arriving.antt =====
-- The input buffer of server/src/connection.cpp: what recv() gives is kept in order, within a bound,
-- and is taken apart into the frames that were sent.
use drop_zone.Base.{
  ℕ, ◌+◌, ◌*◌, ◌/◌, ◌≤◌, ◌<◌, ◌≡◌, refl, ap, subst, sym, ◌∙◌, inl, inr, Bool, true, false, ◌&&◌,
  ◌||◌, List, [], ◌∷◌, ◌++◌, append-nil, append_assoc, Option, none, some, Bool-cases, All, length,
  length-append, drop, drop-append, length-drop, ltb, leb, if◌then◌else◌, arith,
}
use drop_zone.Server.Connection.{
  Input, Received, got, end_of_file, interrupted, would_block, failed, compact_input, input_at_cap,
  read_available, max_input_buffer, read_batch,
}

-- The bytes that wait to be parsed.
unfoldable pub unread : Input → List ℕ
unread c = drop c.input_consumed c.input

abbrev pub Inside : Input → Type 0
Inside c = c.input_consumed ≤ length c.input

-- The bytes that a sequence of answers brings.
unfoldable pub arrived : List Received → List ℕ
arrived [] = []
arrived (got bytes ∷ rest) = bytes ++ arrived rest
arrived (_ ∷ rest) = arrived rest

-- recv() is asked for at most `read_batch` bytes.
abbrev pub Short : Received → Type 0
Short (got bytes) = length bytes ≤ read_batch
Short _ = Unit

-- From `c` to `d`, from the answers that recv() has to those that it still has: the bytes of the
-- answers between stand behind those that were unread, within the bound.
pub record ReadsOn (answers remaining : List Received) (c d : Input) : Type 0 where
  pub inside : Inside d
  pub taken : List Received
  pub split : taken ++ remaining ≡ answers
  pub kept : unread d ≡ unread c ++ arrived taken
  pub bounded :
      length (unread c) < max_input_buffer + read_batch
      → length (unread d) < max_input_buffer + read_batch

compact_input-unread :
    (c : Input) → Inside c → Inside (compact_input c) × (unread (compact_input c) ≡ unread c)
unfolding compact_input unread
compact_input-unread c w =
    elim (Bool-cases (
      ltb 0 c.input_consumed
      && (leb (64 * 1024) c.input_consumed || leb (length c.input / 2) c.input_consumed))) [
        | inl t ↦ rw t (omega arith, refl)
        | inr f ↦ rw f (w, refl)
      ]

-- A result, where there is one, reads on.
Outcome : List Received → Input → Option (Bool × List Received × Input) → Type 0
Outcome answers c none = Unit
Outcome answers c (some (result, remaining, d)) = ReadsOn answers remaining c d

-- Nothing is read; only the buffer is compacted, or the end is noted.
stops :
    (taken remaining : List Received) (c : Input) (ended : Bool)
    → arrived taken ≡ []
    → Inside c
    → ReadsOn (taken ++ remaining) remaining c (record (compact_input c) { peer_closed = ended })
unfolding unread
stops taken remaining c ended nothing w =
    let (inside, same) = compact_input-unread c w in
    record {
      inside = inside;
      taken = taken;
      split = refl;
      kept = same ∙ sym (append-nil (unread c)) ∙ ap (λ bs. unread c ++ bs) (sym nothing);
      bounded = λ b. rw same b;
    }

append-unread :
    (c : Input) (bytes : List ℕ)
    → Inside c
    → let d : Input = record c { input = c.input ++ bytes } in
      Inside d × (unread d ≡ unread c ++ bytes)
unfolding unread
append-unread c bytes w =
    (omega (arith, w, length-append c.input bytes), drop-append c.input_consumed c.input bytes w)

below_cap :
    (c : Input) (bytes : List ℕ)
    → input_at_cap c ≡ false
    → length bytes ≤ read_batch
    → length (unread (record c { input = c.input ++ bytes })) < max_input_buffer + read_batch
unfolding input_at_cap unread
below_cap c bytes f s =
    ground
      (arith, f, s, length-drop c.input_consumed (c.input ++ bytes), length-append c.input bytes)

-- At the cap the loop ends; below it, what follows decides.
unless_full :
    (answers : List Received) (c : Input) (otherwise : Option (Bool × List Received × Input))
    → Inside c
    → (input_at_cap (compact_input c) ≡ false → Outcome answers c otherwise)
    → Outcome answers c (
        if input_at_cap (compact_input c) then some (true, answers, compact_input c) else otherwise)
unfolding Outcome arrived
unless_full answers c otherwise w h = elim (Bool-cases (input_at_cap (compact_input c))) [
  | inl t ↦ rw t (stops [] answers c (compact_input c).peer_closed refl w)
  | inr f ↦ rw f (h f)
]

skips :
    (answer : Received) (rest : List Received) (c before : Input) (bytes : List ℕ)
    (o : Option (Bool × List Received × Input))
    → ((xs : List Received) → arrived (answer ∷ xs) ≡ bytes ++ arrived xs)
    → unread before ≡ unread c ++ bytes
    → (length (unread c) < max_input_buffer + read_batch
        → length (unread before) < max_input_buffer + read_batch)
    → Outcome rest before o
    → Outcome (answer ∷ rest) c o
unfolding Outcome
skips answer rest c before bytes none all same bound h = tt
skips answer rest c before bytes (some (result, remaining, d)) all same bound h = record {
  inside = h.inside;
  taken = answer ∷ h.taken;
  split = ap (λ xs. answer ∷ xs) h.split;
  kept =
      h.kept
      ∙ (ap (λ bs. bs ++ arrived h.taken) same
          ∙ (append_assoc (unread c) bytes (arrived h.taken)
              ∙ ap (◌++◌ (unread c)) (sym (all h.taken))));
  bounded = λ b. h.bounded (bound b);
}

read_available-Outcome :
    (answers : List Received) (c : Input)
    → Inside c
    → All Short answers
    → Outcome answers c (read_available answers c)
unfolding read_available Outcome arrived
read_available-Outcome [] c w s = unless_full [] c none w (λ f. tt)
read_available-Outcome (got bytes ∷ rest) c w s =
    let (inside, same) = compact_input-unread c w in
    let next : Input = record (compact_input c) { input = (compact_input c).input ++ bytes } in
    let (next_inside, grown) = append-unread (compact_input c) bytes inside in
    unless_full _ c _ w (λ f.
      skips (got bytes) rest c next bytes _ (λ xs. refl) (grown ∙ ap (λ bs. bs ++ bytes) same)
        (λ b. below_cap (compact_input c) bytes f s.0)
        (read_available-Outcome rest next next_inside s.1))
read_available-Outcome (end_of_file ∷ rest) c w s =
    unless_full _ c _ w (λ f. stops (end_of_file ∷ []) rest c true refl w)
read_available-Outcome (interrupted ∷ rest) c w s =
    let (inside, same) = compact_input-unread c w in
    unless_full _ c _ w (λ f.
      skips interrupted rest c (compact_input c) [] _ (λ xs. refl)
        (same ∙ sym (append-nil (unread c)))
        (λ b. subst (λ bs. length bs < max_input_buffer + read_batch) (sym same) b)
        (read_available-Outcome rest (compact_input c) inside s.1))
read_available-Outcome (would_block ∷ rest) c w s =
    unless_full _ c _ w (λ f. stops (would_block ∷ []) rest c (compact_input c).peer_closed refl w)
read_available-Outcome (failed ∷ rest) c w s =
    unless_full _ c _ w (λ f. stops (failed ∷ []) rest c true refl w)

-- Where each recv() gives at most `read_batch` bytes and the loop ends with some of its answers left:
-- the bytes of the answers that were taken stand, every one and in order, behind those that were
-- unread; and fewer than `max_input_buffer + read_batch` bytes are unread if it was so before.
pub read_available-unread :
    (answers remaining : List Received) (c d : Input) (result : Bool)
    → Inside c
    → All Short answers
    → read_available answers c ≡ some (result, remaining, d)
    → ReadsOn answers remaining c d
unfolding Outcome
read_available-unread answers remaining c d result w s e =
    subst (Outcome answers c) e (read_available-Outcome answers c w s)
