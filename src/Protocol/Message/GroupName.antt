-- ===== src/Protocol/Message/GroupName.antt =====
-- common/src/protocol.cpp: the group name that ends SendRequest and PeerIntroduction. It is on the wire
-- only if it is not empty.
use drop_zone.Base.{
  ℕ, ◌≡◌, refl, ap, subst, ◌⊎◌, inl, inr, true, false, not, ◌&&◌, List, [], ◌∷◌, ◌++◌, length,
  append-nil, ◌==◌, if◌then◌else◌, arith,
}
use drop_zone.Base.Result.{ok, invalid_group}
use drop_zone.Wire.Endian.{store_u32}
use drop_zone.Wire.Writer.{Writer, put_string}
use drop_zone.Wire.Reader.{
  Reader, Parser, pure, fail_if, is_empty, cursor, ◌>>=◌, ◌>>◌, take_string,
}
use drop_zone.Wire.Reads.{
  Reads, ReadsLast, Reads-last, Reads-bind, Reads-pure, Reads-fail_if, Reads-take_string, prefixed,
  remaining-cursor,
}
use drop_zone.Protocol.Name.{is_valid_username, short_name, is_valid_username_iff}
use drop_zone.Protocol.Message.Common.{puts, put_string_lem}

-- `if (!group_name.empty()) writer.put_string(group_name);`
unfoldable pub put_group : List ℕ → Writer → Writer
put_group name writer = if length name == 0 then writer else put_string name writer

unfoldable pub take_group_name : Parser (List ℕ)
take_group_name = do
  name ← take_string
  fail_if (not (length name == 0) && not (is_valid_username name)) invalid_group
  pure name

-- `if (!reader.empty()) { name = take_string(); if (!name.empty() && !valid) fail(...); }`
unfoldable pub take_group : Parser (List ℕ)
take_group reader = if is_empty reader then ok ([], reader) else take_group_name reader

-- No group, or a valid name for one.
abbrev pub IsGroup : List ℕ → Type 0
IsGroup name = (name ≡ []) ⊎ (is_valid_username name ≡ true)

abbrev pub group_bytes : List ℕ → List ℕ
group_bytes [] = []
group_bytes (c ∷ cs) = prefixed (c ∷ cs)

pub put_group_lem : (name : List ℕ) (w : Writer) → put_group name w ≡ w ++ group_bytes name
unfolding put_group
put_group_lem [] w = simp puts
put_group_lem (c ∷ cs) w = ground (arith, put_string_lem (c ∷ cs) w)

Reads-group_name :
    (name : List ℕ) → is_valid_username name ≡ true → Reads take_group_name (prefixed name) name
unfolding take_group_name
Reads-group_name name v =
    subst (λ bs. Reads take_group_name bs name) (append-nil (prefixed name))
      (Reads-bind (Reads-take_string name (short_name name v)) _
        (Reads-fail_if _ (ground arith) (Reads-pure name)))

name-prefixed : (name : List ℕ) → is_valid_username name ≡ true → group_bytes name ≡ prefixed name
name-prefixed [] v = absurd (omega (arith, ((is_valid_username_iff []).0 v).nonempty))
name-prefixed (c ∷ cs) v = refl

some_left : (r : Reader) (name : List ℕ) → cursor r ≡ prefixed name → is_empty r ≡ false
unfolding store_u32
some_left r name h = ground (arith, remaining-cursor r, ap length h)

none_left : (r : Reader) → cursor r ≡ [] → is_empty r ≡ true
none_left r h = ground (arith, remaining-cursor r, ap length h)

-- The group name is read back where the message ends with it, absent or not.
pub Reads-group : (name : List ℕ) → IsGroup name → ReadsLast take_group (group_bytes name) name
unfolding take_group
Reads-group name (inl e) =
    rw e (record { apply = λ r h. rw (none_left r h) ((Reads-pure []).apply r [] h) })
Reads-group name (inr v) = rw (name-prefixed name v) (record {
  apply = λ r h. rw (some_left r name h) ((Reads-last (Reads-group_name name v)).apply r h);
})
