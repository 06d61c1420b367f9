-- ===== src/Protocol/Name.antt =====
-- common/src/protocol.cpp, `is_valid_username`. Text is its bytes. A `char` of 128 or more fails the
-- comparisons as a negative number there and as a large one here.
use drop_zone.Base.{
  ℕ, ◌≤◌, ◌<◌, ◌^◌, ◌≡◌, refl, ◌≢◌, ◌↔◌, ◌⊎◌, Bool, true, false, not, ◌&&◌, ◌||◌, List, [], ◌∷◌,
  arith, ltb, leb, ◌==◌, if◌then◌else◌, length, All,
}

abbrev pub max_username_length : ℕ
max_username_length = 64

unfoldable pub name_char : ℕ → Bool
name_char c =
    (leb b'a' c && leb c b'z') || (leb b'0' c && leb c b'9') || c == b'-' || c == b'_' || c == b'.'

name_chars : List ℕ → Bool
name_chars [] = true
name_chars (c ∷ cs) = if not (name_char c) then false else name_chars cs

starts_with_dot : List ℕ → Bool
starts_with_dot [] = false
starts_with_dot (c ∷ cs) = c == b'.'

unfoldable pub is_valid_username : List ℕ → Bool
unfolding name_chars starts_with_dot
is_valid_username name =
    if length name == 0 || ltb max_username_length (length name)
    then false
    else if not (name_chars name)
    then false
    else not (starts_with_dot name)

-- What a name may be made of: safe in a file name, a log line and a shell argument.
abbrev pub IsNameChar : ℕ → Type 0
IsNameChar c =
    ((b'a' ≤ c) × (c ≤ b'z')) ⊎ ((b'0' ≤ c) × (c ≤ b'9')) ⊎ (c ≡ b'-') ⊎ (c ≡ b'_') ⊎ (c ≡ b'.')

abbrev pub NoDotFirst : List ℕ → Type 0
NoDotFirst [] = Unit {0}
NoDotFirst (c ∷ cs) = c ≢ b'.'

pub record IsUsername (name : List ℕ) : Type 0 where
  pub nonempty : 0 < length name
  pub short : length name ≤ max_username_length
  pub chars : All IsNameChar name
  pub no_dot_first : NoDotFirst name

name_char_iff : (c : ℕ) → (name_char c ≡ true) ↔ IsNameChar c
unfolding name_char
name_char_iff c = ground arith

name_chars_iff : (cs : List ℕ) → (name_chars cs ≡ true) ↔ All IsNameChar cs
unfolding name_chars
name_chars_iff [] = (λ _. tt, λ _. refl)
name_chars_iff (c ∷ cs) = (
  λ h. ground (arith, name_char_iff c, name_chars_iff cs),
  λ h. ground (arith, (name_char_iff c).1 h.0, (name_chars_iff cs).1 h.1),
)

starts_with_dot_iff : (name : List ℕ) → (starts_with_dot name ≡ false) ↔ NoDotFirst name
unfolding starts_with_dot
starts_with_dot_iff [] = (λ _. tt, λ _. refl)
starts_with_dot_iff (c ∷ cs) = ground arith

-- The check accepts exactly the names of one to 64 allowed characters that do not begin with a dot.
pub is_valid_username_iff : (name : List ℕ) → (is_valid_username name ≡ true) ↔ IsUsername name
unfolding is_valid_username
is_valid_username_iff name = (
  λ h. record {
    nonempty = ground arith;
    short = ground arith;
    chars = (name_chars_iff name).0 (ground arith);
    no_dot_first = (starts_with_dot_iff name).0 (ground arith);
  },
  λ v. ground (
    arith,
    v.nonempty,
    v.short,
    (name_chars_iff name).1 v.chars,
    (starts_with_dot_iff name).1 v.no_dot_first,
  ),
)

-- A valid name has a length that the wire carries.
pub short_name : (name : List ℕ) → is_valid_username name ≡ true → length name < 2 ^ 32
short_name name h = omega (arith, ((is_valid_username_iff name).0 h).short)
