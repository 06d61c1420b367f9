-- ===== src/Protocol/Path.antt =====
-- common/src/protocol.cpp, `is_safe_relative_path` and `sanitize_relative_path`.
pub mod Split
pub mod Resolve
use drop_zone.Base.{
  same_bytes, ℕ, zero, suc, ◌+◌, ◌≤◌, ◌<◌, ◌≡◌, Bool, true, false, not, ◌&&◌, ◌||◌, List, [], ◌∷◌,
  Option, none, some, ltb, ◌==◌, if◌then◌else◌, length, take, drop,
}
use drop_zone.Base.Result.{Result, ok, err, unsafe_path}

abbrev pub max_path_length : ℕ
max_path_length = 1024

abbrev pub suc_option : Option ℕ → Option ℕ
suc_option none = none
suc_option (some k) = some (suc k)

-- `find(c)`: how far off the first `c` is, `none` for npos.
pub index_of : ℕ → List ℕ → Option ℕ
index_of c [] = none
index_of c (x ∷ xs) = if x == c then some 0 else suc_option (index_of c xs)

abbrev pub is_found : Option ℕ → Bool
is_found none = false
is_found (some k) = true

-- The loop's two tests on a component.
pub good_component : List ℕ → Bool
good_component component =
    if length component == 0
    then false
    else not (same_bytes component (b'.' ∷ []) || same_bytes component (b'.' ∷ b'.' ∷ []))

-- `while (start <= path.size())`; `none` means that the fuel ran out.
pub scan_components : ℕ → List ℕ → ℕ → Option Bool
scan_components zero path start = none
scan_components (suc fuel) path start =
    if ltb (length path) start then some true else elim (index_of b'/' (drop start path)) [
      | none ↦ some (good_component (drop start path))
      | some k ↦
          if good_component (take k (drop start path))
          then scan_components fuel path (start + k + 1)
          else some false
    ]

abbrev pub first_is : ℕ → List ℕ → Bool
first_is c [] = false
first_is c (x ∷ xs) = x == c

-- The answer of the loop; `none`, for fuel that ran out, is no result of the code.
abbrev pub or_false : Option Bool → Bool
or_false none = false
or_false (some b) = b

unfoldable pub is_safe_relative_path : List ℕ → Bool
unfolding index_of good_component scan_components
is_safe_relative_path path =
    if length path == 0 || ltb max_path_length (length path)
    then false
    else if first_is b'/' path
    then false
    else if is_found (index_of 92 path)
    then false
    else if is_found (index_of 0 path)
    then false
    else or_false (scan_components (suc (suc (length path))) path 0)

unfoldable pub sanitize_relative_path : List ℕ → Result (List ℕ)
sanitize_relative_path path =
    if not (is_safe_relative_path path) then err (unsafe_path path) else ok path
