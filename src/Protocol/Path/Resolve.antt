-- ===== src/Protocol/Path/Resolve.antt =====
-- Where a path leads: the walk that a POSIX file system makes from a directory. A safe path leads
-- strictly below the directory it starts from, whatever that is.
use mathlib.Core.List.{reverse, reverse-cons}
use drop_zone.Base.{
  ℕ, ◌≡◌, refl, true, ◌||◌, List, [], ◌∷◌, ◌++◌, append_assoc, ◌==◌, if◌then◌else◌, length, All,
  arith, same_bytes, same_bytes-true,
}
use drop_zone.Protocol.Path.{first_is, is_safe_relative_path}
use drop_zone.Protocol.Path.Split.{split_path, IsName, first_is_slash, is_safe_relative_path_iff}

abbrev pub parent : List (List ℕ) → List (List ℕ)
parent [] = []
parent (c ∷ cs) = cs

-- One component, from a directory given by its names, the deepest first: an empty name and `.` stay,
-- `..` goes up, and any other name goes down.
pub walk_step : List (List ℕ) → List ℕ → List (List ℕ)
walk_step dir c =
    if length c == 0 || same_bytes c (b'.' ∷ [])
    then dir
    else if same_bytes c (b'.' ∷ b'.' ∷ [])
    then parent dir
    else c ∷ dir

walk : List (List ℕ) → List (List ℕ) → List (List ℕ)
walk dir [] = dir
walk dir (c ∷ cs) = walk (walk_step dir c) cs

-- An absolute path starts from the root.
unfoldable pub resolve : List (List ℕ) → List ℕ → List (List ℕ)
unfolding walk walk_step
resolve base path = walk (if first_is b'/' path then [] else base) (split_path path)

walk_step-IsName : (dir : List (List ℕ)) (c : List ℕ) → IsName c → walk_step dir c ≡ c ∷ dir
unfolding walk_step
walk_step-IsName dir [] n = absurd (n.not_empty refl)
walk_step-IsName dir (x ∷ xs) n =
    ground (arith, n.not_dot, n.not_dot_dot, same_bytes-true xs [], same_bytes-true xs (b'.' ∷ []))

walk-IsName : (dir cs : List (List ℕ)) → All IsName cs → walk dir cs ≡ reverse cs ++ dir
unfolding walk
walk-IsName dir [] h = refl
walk-IsName dir (c ∷ cs) h =
    rw (walk_step-IsName dir c h.0, reverse-cons c cs, append_assoc) (walk-IsName (c ∷ dir) cs h.1)

-- A path that the check accepts leads from any directory down its components, one by one: no path
-- from a peer leaves the output directory.
pub resolve-safe :
    (base : List (List ℕ)) (path : List ℕ)
    → is_safe_relative_path path ≡ true
    → resolve base path ≡ reverse (split_path path) ++ base
unfolding resolve
resolve-safe base path h =
    let safe = (is_safe_relative_path_iff path).0.0 h in
    rw (first_is_slash path safe.names) (walk-IsName base (split_path path) safe.names)
