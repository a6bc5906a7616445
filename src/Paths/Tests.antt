-- ===== src/Paths/Tests.antt =====
-- Paths on concrete runs.
use nyan_os.Base.{ℕ, ◌≡◌, refl, true, none, some, List, [], ◌∷◌, replicate, arith}
use nyan_os.Paths.{path, resolve_path, full_path, walk, read_char, end_name, push, rebuilt, rebuild}
use nyan_os.Paths.Resolve.{Resolved, resolve_path-Resolved, resolve_path-resolve_path}
use nyan_os.Paths.Reduce.{all_names, follow, visit, reached, resolve_path-follow}
use nyan_os.Mq.{same_name}

-- The directory "/ab" and the path "../c/./d/".
abbrev home : List ℕ
home = 47 ∷ 97 ∷ 98 ∷ []

abbrev up_and_down : List ℕ
up_and_down = 46 ∷ 46 ∷ 47 ∷ 99 ∷ 47 ∷ 46 ∷ 47 ∷ 100 ∷ 47 ∷ []

-- "/c/d".
abbrev down : List ℕ
down = 47 ∷ 99 ∷ 47 ∷ 100 ∷ []

resolves : resolve_path true true home up_and_down ≡ path down
unfolding resolve_path full_path walk read_char end_name push rebuilt rebuild same_name
resolves = refl

resolve_path-Resolved_example : Resolved down
resolve_path-Resolved_example = resolve_path-Resolved true true home up_and_down down refl resolves

resolve_path-resolve_path_example : resolve_path true true [] down ≡ path down
resolve_path-resolve_path_example =
    resolve_path-resolve_path true true home up_and_down down [] refl resolves

resolve_path-follow_example :
    resolve_path true true home up_and_down
    ≡ reached (follow (some []) (all_names home up_and_down))
resolve_path-follow_example = resolve_path-follow home up_and_down refl (omega arith)

-- A name of 32 bytes does not fit.
too_long : visit [] (replicate 32 97) ≡ none
unfolding visit
too_long = refl
