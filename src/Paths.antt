-- ===== src/Paths.antt =====
-- `resolve_path` of src/fs/vfs.c. A string is the list of its bytes, without the NUL at its end. The
-- stack of names is the list of the names below `top`, the topmost first. The three buffers have
-- bounds that the code does not test: 256 bytes for the path, 32 for a name, 32 names in the stack.
-- A write outside of one is the outcome `out_of_bounds`.
pub mod Names
pub mod Reading
pub mod Resolve
pub mod Reduce
mod Tests
use nyan_os.Base.{
  ℕ, zero, suc, ◌+◌, ◌-◌, Bool, true, false, not, ◌&&◌, ◌||◌, Option, none, some, List, [], ◌∷◌,
  ◌++◌, length, get_or, leb, ltb, ◌==◌, if◌then◌else◌,
}
use nyan_os.Mq.{same_name}

abbrev pub slash : ℕ
slash = 47

abbrev pub dot : ℕ
dot = 46

abbrev pub path_size : ℕ
path_size = 256

abbrev pub name_size : ℕ
name_size = 32

abbrev pub stack_size : ℕ
stack_size = 32

-- What has been read of a name, in `name_buf`, and the stack.
pub record Walk : Type 0 where
  pub name : List ℕ
  pub stack : List (List ℕ)

-- The contents of `tmp`.
unfoldable pub full_path : List ℕ → List ℕ → List ℕ
full_path cwd inp_path =
    if get_or inp_path 0 0 == slash
    then inp_path
    else if ltb 1 (length cwd) && not (get_or cwd (length cwd - 1) 0 == slash)
    then cwd ++ slash ∷ inp_path
    else cwd ++ inp_path

abbrev pub pop : List (List ℕ) → List (List ℕ)
pop [] = []
pop (name ∷ names) = names

unfoldable pub push : List ℕ → List (List ℕ) → Option (List (List ℕ))
push name stack = if leb stack_size (length stack) then none else some (name ∷ stack)

-- The end of a name: its NUL is written, and then the name is looked at.
unfoldable pub end_name : Walk → Option (List (List ℕ))
unfolding same_name push
end_name w =
    if leb name_size (length w.name)
    then none
    else if length w.name == 0
    then some w.stack
    else if same_name w.name (dot ∷ dot ∷ [])
    then some (pop w.stack)
    else if same_name w.name (dot ∷ [])
    then some w.stack
    else push w.name w.stack

abbrev pub next_name : Option (List (List ℕ)) → Option Walk
next_name none = none
next_name (some stack) = some (record { name = []; stack = stack })

-- One round of the loop, for a byte that is not the NUL.
unfoldable pub read_char : ℕ → Walk → Option Walk
unfolding end_name
read_char c w =
    if c == slash
    then next_name (end_name w)
    else if leb name_size (length w.name)
    then none
    else some (record w { name = w.name ++ c ∷ [] })

unfoldable pub walk : List ℕ → Option Walk → Option (List (List ℕ))
unfolding read_char end_name
walk cs none = none
walk [] (some w) = end_name w
walk (c ∷ cs) (some w) = walk cs (read_char c w)

-- The names of the stack from its bottom, with `k` of them written.
unfoldable pub rebuild : ℕ → List ℕ → List (List ℕ) → List ℕ
rebuild k out [] = out
rebuild k out (name ∷ names) =
    rebuild (suc k) ((if ltb 0 k then out ++ slash ∷ [] else out) ++ name) names

-- The bottom of the stack first.
abbrev pub bottom_up : List (List ℕ) → List (List ℕ) → List (List ℕ)
bottom_up [] done = done
bottom_up (name ∷ names) done = bottom_up names (name ∷ done)

abbrev pub skip_slash : List ℕ → List ℕ
skip_slash [] = []
skip_slash (c ∷ cs) = if c == slash then cs else c ∷ cs

-- What is in `out_buf`: a path, what was there before, or nothing that can be said.
pub data Outcome : Type 0 where
  path : List ℕ → Outcome
  unchanged : Outcome
  out_of_bounds : Outcome

unfoldable pub rebuilt : Option (List (List ℕ)) → Outcome
unfolding rebuild
rebuilt none = out_of_bounds
rebuilt (some stack) = path (rebuild 0 (slash ∷ []) (bottom_up stack []))

-- The two flags say whether `kmalloc` has room for `tmp`, which the code does not ask, and for the
-- stack.
unfoldable pub resolve_path : Bool → Bool → List ℕ → List ℕ → Outcome
unfolding full_path walk rebuilt
resolve_path tmp_room stack_room cwd inp_path =
    let tmp = full_path cwd inp_path in
    if not tmp_room || leb path_size (length tmp)
    then out_of_bounds
    else if not stack_room
    then unchanged
    else rebuilt (walk (skip_slash tmp) (some (record { name = []; stack = [] })))
