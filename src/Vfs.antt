-- ===== src/Vfs.antt =====
-- Mount points and the walk along a path, of src/fs/vfs.c. A string is the list of its bytes, without
-- the NUL at its end. A node is known by its address; what a file system says of its nodes (the
-- flags, and the operation `finddir`) is a parameter. `Vfs.Files` has the open files.
pub mod Mounts
pub mod Reading
pub mod Descend
mod Tests
use nyan_os.Base.{
  ℕ, zero, suc, ◌+◌, ◌-◌, ◌≡◌, Bool, true, false, not, ◌&&◌, ◌||◌, Option, none, some, List, [],
  ◌∷◌, ◌++◌, length, get_or, drop, leb, ltb, ◌==◌, if◌then◌else◌,
}
use nyan_os.Paths.{slash}

abbrev pub max_mountpoints : ℕ
max_mountpoints = 4

abbrev pub mount_path_size : ℕ
mount_path_size = 64

abbrev pub vfs_directory : ℕ
vfs_directory = 2

-- A root of 0 is NULL.
pub record Mount : Type 0 where
  pub path : List ℕ
  pub root : ℕ

-- The result and the table; `none` is a write outside of the path's field.
pub vfs_mount : List ℕ → ℕ → List Mount → Option (Bool × List Mount)
vfs_mount path fs_root mounts =
    if leb max_mountpoints (length mounts)
    then some (false, mounts)
    else if leb mount_path_size (length path)
    then none
    else some (true, mounts ++ record { path = path; root = fs_root } ∷ [])

-- `strncmp(path, mount_path, mount_len) == 0`, for a `mount_path` of that length.
pub starts_with : List ℕ → List ℕ → Bool
starts_with [] path = true
starts_with (c ∷ cs) [] = false
starts_with (c ∷ cs) (d ∷ ds) = d == c && starts_with cs ds

-- The mount's path is the whole path, or stands before a slash, or has one byte.
pub is_match : List ℕ → Mount → Bool
unfolding starts_with
is_match path m =
    let next_char = get_or path (length m.path) 0 in
    starts_with m.path path && (next_char == slash || next_char == 0 || length m.path == 1)

abbrev pub is_longer : Mount → Option Mount → Bool
is_longer m none = true
is_longer m (some best) = ltb (length best.path) (length m.path)

-- `best` is the best match so far.
pub best_mount : List ℕ → List Mount → Option Mount → Option Mount
unfolding is_match
best_mount path [] best = best
best_mount path (m ∷ ms) best =
    best_mount path ms (if is_match path m && is_longer m best then some m else best)

-- What file systems say of nodes.
pub record Tree : Type 0 where
  pub flags : ℕ → ℕ
  pub has_finddir : ℕ → Bool
  pub finddir : ℕ → List ℕ → Option ℕ

-- `endless` is a loop that does not end.
pub data Found : Type 0 where
  found : ℕ → Found
  not_found : Found
  endless : Found

pub skip_slashes : List ℕ → List ℕ
skip_slashes [] = []
skip_slashes (c ∷ cs) = if c == slash then skip_slashes cs else c ∷ cs

abbrev pub put_front : ℕ → Option (List ℕ × List ℕ) → Option (List ℕ × List ℕ)
put_front c none = none
put_front c (some (name, rest)) = some (c ∷ name, rest)

-- The bytes up to a slash or the end, and the rest; with no more room in `name` the loop stays where
-- it is.
pub take_name : ℕ → List ℕ → Option (List ℕ × List ℕ)
take_name room [] = some ([], [])
take_name zero (c ∷ cs) = if c == slash then some ([], c ∷ cs) else none
take_name (suc room) (c ∷ cs) =
    let more = take_name room cs in if c == slash then some ([], c ∷ cs) else put_front c more

-- The next node. That flags equal `VFS_DIRECTORY` excludes `VFS_NODE_AUTOFREE`, so that no node is
-- freed on the way.
pub enter_node : Tree → ℕ → List ℕ → Option ℕ
enter_node t curr_node name =
    if not (t.flags curr_node == vfs_directory)
    then none
    else if not (t.has_finddir curr_node)
    then none
    else t.finddir curr_node name

abbrev pub go_on : (ℕ → Found) → Option ℕ → Found
go_on walk none = not_found
go_on walk (some next_node) = walk next_node

abbrev pub on_name : (List ℕ → Option ℕ) → (List ℕ → ℕ → Found) → Option (List ℕ × List ℕ) → Found
on_name next walk none = endless
on_name next walk (some (name, rest)) = go_on (walk rest) (next name)

-- A round for what stands behind the slashes.
abbrev pub at_name : Tree → (List ℕ → ℕ → Found) → ℕ → List ℕ → Found
unfolding enter_node take_name
at_name t walk curr_node [] = found curr_node
at_name t walk curr_node (c ∷ cs) = on_name (enter_node t curr_node) walk (take_name 127 (c ∷ cs))

pub walk_nodes : Tree → ℕ → List ℕ → ℕ → Found
unfolding skip_slashes take_name enter_node
walk_nodes t zero rel_path curr_node = endless
walk_nodes t (suc fuel) rel_path curr_node =
    at_name t (walk_nodes t fuel) curr_node (skip_slashes rel_path)

-- A round takes a byte at least, so that the length of the path is fuel enough.
pub from_mount : Tree → List ℕ → Option Mount → Found
unfolding walk_nodes
from_mount t path none = not_found
from_mount t path (some m) =
    if m.root == 0
    then not_found
    else walk_nodes t (suc (length path)) (drop (length m.path) path) m.root

pub vfs_navigate : Tree → List Mount → List ℕ → Found
unfolding best_mount from_mount
vfs_navigate t mounts path = from_mount t path (best_mount path mounts none)
