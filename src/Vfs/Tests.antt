-- ===== src/Vfs/Tests.antt =====
-- Mount points and paths on concrete runs.
use nyan_os.Base.{
  ℕ, ◌≡◌, ◌≢◌, refl, true, none, some, List, [], ◌∷◌, drop, arith, ◌==◌, if◌then◌else◌,
}
use nyan_os.Paths.Reduce.{components}
use nyan_os.Paths.{path, resolve_path, full_path, walk, read_char, end_name, push, rebuilt, rebuild}
use nyan_os.Mq.{same_name}
use nyan_os.Vfs.{
  Mount, Tree, found, endless, best_mount, vfs_navigate, is_match, starts_with, enter_node,
}
use nyan_os.Vfs.Mounts.{Best, best_mount-Best}
use nyan_os.Vfs.Reading.{Short, descend}
use nyan_os.Vfs.Descend.{vfs_navigate-descend, vfs_navigate-resolve_path}

-- "/" is mounted at 1, and "/d" at 2, where 3 is the one entry of any directory.
abbrev root_mount : Mount
root_mount = record { path = 47 ∷ []; root = 1 }

abbrev data_mount : Mount
data_mount = record { path = 47 ∷ 100 ∷ []; root = 2 }

abbrev table : List Mount
table = root_mount ∷ data_mount ∷ []

abbrev disk : Tree
disk = record {
  flags = λ node. if node == 3 then 1 else 2;
  has_finddir = λ node. true;
  finddir = λ node name. some 3;
}

-- "/d/f".
abbrev file : List ℕ
file = 47 ∷ 100 ∷ 47 ∷ 102 ∷ []

best_mount-Best_example : Best file table (best_mount file table none)
best_mount-Best_example = best_mount-Best file table

chosen : best_mount file table none ≡ some data_mount
unfolding best_mount is_match starts_with
chosen = refl

file-Short : Short (components [] file)
unfolding components Short
file-Short = (omega arith, (omega arith, (omega arith, tt)))

mounted : data_mount.root ≢ 0
mounted e = absurd (ground arith)

vfs_navigate-descend_example :
    vfs_navigate disk table file ≡ descend disk 2 (components [] (drop 2 file))
vfs_navigate-descend_example =
    vfs_navigate-descend disk table file data_mount chosen mounted file-Short

reaches : vfs_navigate disk table file ≡ found 3
unfolding components descend enter_node
reaches = vfs_navigate-descend disk table file data_mount chosen mounted file-Short

resolves : resolve_path true true (47 ∷ []) (100 ∷ 47 ∷ 102 ∷ []) ≡ path file
unfolding resolve_path full_path walk read_char end_name push rebuilt rebuild same_name
resolves = refl

vfs_navigate-resolve_path_example : vfs_navigate disk table file ≢ endless
vfs_navigate-resolve_path_example =
    vfs_navigate-resolve_path disk table true true (47 ∷ []) (100 ∷ 47 ∷ 102 ∷ []) file refl
      resolves
