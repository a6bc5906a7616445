-- ===== src/Files/Tests.antt =====
-- Open files on a concrete run.
use nyan_os.Base.{◌<◌, ◌≡◌, refl, none, some, length, arith}
use nyan_os.Files.{
  Files, new_handle, sys_open, open_at, sys_close, sys_dup2, dup_slot, fork_files, retain_all,
  vfs_retain, vfs_close,
}
use nyan_os.Files.Keeps.{Counted}
use nyan_os.Files.Owners.{
  first_files, Reach, start, next, open_file, close, dup, fork, Reach-Counted,
}

-- A file is opened, duplicated and inherited; then the parent closes its first place.
abbrev opened : Files
opened = sys_open 0 100 (new_handle 7 0 0) first_files

abbrev inherited : Files
inherited = fork_files 0 (sys_dup2 0 3 4 opened)

abbrev shared : Files
shared = sys_close 0 3 inherited

nothing_yet : first_files.handles 100 ≡ none
unfolding first_files
nothing_yet = refl

parent_there : 0 < length (sys_dup2 0 3 4 opened).tables
unfolding first_files new_handle sys_open open_at sys_dup2 dup_slot sys_close
parent_there = omega arith

shared-Reach : Reach shared
shared-Reach =
    next
      (next (next (next start (open_file 0 100 7 0 0 nothing_yet)) (dup 0 3 4))
        (fork 0 parent_there))
      (close 0 3)

three_left : shared.handles 100 ≡ some (record { node = 7; offset = 0; mode = 0; ref_count = 3 })
unfolding first_files new_handle sys_open open_at sys_dup2 dup_slot sys_close fork_files retain_all
    vfs_retain vfs_close
three_left = refl

Reach-Counted_example : Counted shared
Reach-Counted_example = Reach-Counted shared shared-Reach
