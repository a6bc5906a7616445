-- ===== src/Files/Owners.antt =====
-- All that tasks do with their files, in any order: each handle counts the places that point to it.
use nyan_os.Base.{get_or, Option, some, ℕ, ◌<◌, ◌≡◌, refl, none, [], ◌∷◌, length, replicate}
use nyan_os.Files.{
  fd_tbl_of, vfs_read, vfs_write, vfs_seek, Files, new_handle, sys_open, sys_close, sys_dup2,
  sched_clean_fds, fork_files,
}
use nyan_os.Files.Keeps.{
  vfs_read-Counted, vfs_write-Counted, vfs_seek-Counted, Counted, sys_open-Counted,
  sys_close-Counted, sys_dup2-Counted, sched_clean_fds-Counted, fork_files-Counted,
}

-- The kernel's task alone, with its 16 places empty.
unfoldable pub first_files : Files
first_files = record { handles = λ h. none; tables = replicate 16 none ∷ []; log = [] }

-- A new handle lies where no other does, as `kmalloc` promises.
pub data Step (s : Files) : Files → Type 0 where
  open_file :
      (task h node len mode : ℕ)
      → s.handles h ≡ none
      → Step s (sys_open task h (new_handle node len mode) s)
  close : (task fd : ℕ) → Step s (sys_close task fd s)
  dup : (task old_fd new_fd : ℕ) → Step s (sys_dup2 task old_fd new_fd s)
  clean_up : (task : ℕ) → task < length s.tables → Step s (sched_clean_fds task s)
  fork : (task : ℕ) → task < length s.tables → Step s (fork_files task s)
  read_file :
      (task fd h : ℕ) (n : Option ℕ)
      → get_or (fd_tbl_of s task) fd none ≡ some h
      → Step s (record s { handles = (vfs_read h n s.handles).1 })
  write_file :
      (task fd h : ℕ) (n : Option ℕ)
      → get_or (fd_tbl_of s task) fd none ≡ some h
      → Step s (record s { handles = (vfs_write h n s.handles).1 })
  seek_file :
      (task fd h new_offset : ℕ)
      → get_or (fd_tbl_of s task) fd none ≡ some h
      → Step s (record s { handles = vfs_seek h new_offset s.handles })

pub data Reach : Files → Type 0 where
  start : Reach first_files
  next : {s t : Files} → Reach s → Step s t → Reach t

Step-Counted : {s t : Files} → Counted s → Step s t → Counted t
unfolding new_handle
Step-Counted {s} v (open_file task h node len mode fresh) =
    sys_open-Counted task h (new_handle node len mode) s v fresh refl
Step-Counted {s} v (close task fd) = sys_close-Counted task fd s v
Step-Counted {s} v (dup task old_fd new_fd) = sys_dup2-Counted task old_fd new_fd s v
Step-Counted {s} v (clean_up task ht) = sched_clean_fds-Counted task s ht v
Step-Counted {s} v (fork task ht) = fork_files-Counted task s ht v
Step-Counted {s} v (read_file task fd h n e) = vfs_read-Counted s v h n
Step-Counted {s} v (write_file task fd h n e) = vfs_write-Counted s v h n
Step-Counted {s} v (seek_file task fd h new_offset e) = vfs_seek-Counted s v h new_offset

first-Counted : Counted first_files
unfolding first_files
first-Counted = record { refs = λ k. refl; live = λ k. tt; sized = (refl, tt) }

-- Whatever tasks open, read, write, seek, close, duplicate, leave to children and close when they end, in any order: the
-- count of each handle in memory is the number of places in tables that point to it, and not 0, and no
-- place points to a handle that was freed.
pub Reach-Counted : (s : Files) → Reach s → Counted s
Reach-Counted _ start = first-Counted
Reach-Counted _ (next r st) = Step-Counted (Reach-Counted _ r) st
