-- ===== src/Files.antt =====
-- Open files: the handles of src/fs/vfs.c and the tables of file descriptors that point to them, with
-- the system calls of src/arch/syscall.c and the parts of src/sched/sched.c that change a table. A
-- handle is known by its address; `kmalloc` gives the address of a new one. What the operations of a
-- node do is not modelled; the nodes whose `close` is called are logged. A count does not wrap round.
-- The source has no lock here: each call is one step, and a timer interrupt inside it is not modelled.
pub mod Counts
pub mod Refs
pub mod Keeps
pub mod Owners
mod Tests
use nyan_os.Base.{
  bit_and, ℕ, zero, suc, ◌+◌, ◌-◌, ◌%◌, ◌^◌, Bool, true, false, not, ◌&&◌, ◌||◌, Option, none, some,
  List, [], ◌∷◌, ◌++◌, length, get_or, set, drop, replicate, leb, ltb, ◌==◌, if◌then◌else◌,
}
use nyan_os.Sched.{max_open_files}

abbrev pub o_append : ℕ
o_append = 0x40

pub record Handle : Type 0 where
  pub node : ℕ
  pub offset : ℕ
  pub mode : ℕ
  pub ref_count : ℕ

-- The handles in memory, the table of each task, and the nodes that have been closed.
pub record Files : Type 0 where
  pub handles : ℕ → Option Handle
  pub tables : List (List (Option ℕ))
  pub log : List ℕ

abbrev pub write : (ℕ → Option Handle) → ℕ → Option Handle → ℕ → Option Handle
write handles h x k = if k == h then x else handles k

abbrev pub one_more : Option Handle → Option Handle
one_more none = none
one_more (some x) = some (record x { ref_count = x.ref_count + 1 })

-- A handle that is not there is memory that was freed: nothing can be said.
pub vfs_retain : ℕ → (ℕ → Option Handle) → ℕ → Option Handle
vfs_retain h handles = write handles h (one_more (handles h))

-- One reference less; without any the handle is freed.
abbrev pub one_less : Option Handle → Option Handle
one_less none = none
one_less (some x) =
    if ltb 0 (x.ref_count - 1) then some (record x { ref_count = x.ref_count - 1 }) else none

abbrev pub closed_node : Option Handle → List ℕ
closed_node none = []
closed_node (some x) = if ltb 0 (x.ref_count - 1) then [] else x.node ∷ []

pub vfs_close : ℕ → Files → Files
vfs_close h s = record s {
  handles = write s.handles h (one_less (s.handles h));
  log = s.log ++ closed_node (s.handles h);
}

abbrev pub at_offset : (ℕ → ℕ) → Option Handle → Option Handle
at_offset f none = none
at_offset f (some x) = some (record x { offset = f x.offset % 2 ^ 64 })

-- The bytes that the node's operation says it has moved, if it has that operation; they move the
-- offset. It is the same for a write.
pub vfs_read : ℕ → Option ℕ → (ℕ → Option Handle) → ℕ × (ℕ → Option Handle)
vfs_read h none handles = (0, handles)
vfs_read h (some nbytes) handles =
    (nbytes, write handles h (at_offset (λ offset. offset + nbytes) (handles h)))

pub vfs_write : ℕ → Option ℕ → (ℕ → Option Handle) → ℕ × (ℕ → Option Handle)
vfs_write h none handles = (0, handles)
vfs_write h (some nbytes) handles =
    (nbytes, write handles h (at_offset (λ offset. offset + nbytes) (handles h)))

pub vfs_seek : ℕ → ℕ → (ℕ → Option Handle) → ℕ → Option Handle
vfs_seek h new_offset handles = write handles h (at_offset (λ offset. new_offset) (handles h))

-- The table of a task; a task that is not there has none.
abbrev pub fd_tbl_of : Files → ℕ → List (Option ℕ)
fd_tbl_of s task = get_or s.tables task []

abbrev pub put_slot : ℕ → ℕ → Option ℕ → Files → Files
put_slot task fd o s = record s { tables = set s.tables task (set (fd_tbl_of s task) fd o) }

-- The first free place from the third on, if there is one.
abbrev pub free_from : ℕ → List (Option ℕ) → Option ℕ
free_from i [] = none
free_from i (none ∷ fs) = some i
free_from i (some h ∷ fs) = free_from (suc i) fs

abbrev pub find_free_fd : List (Option ℕ) → Option ℕ
find_free_fd fd_tbl = free_from 3 (drop 3 fd_tbl)

-- The end of `vfs_open`, for the node that was found and its length, and a cell of `kmalloc`.
pub new_handle : ℕ → ℕ → ℕ → Handle
new_handle node node_length mode = record {
  node = node;
  offset = if bit_and mode o_append == 0 then 0 else node_length;
  mode = mode;
  ref_count = 1;
}

pub open_at : ℕ → ℕ → Handle → Option ℕ → Files → Files
open_at task h x none s = s
open_at task h x (some fd) s =
    put_slot task fd (some h) (record s { handles = write s.handles h (some x) })

-- `sys_open`, where `vfs_open` gives the new handle `x` at `h`.
pub sys_open : ℕ → ℕ → Handle → Files → Files
unfolding open_at
sys_open task h x s = open_at task h x (find_free_fd (fd_tbl_of s task)) s

abbrev pub close_slot : ℕ → ℕ → Option ℕ → Files → Files
unfolding vfs_close
close_slot task fd none s = s
close_slot task fd (some h) s = put_slot task fd none (vfs_close h s)

pub sys_close : ℕ → ℕ → Files → Files
unfolding close_slot
sys_close task fd s =
    if leb max_open_files fd then s else close_slot task fd (get_or (fd_tbl_of s task) fd none) s

-- What was in the new place is closed, and the old file goes there and is retained.
pub dup_slot : ℕ → ℕ → Option ℕ → Files → Files
unfolding vfs_retain sys_close
dup_slot task new_fd none s = s
dup_slot task new_fd (some h) s =
    let t = put_slot task new_fd (some h) (sys_close task new_fd s) in
    record t { handles = vfs_retain h t.handles }

pub sys_dup2 : ℕ → ℕ → ℕ → Files → Files
unfolding dup_slot
sys_dup2 task old_fd new_fd s =
    if leb max_open_files old_fd || leb max_open_files new_fd || old_fd == new_fd
    then s
    else dup_slot task new_fd (get_or (fd_tbl_of s task) old_fd none) s

-- `sched_clean_fds`.
pub close_all : List (Option ℕ) → Files → Files
unfolding vfs_close
close_all [] s = s
close_all (none ∷ fs) s = close_all fs s
close_all (some h ∷ fs) s = close_all fs (vfs_close h s)

pub sched_clean_fds : ℕ → Files → Files
unfolding close_all
sched_clean_fds task s =
    let t = close_all (fd_tbl_of s task) s in
    record t { tables = set t.tables task (replicate max_open_files none) }

-- The files of `task_factory_fork`: a new task with a copy of the table.
pub retain_all : List (Option ℕ) → (ℕ → Option Handle) → ℕ → Option Handle
unfolding vfs_retain
retain_all [] handles = handles
retain_all (none ∷ fs) handles = retain_all fs handles
retain_all (some h ∷ fs) handles = retain_all fs (vfs_retain h handles)

pub fork_files : ℕ → Files → Files
unfolding retain_all
fork_files task s = record s {
  handles = retain_all (fd_tbl_of s task) s.handles;
  tables = s.tables ++ fd_tbl_of s task ∷ [];
}
