-- ===== src/Files/Keeps.antt =====
-- That each operation keeps the counts of the handles.
use nyan_os.Base.{
  ℕ, zero, suc, ◌+◌, ◌-◌, ◌<◌, ◌≡◌, ◌≢◌, refl, sym, ap, ◌∙◌, false, ◌||◌, Option, none, some, List,
  [], ◌∷◌, arith, length, length-set, length-replicate, length-drop, get_or, get_or-set_self,
  get_or-set_ne, set, drop, replicate, leb, ◌==◌, Bool-cases, Option-cases, inl, inr, subst,
}
use nyan_os.Files.{
  at_offset, vfs_read, vfs_write, vfs_seek, Handle, Files, write, fd_tbl_of, put_slot, find_free_fd,
  open_at, sys_open, close_slot, sys_close, dup_slot, sys_dup2, sched_clean_fds, fork_files,
  vfs_close, vfs_retain,
}
use nyan_os.Files.Counts.{
  points, total, count-set, total-set, total-append, count-replicate, points-count, count-total,
  get_or-inside, inside, Sized, Sized-set, Sized-append, length-get_or, free_from-empty,
  get_or-drop,
}
use nyan_os.Files.Refs.{
  at_offset-refs, at_offset-AllLive, refs_of, AllLive, write-AllLive, vfs_retain-refs,
  vfs_retain-AllLive, vfs_close-refs, vfs_close-AllLive, close_all-ClosedAll,
  retain_all-RetainedAll,
}

-- A handle is in memory exactly as long as a place points to it.
pub record Counted (s : Files) : Type 0 where
  pub refs : (k : ℕ) → refs_of (s.handles k) ≡ total k s.tables
  pub live : AllLive s.handles
  pub sized : Sized s.tables

-- What a change of one place does to the number of places.
total-put_slot :
    (k task fd : ℕ) (o : Option ℕ) (s : Files)
    → task < length s.tables
    → fd < length (fd_tbl_of s task)
    → total k (put_slot task fd o s).tables + points k (get_or (fd_tbl_of s task) fd none)
      ≡ total k s.tables + points k o
total-put_slot k task fd o s ht hf =
    let a = total-set k task s.tables (set (fd_tbl_of s task) fd o) ht in
    let b = count-set k fd (fd_tbl_of s task) o hf in omega (arith, a, b)

Sized-put_slot :
    (task fd : ℕ) (o : Option ℕ) (s : Files)
    → task < length s.tables
    → Sized s.tables
    → Sized (put_slot task fd o s).tables
Sized-put_slot task fd o s ht z =
    Sized-set task s.tables _
      (length-set (fd_tbl_of s task) fd o ∙ length-get_or task s.tables ht z) z

-- A place that points to a handle keeps it in memory.
slot-refs :
    (task fd h : ℕ) (s : Files)
    → Counted s
    → get_or (fd_tbl_of s task) fd none ≡ some h
    → 0 < refs_of (s.handles h)
slot-refs task fd h s v e =
    let one : points h (get_or (fd_tbl_of s task) fd none) ≡ 1 = ap (points h) e ∙ ground arith in
    omega (arith, one, v.refs h, points-count h fd (fd_tbl_of s task), count-total h task s.tables)

close_slot-Counted :
    (task fd h : ℕ) (s : Files)
    → Counted s
    → get_or (fd_tbl_of s task) fd none ≡ some h
    → Counted (put_slot task fd none (vfs_close h s))
unfolding vfs_close
close_slot-Counted task fd h s v e =
    let ht = inside task fd h s.tables e in
    let hf = get_or-inside fd h (fd_tbl_of s task) e in
    let p = slot-refs task fd h s v e in
    record {
      refs = λ k. omega (
        arith,
        v.refs k,
        vfs_close-refs h k s p,
        ap (points k) e,
        total-put_slot k task fd none s ht hf,
      );
      live = vfs_close-AllLive h s v.live;
      sized = Sized-put_slot task fd none s ht v.sized;
    }

pub sys_close-Counted : (task fd : ℕ) (s : Files) → Counted s → Counted (sys_close task fd s)
unfolding sys_close close_slot
sys_close-Counted task fd s v = elim (Bool-cases (leb 16 fd)) [
  | inl outside ↦ rw outside v
  | inr in_range ↦ elim (Option-cases (get_or (fd_tbl_of s task) fd none)) [
    | inl empty ↦ rw (in_range, empty) v
    | inr (h, e) ↦ rw (in_range, e) (close_slot-Counted task fd h s v e)
  ]
]

open_at-Counted :
    (task h fd : ℕ) (x : Handle) (s : Files)
    → Counted s
    → s.handles h ≡ none
    → x.ref_count ≡ 1
    → task < length s.tables
    → fd < length (fd_tbl_of s task)
    → get_or (fd_tbl_of s task) fd none ≡ none
    → Counted (open_at task h x (some fd) s)
unfolding open_at
open_at-Counted task h fd x s v fresh one ht hf e = record {
  refs = λ k.
      omega
        (arith, v.refs k, new_refs k, ap (points k) e, total-put_slot k task fd (some h) s ht hf);
  live = write-AllLive s.handles h (some x) v.live (omega (arith, one));
  sized = Sized-put_slot task fd (some h) s ht v.sized;
}
  where
    new_refs :
        (k : ℕ) → refs_of (write s.handles h (some x) k) ≡ refs_of (s.handles k) + points k (some h)
    new_refs k = elim (Bool-cases (k == h)) [
      | inl this ↦
          let same : k ≡ h = ground arith in
          let gone : refs_of (s.handles k) ≡ 0 =
            ap (λ j. refs_of (s.handles j)) same ∙ ap refs_of fresh in
          rw this (omega (arith, one, gone))
      | inr other ↦ rw other (omega arith)
    ]

inside_length :
    (task : ℕ) (ts : List (List (Option ℕ))) → 0 < length (get_or ts task []) → task < length ts
inside_length task [] h = absurd (omega arith)
inside_length zero (gs ∷ ts) h = omega arith
inside_length (suc task) (gs ∷ ts) h = omega (arith, inside_length task ts h)

pub sys_open-Counted :
    (task h : ℕ) (x : Handle) (s : Files)
    → Counted s
    → s.handles h ≡ none
    → x.ref_count ≡ 1
    → Counted (sys_open task h x s)
unfolding sys_open open_at
sys_open-Counted task h x s v fresh one = elim (Option-cases (find_free_fd (fd_tbl_of s task))) [
  | inl full ↦ rw full v
  | inr (fd, e) ↦
      let r = free_from-empty 3 fd (drop 3 (fd_tbl_of s task)) e in
      let here_it_is : 3 + (fd - 3) ≡ fd = omega (arith, r.0) in
      let empty : get_or (fd_tbl_of s task) fd none ≡ none =
        subst (λ j. get_or (fd_tbl_of s task) j none ≡ none) here_it_is
          (sym (get_or-drop 3 (fd - 3) (fd_tbl_of s task)) ∙ r.2) in
      let hf : fd < length (fd_tbl_of s task) =
        omega (arith, r.0, r.1, length-drop 3 (fd_tbl_of s task)) in
      rw e (
        open_at-Counted task h fd x s v fresh one (inside_length task s.tables (omega (arith, hf)))
          hf empty)
]

-- The table after a place has been closed.
sys_close-empty :
    (task fd : ℕ) (s : Files)
    → (leb 16 fd) ≡ false
    → get_or (fd_tbl_of (sys_close task fd s) task) fd none ≡ none
unfolding sys_close close_slot vfs_close
sys_close-empty task fd s in_range = elim (Option-cases (get_or (fd_tbl_of s task) fd none)) [
  | inl empty ↦ rw (in_range, empty) empty
  | inr (h, e) ↦
      rw (in_range, e)
        (ap (λ fs. get_or fs fd none)
            (get_or-set_self s.tables task _ [] (inside task fd h s.tables e))
          ∙ get_or-set_self (fd_tbl_of s task) fd none none
              (get_or-inside fd h (fd_tbl_of s task) e))
]

sys_close-other :
    (task fd other : ℕ) (s : Files)
    → fd ≢ other
    → get_or (fd_tbl_of (sys_close task fd s) task) other none
      ≡ get_or (fd_tbl_of s task) other none
unfolding sys_close close_slot vfs_close
sys_close-other task fd other s ne = elim (Bool-cases (leb 16 fd)) [
  | inl outside ↦ rw outside refl
  | inr in_range ↦ elim (Option-cases (get_or (fd_tbl_of s task) fd none)) [
    | inl empty ↦ rw (in_range, empty) refl
    | inr (h, e) ↦
        rw (in_range, e)
          (ap (λ fs. get_or fs other none)
              (get_or-set_self s.tables task _ [] (inside task fd h s.tables e))
            ∙ get_or-set_ne (fd_tbl_of s task) fd other none none ne)
  ]
]

-- An empty place gets a file that another place of the table has.
dup_closed :
    (task old_fd new_fd h : ℕ) (s : Files)
    → Counted s
    → new_fd < 16
    → get_or (fd_tbl_of s task) old_fd none ≡ some h
    → get_or (fd_tbl_of s task) new_fd none ≡ none
    → Counted (record (put_slot task new_fd (some h) s) { handles = vfs_retain h s.handles })
dup_closed task old_fd new_fd h s v hn e empty =
    let ht = inside task old_fd h s.tables e in
    let hf : new_fd < length (fd_tbl_of s task) =
      omega (arith, hn, length-get_or task s.tables ht v.sized) in
    let p = slot-refs task old_fd h s v e in
    record {
      refs = λ k. omega (
        arith,
        v.refs k,
        vfs_retain-refs h k s.handles p,
        ap (points k) empty,
        total-put_slot k task new_fd (some h) s ht hf,
      );
      live = vfs_retain-AllLive h s.handles v.live;
      sized = Sized-put_slot task new_fd (some h) s ht v.sized;
    }

dup_slot-Counted :
    (task old_fd new_fd : ℕ) (o : Option ℕ) (s : Files)
    → Counted s
    → leb 16 new_fd ≡ false
    → new_fd ≢ old_fd
    → get_or (fd_tbl_of s task) old_fd none ≡ o
    → Counted (dup_slot task new_fd o s)
unfolding dup_slot
dup_slot-Counted task old_fd new_fd none s v hn ne e = v
dup_slot-Counted task old_fd new_fd (some h) s v hn ne e =
    dup_closed task old_fd new_fd h (sys_close task new_fd s) (sys_close-Counted task new_fd s v)
      (ground arith) (sys_close-other task new_fd old_fd s ne ∙ e)
      (sys_close-empty task new_fd s hn)

pub sys_dup2-Counted :
    (task old_fd new_fd : ℕ) (s : Files) → Counted s → Counted (sys_dup2 task old_fd new_fd s)
unfolding sys_dup2
sys_dup2-Counted task old_fd new_fd s v =
    elim (Bool-cases (leb 16 old_fd || leb 16 new_fd || old_fd == new_fd)) [
      | inl refused ↦ rw refused v
      | inr ok ↦
          rw ok (dup_slot-Counted task old_fd new_fd _ s v (ground arith) (λ e. ground arith) refl)
    ]

pub sched_clean_fds-Counted :
    (task : ℕ) (s : Files) → task < length s.tables → Counted s → Counted (sched_clean_fds task s)
unfolding sched_clean_fds
sched_clean_fds-Counted task s ht v =
    let c =
      close_all-ClosedAll (fd_tbl_of s task) s
        (λ k. omega (arith, v.refs k, count-total k task s.tables)) v.live in
    record {
      refs = λ k. rw c.tables (
          omega (
            arith,
            v.refs k,
            c.refs k,
            total-set k task s.tables (replicate 16 none) ht,
            count-replicate k 16,
          ));
      live = c.live;
      sized = rw c.tables (
          Sized-set task s.tables (replicate 16 none) (length-replicate {A = Option ℕ} 16 none)
            v.sized);
    }

pub fork_files-Counted :
    (task : ℕ) (s : Files) → task < length s.tables → Counted s → Counted (fork_files task s)
unfolding fork_files
fork_files-Counted task s ht v =
    let r =
      retain_all-RetainedAll (fd_tbl_of s task) s.handles
        (λ k p. omega (arith, p, v.refs k, count-total k task s.tables)) v.live in
    record {
      refs = λ k. omega (arith, v.refs k, r.refs k, total-append k s.tables (fd_tbl_of s task));
      live = r.live;
      sized =
          Sized-append s.tables (fd_tbl_of s task) (length-get_or task s.tables ht v.sized) v.sized;
    }

-- Reading, writing and seeking.
module _ (s : Files) (v : Counted s) (h : ℕ) where
  moved-Counted :
      (f : ℕ → ℕ) → Counted (record s { handles = write s.handles h (at_offset f (s.handles h)) })
  moved-Counted f = record {
    refs = λ k. at_offset-refs f h s.handles k ∙ v.refs k;
    live = at_offset-AllLive f h s.handles v.live;
    sized = v.sized;
  }

  pub vfs_read-Counted :
      (n : Option ℕ) → Counted (record s { handles = (vfs_read h n s.handles).1 })
  unfolding vfs_read
  vfs_read-Counted none = record { refs = v.refs; live = v.live; sized = v.sized }
  vfs_read-Counted (some nbytes) = moved-Counted (λ offset. offset + nbytes)

  pub vfs_write-Counted :
      (n : Option ℕ) → Counted (record s { handles = (vfs_write h n s.handles).1 })
  unfolding vfs_write
  vfs_write-Counted none = record { refs = v.refs; live = v.live; sized = v.sized }
  vfs_write-Counted (some nbytes) = moved-Counted (λ offset. offset + nbytes)

  pub vfs_seek-Counted :
      (new_offset : ℕ) → Counted (record s { handles = vfs_seek h new_offset s.handles })
  unfolding vfs_seek
  vfs_seek-Counted new_offset = moved-Counted (λ offset. new_offset)
