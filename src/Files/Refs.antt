-- ===== src/Files/Refs.antt =====
-- What the functions on handles do to the counts.
use nyan_os.Base.{
  ℕ, ◌+◌, ◌-◌, ◌<◌, ◌≤◌, ◌≡◌, refl, sym, ap, ◌∙◌, Option, none, some, List, [], ◌∷◌, arith, ltb,
  ◌==◌, Bool-cases, inl, inr,
}
use nyan_os.Files.{
  at_offset, Handle, Files, write, one_more, one_less, vfs_retain, vfs_close, close_all, retain_all,
}
use nyan_os.Files.Counts.{points, count}

-- A handle that is not there has no references.
abbrev pub refs_of : Option Handle → ℕ
refs_of none = 0
refs_of (some x) = x.ref_count

-- A handle in memory has references.
abbrev pub IsLive : Option Handle → Type 0
IsLive none = Unit {0}
IsLive (some x) = 0 < x.ref_count

abbrev pub AllLive : (ℕ → Option Handle) → Type 0
AllLive handles = (k : ℕ) → IsLive (handles k)

one_more-refs : (o : Option Handle) → 0 < refs_of o → refs_of (one_more o) ≡ refs_of o + 1
one_more-refs none h = absurd (omega arith)
one_more-refs (some x) h = refl

one_more-IsLive : (o : Option Handle) → IsLive o → IsLive (one_more o)
one_more-IsLive none l = tt
one_more-IsLive (some x) l = omega arith

one_less-refs : (o : Option Handle) → 0 < refs_of o → refs_of (one_less o) + 1 ≡ refs_of o
one_less-refs none h = absurd (omega arith)
one_less-refs (some x) h = elim (Bool-cases (ltb 0 (x.ref_count - 1))) [
  | inl left ↦ rw left (omega arith)
  | inr last ↦ rw last (ground arith)
]

one_less-IsLive : (o : Option Handle) → IsLive (one_less o)
one_less-IsLive none = tt
one_less-IsLive (some x) = elim (Bool-cases (ltb 0 (x.ref_count - 1))) [
  | inl left ↦ rw left (ground arith)
  | inr last ↦ rw last tt
]

pub write-AllLive :
    (handles : ℕ → Option Handle) (h : ℕ) (o : Option Handle)
    → AllLive handles
    → IsLive o
    → AllLive (write handles h o)
write-AllLive handles h o l new k = elim (Bool-cases (k == h)) [
  | inl this ↦ rw this new
  | inr other ↦ rw other (l k)
]

-- A move of the offset counts nothing.
module _ (f : ℕ → ℕ) (h : ℕ) (handles : ℕ → Option Handle) where
  pub at_offset-refs :
      (k : ℕ) → refs_of (write handles h (at_offset f (handles h)) k) ≡ refs_of (handles k)
  at_offset-refs k = elim (Bool-cases (k == h)) [
    | inl this ↦
        let same : k ≡ h = ground arith in
        rw this (same_refs (handles h) ∙ ap (λ j. refs_of (handles j)) (sym same))
    | inr other ↦ rw other refl
  ]
    where
      same_refs : (o : Option Handle) → refs_of (at_offset f o) ≡ refs_of o
      same_refs none = refl
      same_refs (some x) = refl

  pub at_offset-AllLive : AllLive handles → AllLive (write handles h (at_offset f (handles h)))
  at_offset-AllLive l =
      write-AllLive handles h (at_offset f (handles h)) l (same_live (handles h) (l h))
    where
      same_live : (o : Option Handle) → IsLive o → IsLive (at_offset f o)
      same_live none i = tt
      same_live (some x) i = i

pub vfs_retain-refs :
    (h k : ℕ) (handles : ℕ → Option Handle)
    → 0 < refs_of (handles h)
    → refs_of (vfs_retain h handles k) ≡ refs_of (handles k) + points k (some h)
unfolding vfs_retain
vfs_retain-refs h k handles p = elim (Bool-cases (k == h)) [
  | inl this ↦
      let same : k ≡ h = ground arith in
      rw this (one_more-refs (handles h) p ∙ ap (λ j. refs_of (handles j) + 1) (sym same))
  | inr other ↦ rw other (omega arith)
]

pub vfs_retain-AllLive :
    (h : ℕ) (handles : ℕ → Option Handle) → AllLive handles → AllLive (vfs_retain h handles)
unfolding vfs_retain
vfs_retain-AllLive h handles l =
    write-AllLive handles h (one_more (handles h)) l (one_more-IsLive (handles h) (l h))

pub vfs_close-refs :
    (h k : ℕ) (s : Files)
    → 0 < refs_of (s.handles h)
    → refs_of ((vfs_close h s).handles k) + points k (some h) ≡ refs_of (s.handles k)
unfolding vfs_close
vfs_close-refs h k s p = elim (Bool-cases (k == h)) [
  | inl this ↦
      let same : k ≡ h = ground arith in
      rw this (one_less-refs (s.handles h) p ∙ ap (λ j. refs_of (s.handles j)) (sym same))
  | inr other ↦ rw other (omega arith)
]

pub vfs_close-AllLive : (h : ℕ) (s : Files) → AllLive s.handles → AllLive (vfs_close h s).handles
unfolding vfs_close
vfs_close-AllLive h s l =
    write-AllLive s.handles h (one_less (s.handles h)) l (one_less-IsLive (s.handles h))

points_self : (h : ℕ) → points h (some h) ≡ 1
points_self h = ground arith

-- All files of a table are closed.
pub record ClosedAll (fs : List (Option ℕ)) (s out : Files) : Type 0 where
  pub refs : (k : ℕ) → refs_of (out.handles k) + count k fs ≡ refs_of (s.handles k)
  pub live : AllLive out.handles
  pub tables : out.tables ≡ s.tables

pub close_all-ClosedAll :
    (fs : List (Option ℕ)) (s : Files)
    → ((k : ℕ) → count k fs ≤ refs_of (s.handles k))
    → AllLive s.handles
    → ClosedAll fs s (close_all fs s)
unfolding close_all vfs_close
close_all-ClosedAll [] s h l = record { refs = λ k. omega arith; live = l; tables = refl }
close_all-ClosedAll (none ∷ fs) s h l =
    let r = close_all-ClosedAll fs s (λ k. omega (arith, h k)) l in
    record { refs = λ k. omega (arith, r.refs k); live = r.live; tables = r.tables }
close_all-ClosedAll (some a ∷ fs) s h l =
    let p : 0 < refs_of (s.handles a) = omega (arith, h a, points_self a) in
    let c = λ (k : ℕ). vfs_close-refs a k s p in
    let r =
      close_all-ClosedAll fs (vfs_close a s) (λ k. omega (arith, h k, c k))
        (vfs_close-AllLive a s l) in
    record { refs = λ k. omega (arith, r.refs k, c k); live = r.live; tables = r.tables }

-- All files of a table are retained.
pub record RetainedAll (fs : List (Option ℕ)) (old new : ℕ → Option Handle) : Type 0 where
  pub refs : (k : ℕ) → refs_of (new k) ≡ refs_of (old k) + count k fs
  pub live : AllLive new

pub retain_all-RetainedAll :
    (fs : List (Option ℕ)) (handles : ℕ → Option Handle)
    → ((k : ℕ) → 0 < count k fs → 0 < refs_of (handles k))
    → AllLive handles
    → RetainedAll fs handles (retain_all fs handles)
unfolding retain_all
retain_all-RetainedAll [] handles h l = record { refs = λ k. omega arith; live = l }
retain_all-RetainedAll (none ∷ fs) handles h l =
    let r = retain_all-RetainedAll fs handles (λ k p. h k (omega arith)) l in
    record { refs = λ k. omega (arith, r.refs k); live = r.live }
retain_all-RetainedAll (some a ∷ fs) handles h l =
    let p : 0 < refs_of (handles a) = h a (omega (arith, points_self a)) in
    let c = λ (k : ℕ). vfs_retain-refs a k handles p in
    let r =
      retain_all-RetainedAll fs (vfs_retain a handles)
        (λ k q. omega (arith, c k, h k (omega arith))) (vfs_retain-AllLive a handles l) in
    record { refs = λ k. omega (arith, r.refs k, c k); live = r.live }
