-- ===== src/PageTables/Walk.antt =====
-- The walk that creates the tables it misses.
use nyan_os.Base.{
  ℕ, zero, suc, ◌+◌, ◌*◌, ◌%◌, ◌<◌, ◌≡◌, refl, ap, subst, ◌∙◌, true, false, Option, none, some,
  arith, ◌==◌, ==_iff, Bool-cases, inl, inr,
}
use nyan_os.Pmm.{Pmm, page_size, pmm_alloc_frame}
use nyan_os.Pmm.Bitmap.{used}
use nyan_os.Pmm.Alloc.{Allocation, frame, out_of_memory, pmm_alloc_frame-Allocation}
use nyan_os.PageTables.{
  Machine, is_present, pte_get_addr, put_word, clear, table_entry, new_table, next_table, then_in,
}
use nyan_os.PageTables.Entries.{is_present-table_entry}
use nyan_os.PageTables.Levels.{above, reach, reach_down, walk_down}
use nyan_os.PageTables.Inv.{Role, Inv, child, put_word_self}
use nyan_os.PageTables.Grow.{
  Grown, Grown-refl, Grown-trans, InUse-free, with_table, added-Grown, with_table_new, new_address,
}

abbrev pub Full : Pmm → Type 0
Full p = (j : ℕ) → j < p.total_pages → used p j ≡ true

-- One level down, in a tree that may have grown.
data Descended (root : ℕ) (role : Role) (s : Machine) (t i m k : ℕ)
    : Option ℕ × Machine → Type 0 where
  at :
      (role' : Role) (s' : Machine) (u : ℕ)
      → Grown root role s role' s'
      → role' u ≡ some (m, k)
      → is_present (s'.mem t i) ≡ true
      → pte_get_addr (s'.mem t i) ≡ u
      → Descended root role s t i m k (some u, s')
  stuck :
      (s' : Machine)
      → Full s'.pmm
      → Grown root role s role s'
      → Descended root role s t i m k (none, s')

module _ (root : ℕ) (role : Role) (s : Machine) (inv : Inv role root s) where
  new_table-Descended :
      (m t k i : ℕ) (got : ℕ × Pmm)
      → role t ≡ some (suc m, k)
      → is_present (s.mem t i) ≡ false
      → Allocation s.pmm got
      → Descended root role s t i m (k * 512 + i) (new_table t i got s)
  unfolding new_table
  new_table-Descended m t k i got r a (out_of_memory full) =
      stuck s full (Grown-refl root role s inv)
  new_table-Descended m t k i got r a (frame f p' low free c) =
      elim (Bool-cases (f * page_size == 0)) [
        | inl nul ↦
            absurd
              (InUse-free s.pmm f 0 inv.zero free (omega (arith, (==_iff (f * page_size) 0).0 nul)))
        | inr ok ↦
            let new : pte_get_addr (mem' t i) ≡ f * page_size =
              ap pte_get_addr entry' ∙ new_address root role s inv p' f low free c m t k i r a in
            rw ok (
              at (with_table root role s inv p' f low free c m t k i r a) _ (f * page_size)
                (added-Grown root role s inv p' f low free c m t k i r a)
                (with_table_new root role s inv p' f low free c m t k i r a)
                (ap is_present entry' ∙ is_present-table_entry (f * page_size)) new)
      ]
    where
      mem' : ℕ → ℕ → ℕ
      mem' = put_word (clear s.mem (f * page_size)) t i (table_entry (f * page_size))

      entry' : mem' t i ≡ table_entry (f * page_size)
      entry' = put_word_self (clear s.mem (f * page_size)) t i (table_entry (f * page_size))

  next_table-Descended :
      (m t pn : ℕ)
      → role t ≡ some (suc m, above (suc (suc m)) pn)
      → Descended root role s t
          (above (suc m) pn % 512)
          m
          (above (suc m) pn)
          (next_table true t (above (suc m) pn % 512) s)
  unfolding next_table
  next_table-Descended m t pn r =
      elim (Bool-cases (is_present (s.mem t (above (suc m) pn % 512)))) [
        | inl p ↦
            rw p
              (at role s _ (Grown-refl root role s inv) (child role root s inv m t pn r p) p refl)
        | inr a ↦
            let at_pn : above (suc (suc m)) pn * 512 + above (suc m) pn % 512 ≡ above (suc m) pn =
              omega arith in
            rw a (
              subst
                (λ k.
                  Descended root role s t (above (suc m) pn % 512) m k
                    (new_table t (above (suc m) pn % 512) (pmm_alloc_frame s.pmm) s))
                at_pn
                (new_table-Descended m t (above (suc (suc m)) pn) (above (suc m) pn % 512)
                  (pmm_alloc_frame s.pmm) r a (pmm_alloc_frame-Allocation s.pmm inv.valid)))
      ]

-- The walk to the last level, in a tree that may have grown.
pub data Walked (root : ℕ) (role : Role) (s : Machine) (t m pn : ℕ)
    : Option ℕ × Machine → Type 0 where
  arrived :
      (role' : Role) (s' : Machine) (pt : ℕ)
      → Grown root role s role' s'
      → reach s'.mem t m pn ≡ some pt
      → Walked root role s t m pn (some pt, s')
  stopped :
      (role' : Role) (s' : Machine)
      → Full s'.pmm
      → Grown root role s role' s'
      → Walked root role s t m pn (none, s')

pub walk_down-Walked :
    (root : ℕ) (m t pn : ℕ) (role : Role) (s : Machine)
    → Inv role root s
    → role t ≡ some (m, above (suc m) pn)
    → Walked root role s t m pn (walk_down true m t pn s)
walk_down-Walked root zero t pn role s inv r = arrived role s t (Grown-refl root role s inv) refl
walk_down-Walked root (suc m) t pn role s inv r =
    below (next_table true t (above (suc m) pn % 512) s)
      (next_table-Descended root role s inv m t pn r)
      (λ role' s' u inv' ru. walk_down-Walked root m u pn role' s' inv' ru)
  where
    further :
        (role' : Role) (s' : Machine) (u : ℕ) (res : Option ℕ × Machine)
        → Grown root role s role' s'
        → is_present (s'.mem t (above (suc m) pn % 512)) ≡ true
        → pte_get_addr (s'.mem t (above (suc m) pn % 512)) ≡ u
        → Walked root role' s' u m pn res
        → Walked root role s t (suc m) pn res
    further role' s' u res g p e (stopped role'' s'' full h) =
        stopped role'' s'' full (Grown-trans root role role' role'' s s' s'' g h)
    further role' s' u res g p e (arrived role'' s'' pt h q) =
        let same = h.stay t (suc m) _ (above (suc m) pn % 512) (g.kept t (suc m) _ r) p in
        arrived role'' s'' pt (Grown-trans root role role' role'' s s' s'' g h) (
          reach_down s''.mem t m pn (ap is_present same ∙ p)
          ∙ ap (λ y. reach s''.mem y m pn) (ap pte_get_addr same ∙ e)
          ∙ q)

    below :
        (res : Option ℕ × Machine)
        → Descended root role s t (above (suc m) pn % 512) m (above (suc m) pn) res
        → ((role' : Role) (s' : Machine) (u : ℕ)
            → Inv role' root s'
            → role' u ≡ some (m, above (suc m) pn)
            → Walked root role' s' u m pn (walk_down true m u pn s'))
        → Walked root role s t (suc m) pn (then_in (λ u. walk_down true m u pn) res)
    below res (stuck s' full g) go = stopped role s' full g
    below res (at role' s' u g ru p e) go = further role' s' u _ g p e (go role' s' u g.inv ru)
