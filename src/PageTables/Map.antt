-- ===== src/PageTables/Map.antt =====
-- What mapping and unmapping a page do to the translation of every address.
use nyan_os.Base.{
  ℕ, ◌+◌, ◌*◌, ◌/◌, ◌%◌, ◌<◌, ◌≡◌, refl, sym, ap, ap₂, ◌∙◌, true, false, not, ◌&&◌, Option, none,
  some, arith, ◌==◌, ==_iff, if◌then◌else◌, Bool-cases, bool_clash, option_clash, inl, inr, if_ind,
}
use nyan_os.Pmm.{Pmm, page_size, first_mb}
use nyan_os.Pmm.Free.{Freeing, dropped, refused, Freeing-IsValid, pmm_dec_ref-Freeing}
use nyan_os.PageTables.{
  Machine, is_present, is_shared, pte_get_addr, put_word, drop_old, page_entry, map_at,
  vmm_map_page, unmap_at, vmm_unmap_page, vmm_virt2phys,
}
use nyan_os.PageTables.Entries.{pte_get_addr-page_entry, is_present-page_entry}
use nyan_os.PageTables.Levels.{
  page_number, above, reach, entry, leaf, address, pt_idx_lem, vmm_walk_to_pte-walk_down,
  walk_down-reach, walk_down_present, vmm_virt2phys_lem,
}
use nyan_os.PageTables.Inv.{
  Role, InUse, Inv, put_word-Inv, last, leaf-put_word_self, leaf-put_word_ne,
}
use nyan_os.PageTables.Grow.{Grown}
use nyan_os.PageTables.Walk.{Full, Walked, arrived, stopped, walk_down-Walked}

-- A frame stays in use while another one loses a reference.
InUse-Freeing :
    (p p' : Pmm) (a t : ℕ)
    → Freeing p a p'
    → (a / page_size * page_size ≡ t → a < first_mb)
    → InUse p t
    → InUse p' t
InUse-Freeing p p' a t (refused how) ne u = u
InUse-Freeing p p' a t (dropped q ok d) ne (i, at, low, taken) =
    (i, at, omega (arith, d.pages), d.used_lem i low ∙ rw miss taken)
  where
    miss : (a / page_size == i) ≡ false
    miss = elim (Bool-cases (a / page_size == i)) [
      | inl hit ↦
          let same : a / page_size ≡ i = (==_iff (a / page_size) i).0 hit in
          let small = ne (omega (arith, at, same)) in ground arith
      | inr other ↦ other
    ]

-- The allocator drops a frame that is no table.
module _ (role : Role) (root : ℕ) (s : Machine) (inv : Inv role root s) where
  pub Freeing-Inv :
      (a : ℕ) (p : Pmm)
      → role (a / page_size * page_size) ≡ none
      → Freeing s.pmm a p
      → Inv role root (record s { pmm = p })
  Freeing-Inv a p r f = record {
    valid = Freeing-IsValid s.pmm p a inv.valid f;
    zero = InUse-Freeing s.pmm p a 0 f (λ e. omega (arith, e)) inv.zero;
    at_root = inv.at_root;
    in_use = λ t m k rt.
        InUse-Freeing s.pmm p a t f (λ e. absurd (option_clash (sym r ∙ ap role e ∙ rt)))
          (inv.in_use t m k rt);
    below = inv.below;
  }

  drop_old-Inv :
      (e phys_addr : ℕ)
      → (is_present e ≡ true → role (pte_get_addr e) ≡ none)
      → Inv role root (record s { pmm = drop_old e phys_addr s.pmm })
  unfolding drop_old
  drop_old-Inv e phys_addr h =
      if_ind (λ p. Inv role root (record s { pmm = p }))
        (is_present e && (not (pte_get_addr e == phys_addr) && not (is_shared e))) _ _
        (λ c.
          Freeing-Inv (pte_get_addr e) _ (ap role (omega arith) ∙ h (ground arith))
            (pmm_dec_ref-Freeing s.pmm (pte_get_addr e) inv.valid))
        (λ c. inv)

-- The physical addresses of every address, after the page of `v` is mapped to the frame of `phys_addr`.
abbrev pub remapped : ℕ → ℕ → ℕ → Machine → ℕ → ℕ
remapped root v phys_addr s w =
    if page_number w == page_number v
    then phys_addr / page_size * page_size + w % page_size
    else vmm_virt2phys root w s

abbrev pub unmapped : ℕ → ℕ → Machine → ℕ → ℕ
unmapped root v s w = if page_number w == page_number v then 0 else vmm_virt2phys root w s

module _ (role : Role) (root : ℕ) (s : Machine) (inv : Inv role root s) (v pt e : ℕ)
    (at_pt : reach s.mem root 3 (page_number v) ≡ some pt) where
  abbrev pub written : Machine
  written = record s { mem = put_word s.mem pt (page_number v % 512) e }

  pub written-Inv : Inv role root written
  written-Inv =
      put_word-Inv role root s inv pt (above 1 (page_number v)) (page_number v % 512) e
        (last role root s inv (page_number v) pt e (omega arith) at_pt)

  pub vmm_virt2phys-written :
      (w : ℕ)
      → vmm_virt2phys root w written
        ≡ (if page_number w == page_number v then address w e else vmm_virt2phys root w s)
  vmm_virt2phys-written w =
      vmm_virt2phys_lem root w written ∙ elim (Bool-cases (page_number w == page_number v)) [
        | inl here ↦
            let same = (==_iff (page_number w) (page_number v)).0 here in
            rw here (
              ap (address w) (
                ap (leaf written.mem root 3) same
                ∙ leaf-put_word_self role root s inv (page_number v) pt e (omega arith) at_pt))
        | inr other ↦ rw other (
            ap (address w) (
              leaf-put_word_ne role root s inv (page_number v) pt e (omega arith) at_pt
                (page_number w) (omega arith)
                (λ q. bool_clash ((sym ((==_iff (page_number w) (page_number v)).1 q)) ∙ other)))
            ∙ sym (vmm_virt2phys_lem root w s))
      ]

pub vmm_virt2phys-Grown :
    (role role' : Role) (root : ℕ) (s s' : Machine)
    → Inv role root s
    → Grown root role s role' s'
    → (w : ℕ) → vmm_virt2phys root w s' ≡ vmm_virt2phys root w s
vmm_virt2phys-Grown role role' root s s' inv g w =
    vmm_virt2phys_lem root w s'
    ∙ ap (address w)
        (g.same 3 root (page_number w) (inv.at_root ∙ ap (λ k. some (3, k)) (omega arith)))
    ∙ sym (vmm_virt2phys_lem root w s)

address-page_entry :
    (w phys_addr flags : ℕ)
    → flags < 4096
    → address w (page_entry phys_addr flags) ≡ phys_addr / page_size * page_size + w % page_size
address-page_entry w phys_addr flags low =
    rw (is_present-page_entry phys_addr flags)
      (ap (λ a. a + w % page_size) (pte_get_addr-page_entry phys_addr flags low))

-- The page is mapped, or there is no frame for a table that it needs.
pub data Mapping (root v phys_addr : ℕ) (s : Machine) : Machine → Type 0 where
  mapped :
      (role : Role) (s' : Machine)
      → Inv role root s'
      → ((w : ℕ) → vmm_virt2phys root w s' ≡ remapped root v phys_addr s w)
      → Mapping root v phys_addr s s'
  no_memory :
      (role : Role) (s' : Machine)
      → Inv role root s'
      → Full s'.pmm
      → ((w : ℕ) → vmm_virt2phys root w s' ≡ vmm_virt2phys root w s)
      → Mapping root v phys_addr s s'

-- The entry is written, in a tree that may have grown.
map_at-Mapping :
    (role : Role) (root : ℕ) (s s' : Machine) (v phys_addr flags pt : ℕ)
    → Inv role root s'
    → flags < 4096
    → reach s'.mem root 3 (page_number v) ≡ some pt
    → (is_present (s'.mem pt (page_number v % 512)) ≡ true
        → role (pte_get_addr (s'.mem pt (page_number v % 512))) ≡ none)
    → ((w : ℕ) → vmm_virt2phys root w s' ≡ vmm_virt2phys root w s)
    → Mapping root v phys_addr s (map_at v phys_addr flags (some pt, s'))
unfolding map_at
map_at-Mapping role root s s' v phys_addr flags pt inv low at_pt safe same = rw (pt_idx_lem v) (
    mapped role (written role root dropped_old inv' v pt new at_pt)
      (written-Inv role root dropped_old inv' v pt new at_pt)
      (λ w.
        vmm_virt2phys-written role root dropped_old inv' v pt new at_pt w
        ∙ ap₂ (λ a b. if page_number w == page_number v then a else b)
            (address-page_entry w phys_addr flags low)
            (vmm_virt2phys_lem root w dropped_old ∙ sym (vmm_virt2phys_lem root w s') ∙ same w)))
  where
    new : ℕ
    new = page_entry phys_addr flags

    dropped_old : Machine
    dropped_old = record s' { pmm = drop_old (s'.mem pt (page_number v % 512)) phys_addr s'.pmm }

    inv' : Inv role root dropped_old
    inv' = drop_old-Inv role root s' inv (s'.mem pt (page_number v % 512)) phys_addr safe

-- The page is there: no table is created.
map_present :
    (role : Role) (root v phys_addr flags : ℕ) (s : Machine) (r : Option ℕ)
    → Inv role root s
    → flags < 4096
    → reach s.mem root 3 (page_number v) ≡ r
    → is_present (entry s.mem (page_number v) r) ≡ true
    → role (pte_get_addr (entry s.mem (page_number v) r)) ≡ none
    → Mapping root v phys_addr s (map_at v phys_addr flags (r, s))
map_present role root v phys_addr flags s none inv low q p safe = absurd (bool_clash (sym p))
map_present role root v phys_addr flags s (some pt) inv low q p safe =
    map_at-Mapping role root s s v phys_addr flags pt inv low q (λ _. safe) (λ w. refl)

-- The page is not there: what it replaces needs no drop.
map_absent :
    (role : Role) (root v phys_addr flags : ℕ) (s : Machine) (r : Option ℕ × Machine)
    → Inv role root s
    → flags < 4096
    → is_present (leaf s.mem root 3 (page_number v)) ≡ false
    → Walked root role s root 3 (page_number v) r
    → Mapping root v phys_addr s (map_at v phys_addr flags r)
unfolding map_at
map_absent role root v phys_addr flags s _ inv low a (stopped role' s' full g) =
    no_memory role' s' g.inv full (vmm_virt2phys-Grown role role' root s s' inv g)
map_absent role root v phys_addr flags s _ inv low a (arrived role' s' pt g q) =
    let same = g.same 3 root (page_number v) (inv.at_root ∙ ap (λ k. some (3, k)) (omega arith)) in
    map_at-Mapping role' root s s' v phys_addr flags pt g.inv low q
      (λ p.
        absurd (
          bool_clash
            (sym p ∙ ap is_present (ap (entry s'.mem (page_number v)) (sym q) ∙ same) ∙ a)))
      (vmm_virt2phys-Grown role role' root s s' inv g)

-- In a tree of tables, with flags below 4096 and where the page that the address had is no table,
-- `vmm_map_page` keeps the tree and makes the page of the address translate to the frame, and every
-- other address as before; or every frame is in use, and every address translates as before.
pub vmm_map_page-Mapping :
    (role : Role) (root v phys_addr flags : ℕ) (s : Machine)
    → Inv role root s
    → flags < 4096
    → (is_present (leaf s.mem root 3 (page_number v)) ≡ true
        → role (pte_get_addr (leaf s.mem root 3 (page_number v))) ≡ none)
    → Mapping root v phys_addr s (vmm_map_page root v phys_addr flags s)
unfolding vmm_map_page
vmm_map_page-Mapping role root v phys_addr flags s inv low safe =
    rw (vmm_walk_to_pte-walk_down true root v s)
      (elim (Bool-cases (is_present (leaf s.mem root 3 (page_number v)))) [
        | inl p ↦
            rw (walk_down_present 3 root (page_number v) s p)
              (map_present role root v phys_addr flags s _ inv low refl p (safe p))
        | inr a ↦ map_absent role root v phys_addr flags s _ inv low a (
            walk_down-Walked root 3 root (page_number v) role s inv
              (inv.at_root ∙ ap (λ k. some (3, k)) (omega arith)))
      ])

unmap_at_lem :
    (role : Role) (root v : ℕ) (s : Machine) (r : Option ℕ)
    → Inv role root s
    → reach s.mem root 3 (page_number v) ≡ r
    → Inv role root (unmap_at v (r, s))
      × ((w : ℕ) → vmm_virt2phys root w (unmap_at v (r, s)) ≡ unmapped root v s w)
unfolding unmap_at
unmap_at_lem role root v s none inv q = (
  inv,
  λ w. elim (Bool-cases (page_number w == page_number v)) [
    | inl here ↦ rw here (
        vmm_virt2phys_lem root w s
        ∙ ap (address w) (
            ap (leaf s.mem root 3) ((==_iff (page_number w) (page_number v)).0 here)
            ∙ ap (entry s.mem (page_number v)) q))
    | inr other ↦ rw other refl
  ],
)
unmap_at_lem role root v s (some pt) inv q =
    rw (pt_idx_lem v)
      (written-Inv role root s inv v pt 0 q, λ w. vmm_virt2phys-written role root s inv v pt 0 q w)

-- In a tree of tables `vmm_unmap_page` keeps the tree; no address of the page translates any more, and
-- every other address translates as before.
pub vmm_unmap_page-unmapped :
    (role : Role) (root v : ℕ) (s : Machine)
    → Inv role root s
    → Inv role root (vmm_unmap_page root v s)
      × ((w : ℕ) → vmm_virt2phys root w (vmm_unmap_page root v s) ≡ unmapped root v s w)
unfolding vmm_unmap_page
vmm_unmap_page-unmapped role root v s inv =
    rw (vmm_walk_to_pte-walk_down false root v s, walk_down-reach 3 root (page_number v) s)
      (unmap_at_lem role root v s _ inv refl)
