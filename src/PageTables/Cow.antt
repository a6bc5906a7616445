-- ===== src/PageTables/Cow.antt =====
-- What a write to a page that is shared until then does.
use nyan_os.Base.{
  ℕ, ◌+◌, ◌*◌, ◌/◌, ◌%◌, ◌≡◌, refl, sym, ap, ap₂, ◌∙◌, Bool, true, false, not, ◌&&◌, ◌||◌, Option,
  none, some, bit_or, arith, leb, ◌==◌, ==_iff, if◌then◌else◌, Bool-cases, inl, inr, if_ind,
}
use nyan_os.Pmm.{Pmm, page_size, pmm_alloc_frame, pmm_dec_ref, pmm_get_ref_count}
use nyan_os.Pmm.Bitmap.{used}
use nyan_os.Pmm.Alloc.{Claimed, Allocation, frame, out_of_memory, pmm_alloc_frame-Allocation}
use nyan_os.Pmm.Free.{pmm_dec_ref-Freeing}
use nyan_os.PageTables.{
  Machine, is_present, is_user, pte_get_addr, put_word, copy_page, cow_copy, cow_at, vmm_handle_cow,
  vmm_virt2phys,
}
use nyan_os.PageTables.Entries.{
  is_writable, cow_entry, is_writable-bit_or, is_present-bit_or, pte_get_addr-cow_entry,
  is_present-cow_entry, is_writable-cow_entry, page-flags,
}
use nyan_os.PageTables.Levels.{
  page_number, reach, entry, leaf, address, pt_idx_lem, vmm_walk_to_pte-walk_down, walk_down-reach,
  vmm_virt2phys_lem,
}
use nyan_os.PageTables.Inv.{Role, Inv, leaf-put_word_self, last}
use nyan_os.PageTables.Grow.{Grown, Grown-apart, reach_apart, InUse-free}
use nyan_os.PageTables.Walk.{Full}
use nyan_os.PageTables.Map.{
  remapped, Freeing-Inv, written, written-Inv, vmm_virt2phys-written, vmm_virt2phys-Grown,
}

abbrev pub page_of : ℕ → ℕ → Machine → ℕ
page_of root v s = leaf s.mem root 3 (page_number v)

-- What a write fault does: an answer, false for a refusal, and the machine.
pub data Copying (role : Role) (root v : ℕ) (s : Machine) : Bool × Machine → Type 0 where
  refused :
      (is_present (page_of root v s) && is_user (page_of root v s)) ≡ false
      → Copying role root v s (false, s)
  no_memory :
      (is_present (page_of root v s) && is_user (page_of root v s)) ≡ true
      → leb (pmm_get_ref_count s.pmm (pte_get_addr (page_of root v s))) 1 ≡ false
      → Full s.pmm
      → Copying role root v s (false, s)
  alone :
      (s' : Machine)
      → Inv role root s'
      → (is_present (page_of root v s) && is_user (page_of root v s)) ≡ true
      → leb (pmm_get_ref_count s.pmm (pte_get_addr (page_of root v s))) 1 ≡ true
      → is_writable (page_of root v s') ≡ true
      → ((w : ℕ) → vmm_virt2phys root w s' ≡ vmm_virt2phys root w s)
      → Copying role root v s (true, s')
  copied :
      (s' : Machine) (f : ℕ)
      → Inv role root s'
      → (is_present (page_of root v s) && is_user (page_of root v s)) ≡ true
      → leb (pmm_get_ref_count s.pmm (pte_get_addr (page_of root v s))) 1 ≡ false
      → used s.pmm f ≡ false
      → is_writable (page_of root v s') ≡ true
      → ((w : ℕ) → vmm_virt2phys root w s' ≡ remapped root v (f * page_size) s w)
      → ((i : ℕ) → s'.mem (f * page_size) i ≡ s.mem (pte_get_addr (page_of root v s)) i)
      → Copying role root v s (true, s')

address-bit_or : (w e : ℕ) → is_present e ≡ true → address w (bit_or e 2) ≡ address w e
address-bit_or w e p =
    rw (is_present-bit_or e p, p)
      (ap (λ n. n * page_size + w % page_size) (page-flags e 2 (omega arith)))

address-cow_entry :
    (w f e : ℕ)
    → is_present e ≡ true
    → address w (cow_entry (f * page_size) e)
      ≡ f * page_size / page_size * page_size + w % page_size
address-cow_entry w f e p =
    rw (is_present-cow_entry (f * page_size) e p)
      (ap (λ a. a + w % page_size) (pte_get_addr-cow_entry f e ∙ omega arith))

module _ (role : Role) (root v pt : ℕ) (s : Machine) (inv : Inv role root s)
    (at_pt : reach s.mem root 3 (page_number v) ≡ some pt) where
  abbrev old : ℕ
  old = s.mem pt (page_number v % 512)

  old_page : page_of root v s ≡ old
  old_page = ap (entry s.mem (page_number v)) at_pt

  users :
      is_present old ≡ true
      → is_user old ≡ true
      → (is_present (page_of root v s) && is_user (page_of root v s)) ≡ true
  users p u = ap (λ e. is_present e && is_user e) old_page ∙ ground (arith, p, u)

  counted :
      (b : Bool)
      → leb (pmm_get_ref_count s.pmm (pte_get_addr old)) 1 ≡ b
      → leb (pmm_get_ref_count s.pmm (pte_get_addr (page_of root v s))) 1 ≡ b
  counted b n = ap (λ e. leb (pmm_get_ref_count s.pmm (pte_get_addr e)) 1) old_page ∙ n

  -- Nobody else has the frame.
  cow_alone :
      is_present old ≡ true
      → is_user old ≡ true
      → leb (pmm_get_ref_count s.pmm (pte_get_addr old)) 1 ≡ true
      → Copying role root v s
          (true, record s { mem = put_word s.mem pt (page_number v % 512) (bit_or old 2) })
  cow_alone p u n =
      alone (written role root s inv v pt (bit_or old 2) at_pt)
        (written-Inv role root s inv v pt (bit_or old 2) at_pt) (users p u) (counted true n)
        (ap is_writable (
            leaf-put_word_self role root s inv (page_number v) pt (bit_or old 2) (omega arith)
              at_pt)
          ∙ is_writable-bit_or old)
        (λ w. vmm_virt2phys-written role root s inv v pt (bit_or old 2) at_pt w ∙ same w)
    where
      same :
          (w : ℕ)
          → (if page_number w == page_number v
              then address w (bit_or old 2)
              else vmm_virt2phys root w s)
            ≡ vmm_virt2phys root w s
      same w = elim (Bool-cases (page_number w == page_number v)) [
        | inl here ↦ rw here (
            address-bit_or w old p
            ∙ ap (address w) (
                sym (
                  ap (leaf s.mem root 3) ((==_iff (page_number w) (page_number v)).0 here)
                  ∙ ap (entry s.mem (page_number v)) at_pt))
            ∙ sym (vmm_virt2phys_lem root w s))
        | inr other ↦ rw other refl
      ]

  -- The frame has a copy.
  module _ (f : ℕ) (p' : Pmm) (free : used s.pmm f ≡ false) (c : Claimed s.pmm p' f)
      (safe : role (pte_get_addr old) ≡ none) (p : is_present old ≡ true) (u : is_user old ≡ true)
      (n : leb (pmm_get_ref_count s.pmm (pte_get_addr old)) 1 ≡ false) where
    abbrev copied_to : Machine
    copied_to = record { pmm = p'; mem = copy_page s.mem (f * page_size) (pte_get_addr old) }

    not_table : (t m k : ℕ) → role t ≡ some (m, k) → (t == f * page_size) ≡ false
    not_table t m k r = elim (Bool-cases (t == f * page_size)) [
      | inl here ↦
          absurd
            (InUse-free s.pmm f t (inv.in_use t m k r) free ((==_iff t (f * page_size)).0 here))
      | inr other ↦ other
    ]

    apart : (t m k i : ℕ) → role t ≡ some (m, k) → copied_to.mem t i ≡ s.mem t i
    apart t m k i r = rw (not_table t m k r) refl

    grown : Grown root role s role copied_to
    grown = Grown-apart root role s copied_to f inv c apart

    abbrev dropped_old : Machine
    dropped_old = record copied_to { pmm = pmm_dec_ref p' (pte_get_addr old) }

    dropped_old-Inv : Inv role root dropped_old
    dropped_old-Inv =
        Freeing-Inv role root copied_to grown.inv (pte_get_addr old) _
          (ap role (omega arith) ∙ safe) (pmm_dec_ref-Freeing p' (pte_get_addr old) c.valid)

    still : reach copied_to.mem root 3 (page_number v) ≡ some pt
    still =
        reach_apart root role s copied_to f inv c apart 3 root (page_number v)
          (inv.at_root ∙ ap (λ k. some (3, k)) (omega arith))
        ∙ at_pt

    contents :
        (i : ℕ)
        → put_word copied_to.mem pt
            (page_number v % 512)
            (cow_entry (f * page_size) old)
            (f * page_size)
            i
          ≡ s.mem (pte_get_addr old) i
    contents i =
        let other : (f * page_size == pt) ≡ false = ground (
          arith,
          not_table pt 0 _ (last role root s inv (page_number v) pt 0 (omega arith) at_pt),
        ) in
        rw (other, (==_iff (f * page_size) (f * page_size)).1 refl) refl

    cow_copied : Copying role root v s (
      true,
      record dropped_old {
        mem = put_word dropped_old.mem pt (page_number v % 512) (cow_entry (f * page_size) old);
      },
    )
    cow_copied =
        copied
          (written role root dropped_old dropped_old-Inv v pt (cow_entry (f * page_size) old) still)
          f
          (written-Inv role root dropped_old dropped_old-Inv v pt (cow_entry (f * page_size) old)
            still)
          (users p u) (counted false n) free
          (ap is_writable (
              leaf-put_word_self role root dropped_old dropped_old-Inv (page_number v) pt _
                (omega arith) still)
            ∙ is_writable-cow_entry (f * page_size) old)
          (λ w.
            vmm_virt2phys-written role root dropped_old dropped_old-Inv v pt _ still w
            ∙ ap₂ (λ a b. if page_number w == page_number v then a else b)
                (address-cow_entry w f old p)
                (vmm_virt2phys_lem root w dropped_old
                  ∙ sym (vmm_virt2phys_lem root w copied_to)
                  ∙ vmm_virt2phys-Grown role role root s copied_to inv grown w))
          (λ i.
            contents i
            ∙ ap (λ r. s.mem (pte_get_addr (entry s.mem (page_number v) r)) i) (sym at_pt))

  cow_copy-Copying :
      (got : ℕ × Pmm)
      → Allocation s.pmm got
      → role (pte_get_addr old) ≡ none
      → is_present old ≡ true
      → is_user old ≡ true
      → leb (pmm_get_ref_count s.pmm (pte_get_addr old)) 1 ≡ false
      → Copying role root v s (cow_copy pt (page_number v % 512) old got s)
  unfolding cow_copy
  cow_copy-Copying got (out_of_memory full) safe p u n =
      no_memory (users p u) (counted false n) full
  cow_copy-Copying got (frame f p' low free c) safe p u n = elim (Bool-cases (f * page_size == 0)) [
    | inl nul ↦
        absurd
          (InUse-free s.pmm f 0 inv.zero free (omega (arith, (==_iff (f * page_size) 0).0 nul)))
    | inr ok ↦ rw ok (cow_copied f p' free c safe p u n)
  ]

  cow_at-Copying :
      (is_present old ≡ true → role (pte_get_addr old) ≡ none)
      → Copying role root v s (cow_at v (some pt, s))
  unfolding cow_at
  cow_at-Copying safe = rw (pt_idx_lem v) (
      if_ind (Copying role root v s) (not (is_present old) || not (is_user old)) _ _
        (λ no_user. refused (
          ap
            (λ r.
              is_present (entry s.mem (page_number v) r) && is_user (entry s.mem (page_number v) r))
            at_pt
          ∙ ground arith))
        (λ user.
          if_ind (Copying role root v s) (leb (pmm_get_ref_count s.pmm (pte_get_addr old)) 1) _ _
            (λ n. cow_alone (ground arith) (ground arith) n)
            (λ n.
              cow_copy-Copying (pmm_alloc_frame s.pmm) (pmm_alloc_frame-Allocation s.pmm inv.valid)
                (safe (ground arith)) (ground arith) (ground arith) n)))

cow_at_lem :
    (role : Role) (root v : ℕ) (s : Machine) (r : Option ℕ)
    → Inv role root s
    → reach s.mem root 3 (page_number v) ≡ r
    → (is_present (entry s.mem (page_number v) r) ≡ true
        → role (pte_get_addr (entry s.mem (page_number v) r)) ≡ none)
    → Copying role root v s (cow_at v (r, s))
unfolding cow_at
cow_at_lem role root v s none inv q safe = refused (
    ap (λ r. is_present (entry s.mem (page_number v) r) && is_user (entry s.mem (page_number v) r))
      q)
cow_at_lem role root v s (some pt) inv q safe = cow_at-Copying role root v pt s inv q safe

-- In a tree of tables, where the page of the address is no table, a write fault is refused, with nothing
-- changed, if the page is not present or not the user's. If a page of the user's has at most one
-- reference it becomes writable and every address translates as before. If it has more, it is copied,
-- word for word, to a frame that was free, where it is writable, and the other pages translate as
-- before; or no frame is free, and the fault is refused with nothing changed.
pub vmm_handle_cow-Copying :
    (role : Role) (root v : ℕ) (s : Machine)
    → Inv role root s
    → (is_present (page_of root v s) ≡ true → role (pte_get_addr (page_of root v s)) ≡ none)
    → Copying role root v s (vmm_handle_cow root v s)
unfolding vmm_handle_cow
vmm_handle_cow-Copying role root v s inv safe =
    rw (vmm_walk_to_pte-walk_down false root v s, walk_down-reach 3 root (page_number v) s)
      (cow_at_lem role root v s _ inv refl safe)
