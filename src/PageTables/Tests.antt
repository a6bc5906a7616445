-- ===== src/PageTables/Tests.antt =====
-- A small address space of four tables and one page, and the theorems at it.
use nyan_os.Base.{
  ℕ, zero, suc, ◌+◌, ◌*◌, ◌<◌, ◌≡◌, ◌⊎◌, inl, inr, refl, sym, ap, ap₂, ◌∙◌, true, ◌&&◌, [], ◌∷◌,
  some, none, arith, ◌==◌, if◌then◌else◌, get_or, replicate,
}
use nyan_os.Pmm.{
  Pmm, page_size, pmm_get_ref_count, pmm_alloc_frame, bitmap_set, bitmap_test, find_free, search,
  take_page,
}
use nyan_os.Pmm.Bitmap.{IsValid}
use nyan_os.PageTables.{
  Machine, is_present, pte_get_addr, vmm_map_page, vmm_unmap_page, vmm_virt2phys, vmm_handle_cow,
}
use nyan_os.PageTables.Inv.{Role, InUse, Inv, level-eq, level_clash}
use nyan_os.PageTables.Map.{Mapping, unmapped, vmm_map_page-Mapping, vmm_unmap_page-unmapped}
use nyan_os.PageTables.Cow.{Copying, vmm_handle_cow-Copying}

abbrev root : ℕ
root = 0x8000

-- Sixteen frames, the first nine of them in use and shared by two.
abbrev frames : Pmm
frames = record {
  bitmap = 255 ∷ 1 ∷ [];
  ref_counts = replicate 16 2;
  total_pages = 16;
  last_free_page = 9;
}

-- The page of 0x403000 is in the frame 0x4000.
abbrev tables : ℕ → ℕ → ℕ
tables t i =
    if t == 0x8000 && i == 0
    then 0x7007
    else if t == 0x7000 && i == 0
    then 0x6007
    else if t == 0x6000 && i == 2
    then 0x5007
    else if t == 0x5000 && i == 3
    then 0x4005
    else 0

abbrev booted : Machine
booted = record { pmm = frames; mem = tables }

abbrev role : Role
role t =
    if t == 0x8000
    then some (3, 0)
    else if t == 0x7000
    then some (2, 0)
    else if t == 0x6000
    then some (1, 0)
    else if t == 0x5000
    then some (0, 2)
    else none

-- The page, a second one, the first one without its mapping, and the first one written to.
booted_translations :
    (vmm_virt2phys root 0x40_3abc booted ≡ 0x4abc)
    × (vmm_virt2phys root 0x80_0000_0010 (vmm_map_page root 0x80_0000_0000 0x18_0000 7 booted)
        ≡ 0x18_0010)
    × (vmm_virt2phys root 0x40_3abc (vmm_unmap_page root 0x40_3000 booted) ≡ 0)
    × (vmm_virt2phys root 0x40_3abc (vmm_handle_cow root 0x40_3123 booted).1 ≡ 0x9abc)
unfolding vmm_map_page vmm_unmap_page vmm_virt2phys vmm_handle_cow pmm_get_ref_count pmm_alloc_frame
    search find_free take_page bitmap_set bitmap_test
booted_translations = (refl, refl, refl, refl)

frames-IsValid : IsValid frames
frames-IsValid = record {
  bytes = bytes;
  covers = omega arith;
  counts = omega arith;
  hint = omega arith;
}
  where
    bytes : (k : ℕ) → get_or (255 ∷ 1 ∷ []) k 0 < 256
    bytes zero = omega arith
    bytes (suc zero) = omega arith
    bytes (suc (suc k)) = omega arith

-- The entries that are present.
abbrev Present : ℕ → ℕ → Type 0
Present t i =
    ((t ≡ 0x8000) × (i ≡ 0))
    ⊎ (((t ≡ 0x7000) × (i ≡ 0)) ⊎ (((t ≡ 0x6000) × (i ≡ 2)) ⊎ ((t ≡ 0x5000) × (i ≡ 3))))

tables-Present : (t i : ℕ) → is_present (tables t i) ≡ true → Present t i
tables-Present t i p = ground arith

below_entry :
    (t m k i : ℕ)
    → Present t i
    → role t ≡ some (suc m, k)
    → role (pte_get_addr (tables t i)) ≡ some (m, k * 512 + i)
below_entry t m k i (inl (et, ei)) r =
    let levels = level-eq (sym (ap role et) ∙ r) in
    ap₂ (λ u j. role (pte_get_addr (tables u j))) et ei
    ∙ ap₂ (λ a b. some (a, b)) (omega (arith, levels.0)) (omega (arith, levels.1, ei))
below_entry t m k i (inr (inl (et, ei))) r =
    let levels = level-eq (sym (ap role et) ∙ r) in
    ap₂ (λ u j. role (pte_get_addr (tables u j))) et ei
    ∙ ap₂ (λ a b. some (a, b)) (omega (arith, levels.0)) (omega (arith, levels.1, ei))
below_entry t m k i (inr (inr (inl (et, ei)))) r =
    let levels = level-eq (sym (ap role et) ∙ r) in
    ap₂ (λ u j. role (pte_get_addr (tables u j))) et ei
    ∙ ap₂ (λ a b. some (a, b)) (omega (arith, levels.0)) (omega (arith, levels.1, ei))
below_entry t m k i (inr (inr (inr (et, ei)))) r = absurd (level_clash (sym (ap role et) ∙ r))

role-cases :
    (t m k : ℕ)
    → role t ≡ some (m, k)
    → (t ≡ 8 * page_size) ⊎ ((t ≡ 7 * page_size) ⊎ ((t ≡ 6 * page_size) ⊎ (t ≡ 5 * page_size)))
role-cases t m k r = ground arith

in_use :
    (t : ℕ)
    → (t ≡ 8 * page_size) ⊎ ((t ≡ 7 * page_size) ⊎ ((t ≡ 6 * page_size) ⊎ (t ≡ 5 * page_size)))
    → InUse frames t
unfolding bitmap_test
in_use t (inl e) = (8, e, omega arith, refl)
in_use t (inr (inl e)) = (7, e, omega arith, refl)
in_use t (inr (inr (inl e))) = (6, e, omega arith, refl)
in_use t (inr (inr (inr e))) = (5, e, omega arith, refl)

booted-Inv : Inv role root booted
unfolding bitmap_test
booted-Inv = record {
  valid = frames-IsValid;
  zero = (0, refl, omega arith, refl);
  at_root = refl;
  in_use = λ t m k r. in_use t (role-cases t m k r);
  below = λ t m k i r low p. below_entry t m k i (tables-Present t i p) r;
}

vmm_map_page-Mapping_example :
    Mapping root 0x80_0000_0000 0x18_0000 booted
      (vmm_map_page root 0x80_0000_0000 0x18_0000 7 booted)
vmm_map_page-Mapping_example =
    vmm_map_page-Mapping role root 0x80_0000_0000 0x18_0000 7 booted booted-Inv (omega arith)
      (λ p. refl)

vmm_unmap_page-unmapped_example :
    Inv (role) root (vmm_unmap_page root 0x40_3000 booted)
    × ((w : ℕ)
        → vmm_virt2phys root w (vmm_unmap_page root 0x40_3000 booted)
          ≡ unmapped root 0x40_3000 booted w)
vmm_unmap_page-unmapped_example = vmm_unmap_page-unmapped (role) root 0x40_3000 booted booted-Inv

vmm_handle_cow-Copying_example :
    Copying (role) root 0x40_3000 booted (vmm_handle_cow root 0x40_3000 booted)
vmm_handle_cow-Copying_example =
    vmm_handle_cow-Copying (role) root 0x40_3000 booted booted-Inv (λ p. refl)
