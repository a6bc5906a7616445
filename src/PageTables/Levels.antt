-- ===== src/PageTables/Levels.antt =====
-- The walk as a descent by levels: the number of a page is read nine bits at a time.
use nyan_os.Base.{
  ℕ, zero, suc, ◌+◌, ◌/◌, ◌%◌, ◌^◌, ◌≡◌, refl, sym, ap, ◌∙◌, Bool, true, false, Option, none, some,
  arith, if◌then◌else◌, Bool-cases, bool_clash, inl, inr,
}
use nyan_os.Pmm.{page_size}
use nyan_os.PageTables.{
  Machine, is_present, pte_get_addr, pml4_idx, pdpt_idx, pd_idx, pt_idx, next_table, then_in,
  vmm_walk_to_pte, translated, vmm_virt2phys,
}

-- The number of the page of an address: the 36 bits that the four indices read.
abbrev pub page_number : ℕ → ℕ
page_number v = v / 4096 % 2 ^ 36

-- What the `n` last levels do not read.
abbrev pub above : ℕ → ℕ → ℕ
above zero pn = pn
above (suc n) pn = above n pn / 512

-- The table of the last level for a page, below a table that has `n` levels under it.
abbrev pub reach : (ℕ → ℕ → ℕ) → ℕ → ℕ → ℕ → Option ℕ
reach mem t zero pn = some t
reach mem t (suc n) pn =
    let below = reach mem (pte_get_addr (mem t (above (suc n) pn % 512))) n pn in
    if is_present (mem t (above (suc n) pn % 512)) then below else none

abbrev pub entry : (ℕ → ℕ → ℕ) → ℕ → Option ℕ → ℕ
entry mem pn none = 0
entry mem pn (some pt) = mem pt (pn % 512)

-- The entry for a page, 0 where a table is missing.
abbrev pub leaf : (ℕ → ℕ → ℕ) → ℕ → ℕ → ℕ → ℕ
leaf mem t n pn = entry mem pn (reach mem t n pn)

pub reach_down :
    (mem : ℕ → ℕ → ℕ) (t n pn : ℕ)
    → is_present (mem t (above (suc n) pn % 512)) ≡ true
    → reach mem t (suc n) pn ≡ reach mem (pte_get_addr (mem t (above (suc n) pn % 512))) n pn
reach_down mem t n pn p = rw p refl

pub reach_missing :
    (mem : ℕ → ℕ → ℕ) (t n pn : ℕ)
    → is_present (mem t (above (suc n) pn % 512)) ≡ false
    → reach mem t (suc n) pn ≡ none
reach_missing mem t n pn a = rw a refl

pub leaf_down :
    (mem : ℕ → ℕ → ℕ) (t n pn : ℕ)
    → is_present (mem t (above (suc n) pn % 512)) ≡ true
    → leaf mem t (suc n) pn ≡ leaf mem (pte_get_addr (mem t (above (suc n) pn % 512))) n pn
leaf_down mem t n pn p = ap (entry mem pn) (reach_down mem t n pn p)

pub leaf_missing :
    (mem : ℕ → ℕ → ℕ) (t n pn : ℕ)
    → is_present (mem t (above (suc n) pn % 512)) ≡ false
    → leaf mem t (suc n) pn ≡ 0
leaf_missing mem t n pn a = ap (entry mem pn) (reach_missing mem t n pn a)

-- The physical address that an entry gives to an address.
abbrev pub address : ℕ → ℕ → ℕ
address v e = if is_present e then pte_get_addr e + v % page_size else 0

-- The descent through the tables of a machine.
abbrev pub walk_down : Bool → ℕ → ℕ → ℕ → Machine → Option ℕ × Machine
walk_down create zero t pn s = (some t, s)
walk_down create (suc n) t pn s =
    then_in (λ u. walk_down create n u pn) (next_table create t (above (suc n) pn % 512) s)

pub pml4_idx_lem : (v : ℕ) → pml4_idx v ≡ above 3 (page_number v) % 512
pml4_idx_lem v = omega arith

pub pdpt_idx_lem : (v : ℕ) → pdpt_idx v ≡ above 2 (page_number v) % 512
pdpt_idx_lem v = omega arith

pub pd_idx_lem : (v : ℕ) → pd_idx v ≡ above 1 (page_number v) % 512
pd_idx_lem v = omega arith

pub pt_idx_lem : (v : ℕ) → pt_idx v ≡ page_number v % 512
pt_idx_lem v = omega arith

then_in-some : (r : Option ℕ × Machine) → then_in (λ t s. (some t, s)) r ≡ r
then_in-some (none, s) = refl
then_in-some (some t, s) = refl

then_in_two :
    (f : ℕ → Machine → Option ℕ × Machine) (r : Option ℕ × Machine)
    → then_in f r ≡ then_in (λ u s. then_in (λ w s'. (some w, s')) (f u s)) r
then_in_two f (none, s) = refl
then_in_two f (some u, s) = sym (then_in-some (f u s))

then_in_three :
    (f g : ℕ → Machine → Option ℕ × Machine) (r : Option ℕ × Machine)
    → then_in f (then_in g r)
      ≡ then_in (λ t s. then_in (λ u s'. then_in (λ w s''. (some w, s'')) (f u s')) (g t s)) r
then_in_three f g (none, s) = refl
then_in_three f g (some t, s) = then_in_two f (g t s)

pub vmm_walk_to_pte-walk_down :
    (create : Bool) (root v : ℕ) (s : Machine)
    → vmm_walk_to_pte create root v s ≡ walk_down create 3 root (page_number v) s
unfolding vmm_walk_to_pte
vmm_walk_to_pte-walk_down create root v s =
    rw (← pml4_idx_lem v, ← pdpt_idx_lem v, ← pd_idx_lem v)
      (then_in_three (λ pd. next_table create pd (pd_idx v))
        (λ pdpt. next_table create pdpt (pdpt_idx v)) (next_table create root (pml4_idx v) s))

-- A walk that creates nothing changes nothing.
pub walk_down-reach :
    (n t pn : ℕ) (s : Machine) → walk_down false n t pn s ≡ (reach s.mem t n pn, s)
unfolding next_table
walk_down-reach zero t pn s = refl
walk_down-reach (suc n) t pn s = elim (Bool-cases (is_present (s.mem t (above (suc n) pn % 512)))) [
  | inl p ↦ rw p (walk_down-reach n (pte_get_addr (s.mem t (above (suc n) pn % 512))) pn s)
  | inr a ↦ rw a refl
]

-- Nor does one that could, where the page is there.
pub walk_down_present :
    (n t pn : ℕ) (s : Machine)
    → is_present (leaf s.mem t n pn) ≡ true
    → walk_down true n t pn s ≡ (reach s.mem t n pn, s)
unfolding next_table
walk_down_present zero t pn s h = refl
walk_down_present (suc n) t pn s h =
    elim (Bool-cases (is_present (s.mem t (above (suc n) pn % 512)))) [
      | inl p ↦ rw p (
          walk_down_present n (pte_get_addr (s.mem t (above (suc n) pn % 512))) pn s
            (ap is_present (sym (leaf_down s.mem t n pn p)) ∙ h))
      | inr a ↦ absurd (bool_clash (sym h ∙ ap is_present (leaf_missing s.mem t n pn a)))
    ]

translated_lem :
    (v : ℕ) (s : Machine) (r : Option ℕ)
    → translated v (r, s) ≡ address v (entry s.mem (page_number v) r)
unfolding translated
translated_lem v s none = refl
translated_lem v s (some pt) = rw (pt_idx_lem v) refl

pub vmm_virt2phys_lem :
    (root v : ℕ) (s : Machine)
    → vmm_virt2phys root v s ≡ address v (leaf s.mem root 3 (page_number v))
unfolding vmm_virt2phys
vmm_virt2phys_lem root v s =
    ap (translated v)
      (vmm_walk_to_pte-walk_down false root v s ∙ walk_down-reach 3 root (page_number v) s)
    ∙ translated_lem v s (reach s.mem root 3 (page_number v))
