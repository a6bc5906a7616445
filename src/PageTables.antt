-- ===== src/PageTables.antt =====
-- The page tables of src/mem/vmm.c, over the frame allocator. The memory is a function from the
-- address of a frame and the index of a word in it; the direct map, by which the kernel reaches a
-- frame, is left out, so that a table is known by its physical address. Bits of an entry are read by
-- division: `e & 1` is `e % 2`, and `e & 0xFFF` is `e % 4096`. Flushing the translation cache is not
-- modelled. The lock makes each call one step.
pub mod Entries
pub mod Levels
pub mod Inv
pub mod Grow
pub mod Walk
pub mod Map
pub mod Cow
mod Tests
use nyan_os.Base.{
  ℕ, zero, suc, ◌+◌, ◌*◌, ◌/◌, ◌%◌, ◌^◌, bit_or, Bool, true, false, not, ◌&&◌, ◌||◌, Option, none,
  some, leb, ◌==◌, if◌then◌else◌,
}
use nyan_os.Pmm.{Pmm, page_size, pmm_alloc_frame, pmm_dec_ref, pmm_get_ref_count}

pub record Machine : Type 0 where
  pub pmm : Pmm
  pub mem : ℕ → ℕ → ℕ

abbrev pub vmm_flag_present : ℕ
vmm_flag_present = 1

abbrev pub vmm_flag_writable : ℕ
vmm_flag_writable = 2

abbrev pub vmm_flag_user : ℕ
vmm_flag_user = 4

abbrev pub is_present : ℕ → Bool
is_present e = e % 2 == 1

abbrev pub is_user : ℕ → Bool
is_user e = e / 4 % 2 == 1

abbrev pub is_shared : ℕ → Bool
is_shared e = e / 512 % 2 == 1

abbrev pub pte_get_addr : ℕ → ℕ
pte_get_addr e = e / page_size * page_size

abbrev pub pte_get_flags : ℕ → ℕ
pte_get_flags e = e % page_size

abbrev pub pte_set_addr : ℕ → ℕ → ℕ
pte_set_addr e phys_addr = bit_or (phys_addr / page_size * page_size) (e % page_size)

-- The four indices of an address.
abbrev pub pml4_idx : ℕ → ℕ
pml4_idx v = v / 2 ^ 39 % 512

abbrev pub pdpt_idx : ℕ → ℕ
pdpt_idx v = v / 2 ^ 30 % 512

abbrev pub pd_idx : ℕ → ℕ
pd_idx v = v / 2 ^ 21 % 512

abbrev pub pt_idx : ℕ → ℕ
pt_idx v = v / 2 ^ 12 % 512

-- A word written, a frame cleared, and a frame copied.
abbrev pub put_word : (ℕ → ℕ → ℕ) → ℕ → ℕ → ℕ → ℕ → ℕ → ℕ
put_word mem t i e u j = if u == t && j == i then e else mem u j

abbrev pub clear : (ℕ → ℕ → ℕ) → ℕ → ℕ → ℕ → ℕ
clear mem t u j = if u == t then 0 else mem u j

abbrev pub copy_page : (ℕ → ℕ → ℕ) → ℕ → ℕ → ℕ → ℕ → ℕ
copy_page mem dst src u j = if u == dst then mem src j else mem u j

-- The entry for a new table.
pub table_entry : ℕ → ℕ
table_entry phys_addr =
    bit_or (bit_or (bit_or (pte_set_addr 0 phys_addr) vmm_flag_present) vmm_flag_writable)
      vmm_flag_user

pub new_table : ℕ → ℕ → ℕ × Pmm → Machine → Option ℕ × Machine
unfolding table_entry
new_table t i got s = if got.0 == 0 then (none, record s { pmm = got.1 }) else (
  some got.0,
  record { pmm = got.1; mem = put_word (clear s.mem got.0) t i (table_entry got.0) },
)

-- One of the three levels of the walk: the table that the entry `i` of the table `t` points to.
pub next_table : Bool → ℕ → ℕ → Machine → Option ℕ × Machine
unfolding new_table
next_table create_if_missing t i s =
    if is_present (s.mem t i)
    then (some (pte_get_addr (s.mem t i)), s)
    else if create_if_missing
    then new_table t i (pmm_alloc_frame s.pmm) s
    else (none, s)

abbrev pub then_in : (ℕ → Machine → Option ℕ × Machine) → Option ℕ × Machine → Option ℕ × Machine
then_in f (none, s) = (none, s)
then_in f (some t, s) = f t s

-- The table that holds the entry for the address, at `pt_idx`.
pub vmm_walk_to_pte : Bool → ℕ → ℕ → Machine → Option ℕ × Machine
unfolding next_table
vmm_walk_to_pte create_if_missing pml4 v s =
    then_in (λ pd. next_table create_if_missing pd (pd_idx v))
      (then_in (λ pdpt. next_table create_if_missing pdpt (pdpt_idx v))
        (next_table create_if_missing pml4 (pml4_idx v) s))

pub translated : ℕ → Option ℕ × Machine → ℕ
translated v (none, s) = 0
translated v (some pt, s) =
    if is_present (s.mem pt (pt_idx v))
    then pte_get_addr (s.mem pt (pt_idx v)) + v % page_size
    else 0

pub vmm_virt2phys : ℕ → ℕ → Machine → ℕ
unfolding vmm_walk_to_pte translated
vmm_virt2phys pml4 v s = translated v (vmm_walk_to_pte false pml4 v s)

-- The frame that an entry pointed to loses a reference, unless it is shared or stays.
pub drop_old : ℕ → ℕ → Pmm → Pmm
drop_old e phys_addr p =
    if is_present e && (not (pte_get_addr e == phys_addr) && not (is_shared e))
    then pmm_dec_ref p (pte_get_addr e)
    else p

pub page_entry : ℕ → ℕ → ℕ
page_entry phys_addr flags = bit_or (bit_or (pte_set_addr 0 phys_addr) flags) vmm_flag_present

pub map_at : ℕ → ℕ → ℕ → Option ℕ × Machine → Machine
unfolding drop_old page_entry
map_at v phys_addr flags (none, s) = s
map_at v phys_addr flags (some pt, s) = record {
  pmm = drop_old (s.mem pt (pt_idx v)) phys_addr s.pmm;
  mem = put_word s.mem pt (pt_idx v) (page_entry phys_addr flags);
}

pub vmm_map_page : ℕ → ℕ → ℕ → ℕ → Machine → Machine
unfolding vmm_walk_to_pte map_at
vmm_map_page pml4 v phys_addr flags s = map_at v phys_addr flags (vmm_walk_to_pte true pml4 v s)

pub unmap_at : ℕ → Option ℕ × Machine → Machine
unmap_at v (none, s) = s
unmap_at v (some pt, s) = record s { mem = put_word s.mem pt (pt_idx v) 0 }

pub vmm_unmap_page : ℕ → ℕ → Machine → Machine
unfolding vmm_walk_to_pte unmap_at
vmm_unmap_page pml4 v s = unmap_at v (vmm_walk_to_pte false pml4 v s)

-- A write to a page that is present and the user's: the frame itself where nobody else has it, or a
-- copy of it, and the entry with the writable flag.
pub cow_copy : ℕ → ℕ → ℕ → ℕ × Pmm → Machine → Bool × Machine
cow_copy pt i e got s = if got.0 == 0 then (false, record s { pmm = got.1 }) else (
  true,
  record {
    pmm = pmm_dec_ref got.1 (pte_get_addr e);
    mem =
        put_word (copy_page s.mem got.0 (pte_get_addr e)) pt i
          (bit_or got.0 (bit_or (pte_get_flags e) vmm_flag_writable % page_size));
  },
)

pub cow_at : ℕ → Option ℕ × Machine → Bool × Machine
unfolding cow_copy
cow_at v (none, s) = (false, s)
cow_at v (some pt, s) =
    let e = s.mem pt (pt_idx v) in
    if not (is_present e) || not (is_user e)
    then (false, s)
    else if leb (pmm_get_ref_count s.pmm (pte_get_addr e)) 1
    then (true, record s { mem = put_word s.mem pt (pt_idx v) (bit_or e vmm_flag_writable) })
    else cow_copy pt (pt_idx v) e (pmm_alloc_frame s.pmm) s

pub vmm_handle_cow : ℕ → ℕ → Machine → Bool × Machine
unfolding vmm_walk_to_pte cow_at
vmm_handle_cow pml4 fault_addr s = cow_at fault_addr (vmm_walk_to_pte false pml4 fault_addr s)
