-- ===== src/Vmm.antt =====
-- The virtual memory lists of src/mem/vmm.c: the free regions of an address space, in the order of
-- their addresses, and the list of what is allocated in it. Their nodes come from `kmalloc`: whether
-- it gives one is an argument.
pub mod FreeList
pub mod Allocated
pub mod Restore
mod Tests
use nyan_os.Base.{
  ℕ, zero, suc, ◌+◌, ◌-◌, ◌/◌, ◌*◌, Bool, true, false, Option, none, some, List, [], ◌∷◌, ltb, leb,
  ◌==◌, if◌then◌else◌,
}
use nyan_os.Regions.{Region, region, ◌+64◌}

-- `(size + PAGE_SIZE - 1) & ~(PAGE_SIZE - 1)`
pub get_aligned_size : ℕ → ℕ
get_aligned_size size = (size +64 0xfff) / 0x1000 * 0x1000

-- The first region that is large enough gives its first `size` addresses, or goes as a whole where
-- it has just that size. The address 0 is a failure.
pub find_free_addr : ℕ → List Region → ℕ × List Region
find_free_addr size [] = (0, [])
find_free_addr size (r ∷ rs) =
    let (addr, rest) = find_free_addr size rs in
    if ltb size r.size
    then (r.addr, region (r.addr +64 size) (r.size - size) ∷ rs)
    else if r.size == size
    then (r.addr, rs)
    else (addr, r ∷ rest)

-- A region joined with the one after it, if they touch.
pub merge_next : Region → List Region → List Region
merge_next b [] = b ∷ []
merge_next b (n ∷ ns) =
    if b.addr +64 b.size == n.addr then record b { size = b.size +64 n.size } ∷ ns else b ∷ n ∷ ns

-- A new node, if there is memory for it; else the region is lost.
pub new_region : Bool → Region → List Region → List Region
unfolding merge_next
new_region node b rest = if node then merge_next b rest else rest

-- Behind `prev`, the last region below `b`.
pub add_between : Bool → Region → Region → List Region → List Region
unfolding merge_next new_region
add_between node prev b rest =
    if prev.addr +64 prev.size == b.addr
    then merge_next (record prev { size = prev.size +64 b.size }) rest
    else prev ∷ new_region node b rest

pub add_after : Bool → Region → Region → List Region → List Region
unfolding add_between
add_after node prev b [] = add_between node prev b []
add_after node prev b (n ∷ ns) =
    if ltb n.addr b.addr then prev ∷ add_after node n b ns else add_between node prev b (n ∷ ns)

pub add_region : Bool → Region → List Region → List Region
unfolding new_region add_after
add_region node b [] = new_region node b []
add_region node b (f ∷ fs) =
    if ltb f.addr b.addr then add_after node f b fs else new_region node b (f ∷ fs)

pub vmm_add_free_region : Bool → List Region → ℕ → ℕ → List Region
unfolding add_region
vmm_add_free_region node l addr size = if size == 0 then l else add_region node (region addr size) l

-- `struct VmAllocatedList`
pub record Allocation : Type 0 where
  pub addr : ℕ
  pub size : ℕ
  pub flags : ℕ

-- The Boolean is false for the result -1.
pub vmm_add_allocated_mem : Bool → List Allocation → Allocation → Bool × List Allocation
vmm_add_allocated_mem node l a = if node then (true, a ∷ l) else (false, l)

pub vmm_pop_allocated_mem : ℕ → List Allocation → Option Allocation × List Allocation
vmm_pop_allocated_mem addr [] = (none, [])
vmm_pop_allocated_mem addr (a ∷ more) =
    let (found, rest) = vmm_pop_allocated_mem addr more in
    if a.addr == addr then (some a, more) else (found, a ∷ rest)

pub vmm_find_allocated_mem : ℕ → List Allocation → Option Allocation
vmm_find_allocated_mem addr [] = none
vmm_find_allocated_mem addr (a ∷ more) =
    if a.addr == addr then some a else vmm_find_allocated_mem addr more

-- The copies for a new process; `nodes` is how many nodes `kmalloc` still gives.
pub vmm_copy_alloc_list : ℕ → List Allocation → List Allocation
vmm_copy_alloc_list nodes [] = []
vmm_copy_alloc_list zero (a ∷ more) = []
vmm_copy_alloc_list (suc nodes) (a ∷ more) = a ∷ vmm_copy_alloc_list nodes more

pub vmm_copy_free_list : ℕ → List Region → List Region
vmm_copy_free_list nodes [] = []
vmm_copy_free_list zero (r ∷ rs) = []
vmm_copy_free_list (suc nodes) (r ∷ rs) = r ∷ vmm_copy_free_list nodes rs
