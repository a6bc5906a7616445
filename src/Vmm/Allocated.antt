-- ===== src/Vmm/Allocated.antt =====
-- The list of allocations as a record of sizes by address.
use nyan_os.Base.{ℕ, ◌≡◌, refl, none, List, [], ◌∷◌, arith, ◌==◌, if◌then◌else◌}
use nyan_os.Vmm.{Allocation, vmm_pop_allocated_mem, vmm_find_allocated_mem}

-- Whether an address is recorded once at most.
abbrev pub Once : List Allocation → Type 0
Once [] = Unit {0}
Once (a ∷ more) = (vmm_find_allocated_mem a.addr more ≡ none) × Once more

-- `vmm_pop_allocated_mem` returns what `vmm_find_allocated_mem` would, and in a list where no address
-- stands twice it forgets that address and no other.
pub vmm_pop-find :
    (addr : ℕ) (l : List Allocation)
    → Once l
    → ((vmm_pop_allocated_mem addr l).0 ≡ vmm_find_allocated_mem addr l)
      × ((j : ℕ)
          → vmm_find_allocated_mem j (vmm_pop_allocated_mem addr l).1
            ≡ (if j == addr then none else vmm_find_allocated_mem j l))
unfolding vmm_pop_allocated_mem vmm_find_allocated_mem
vmm_pop-find addr [] o = (refl, λ j. ground arith)
vmm_pop-find addr (a ∷ more) o =
    let rest = vmm_pop-find addr more o.1 in
    (ground (arith, rest.0), λ j. ground (arith, rest.1 j, o.0))
