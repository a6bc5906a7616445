-- ===== src/Vmm/Tests.antt =====
-- The lists of an address space on concrete inputs.
use nyan_os.Base.{◌≡◌, ◌≢◌, true, List, [], ◌∷◌, arith}
use nyan_os.Regions.{Region, region}
use nyan_os.Vmm.{Allocation, find_free_addr, vmm_add_free_region}
use nyan_os.Vmm.FreeList.{Taken, find_free_addr-Taken, Added, vmm_add_free_region-Added}
use nyan_os.Vmm.Restore.{vmm_add_free_region-find_free_addr}

abbrev two_regions : List Region
two_regions = region 0x400000 0x1000 ∷ region 0x600000 0x4000 ∷ []

find_free_addr-Taken_example : Taken 0x1000 0x2000 two_regions (find_free_addr 0x2000 two_regions)
find_free_addr-Taken_example =
    find_free_addr-Taken 0x1000 0x2000 two_regions (omega arith)
      (omega arith, omega arith, omega arith, (omega arith, omega arith, omega arith, tt))

vmm_add_free_region-Added_example :
    Added true 0x1000
      (region 0x401000 0x1ff000)
      two_regions
      (vmm_add_free_region true two_regions 0x401000 0x1ff000)
vmm_add_free_region-Added_example =
    vmm_add_free_region-Added true 0x1000 0x401000 0x1ff000 two_regions (omega arith) (omega arith)
      (omega arith)
      (omega arith, omega arith, omega arith, (omega arith, omega arith, omega arith, tt))
      (ground arith)

found_high : (find_free_addr 0x2000 two_regions).0 ≢ 0
unfolding find_free_addr
found_high e = ground arith

vmm_add_free_region-find_free_addr_example :
    vmm_add_free_region true
      (find_free_addr 0x2000 two_regions).1
      (find_free_addr 0x2000 two_regions).0
      0x2000
    ≡ two_regions
vmm_add_free_region-find_free_addr_example =
    vmm_add_free_region-find_free_addr 0x1000 0x2000 two_regions (omega arith) (omega arith)
      (omega arith, omega arith, omega arith, (omega arith, omega arith, omega arith, tt))
      found_high

abbrev two_allocations : List Allocation
two_allocations =
    record { addr = 0x1000; size = 0x1000; flags = 3 }
    ∷ record { addr = 0x5000; size = 0x2000; flags = 3 }
    ∷ []
