-- ===== src/Vmm/Restore.antt =====
-- A range that was taken and put back.
use nyan_os.Base.{ℕ, ◌<◌, ◌≡◌, ◌≢◌, refl, sym, ◌∙◌, true, List}
use nyan_os.Regions.{Region, region, Chain, Chain-ext, disjoint-Apart}
use nyan_os.Vmm.{find_free_addr, vmm_add_free_region}
use nyan_os.Vmm.FreeList.{
  Taken, taken, no_room, find_free_addr-Taken, Added, vmm_add_free_region-Added,
}

put_back :
    (lo size : ℕ) (l : List Region) (q : ℕ × List Region)
    → 0 < size
    → 0 < lo
    → Chain lo l
    → Taken lo size l q
    → q.0 ≢ 0
    → vmm_add_free_region true q.1 q.0 size ≡ l
unfolding Added
put_back lo size l q pos low c (taken addr out above small chain gone same) ne =
    let apart = disjoint-Apart (region addr size) lo out pos chain gone in
    let added = vmm_add_free_region-Added true lo addr size out above pos small chain apart in
    Chain-ext lo _ l added.chain c (λ a. added.same a ∙ sym (same a))
put_back lo size l q pos low c (no_room n) ne = absurd (ne refl)

-- Where no free region starts at address 0 and kmalloc gives the node that may be needed, giving back
-- the range that a search took from a chain of free regions restores that chain exactly: the range is
-- joined again with what was left of its region.
pub vmm_add_free_region-find_free_addr :
    (lo size : ℕ) (l : List Region)
    → 0 < size
    → 0 < lo
    → Chain lo l
    → (find_free_addr size l).0 ≢ 0
    → vmm_add_free_region true (find_free_addr size l).1 (find_free_addr size l).0 size ≡ l
vmm_add_free_region-find_free_addr lo size l pos low c ne =
    put_back lo size l (find_free_addr size l) pos low c (find_free_addr-Taken lo size l pos c) ne
