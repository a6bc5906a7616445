-- ===== src/Kmalloc.antt =====
-- The kernel heap of src/mem/kmalloc.c. The free blocks are a list in the order of their addresses;
-- a block starts with a header of 16 bytes that holds its size (and, in a free block, the link). The
-- size of a block that is not free is read back from its header when it is freed. The spinlock
-- makes `kmalloc` and `kfree` one step each.
pub mod Insert
pub mod Carve
pub mod Answers
mod Tests
use nyan_os.Base.{
  ℕ, zero, suc, ◌+◌, ◌-◌, ◌*◌, ◌/◌, ◌%◌, ◌^◌, Bool, true, false, ◌&&◌, Option, none, some, List, [],
  ◌∷◌, ltb, leb, ◌==◌, if◌then◌else◌,
}
use nyan_os.Regions.{Region, region, ◌+64◌}

abbrev pub page_size : ℕ
page_size = 0x1000

-- `sizeof(FreeBlock)`
abbrev pub header : ℕ
header = 16

pub record Heap : Type 0 where
  pub free_list : List Region
  pub header_size : ℕ → ℕ

-- The merge with the next block: the block, and the list after it.
pub join_next : Region → List Region → Region × List Region
join_next b [] = (b, [])
join_next b (n ∷ ns) =
    if b.addr +64 b.size == n.addr then (record b { size = b.size +64 n.size }, ns) else (b, n ∷ ns)

-- The block `b` between `prev` and the rest of the list, merged with either.
pub join_prev : Region → Region × List Region → List Region
join_prev prev (b, rest) =
    if prev.addr +64 prev.size == b.addr
    then record prev { size = prev.size +64 b.size } ∷ rest
    else prev ∷ b ∷ rest

-- The walk to the last block below `b`.
pub insert_after : Region → Region → List Region → List Region
unfolding join_next join_prev
insert_after prev b [] = join_prev prev (join_next b [])
insert_after prev b (n ∷ ns) =
    if ltb n.addr b.addr then prev ∷ insert_after n b ns else join_prev prev (join_next b (n ∷ ns))

pub insert_block : Region → List Region → List Region
unfolding join_next insert_after
insert_block b [] = b ∷ []
insert_block b (f ∷ fs) =
    if ltb b.addr f.addr
    then (let (b', rest) = join_next b (f ∷ fs) in b' ∷ rest)
    else insert_after f b fs

-- `ptr` is the address behind the header; 0 is NULL.
pub kfree_unlocked : Heap → ℕ → Heap
unfolding insert_block
kfree_unlocked h ptr =
    if ptr == 0 then h else if h.header_size (ptr - header) == 0 then h else record h {
      free_list = insert_block (region (ptr - header) (h.header_size (ptr - header))) h.free_list;
    }

-- The first block that is large enough, and the list without it.
pub find_free_block : ℕ → List Region → Option Region × List Region
find_free_block size [] = (none, [])
find_free_block size (b ∷ bs) =
    let (found, rest) = find_free_block size bs in
    if leb (size +64 header) b.size then (some b, bs) else (found, b ∷ rest)

abbrev pub set_header : (ℕ → ℕ) → ℕ → ℕ → ℕ → ℕ
set_header f a n i = if i == a then n else f i

-- A new page, at the address in the direct map that `pmm_alloc_frame` and `vmm_phys_to_hhdm` give.
pub add_page : Heap → ℕ → Heap
unfolding kfree_unlocked
add_page h page =
    kfree_unlocked (record h { header_size = set_header h.header_size page page_size })
      (page +64 header)

-- A request of no byte or with no memory left is `null`; one of about a page or more goes to
-- `vmm_alloc_global`.
pub data Result : Type 0 where
  null : Result
  global : ℕ → Result
  block : ℕ → Result

-- The block `b` cut down to the size asked for; what remains is freed, if it has room for a header.
pub carve : Heap → Region → ℕ → Result × Heap
unfolding kfree_unlocked
carve h b size =
    let want = header + size in
    let rest = b.size - want in
    if leb header rest
    then (
      block (b.addr +64 header),
      kfree_unlocked
          (record h {
            header_size = set_header (set_header h.header_size b.addr want) (b.addr +64 want) rest;
          })
          (b.addr +64 want +64 header),
    )
    else (
      block (b.addr +64 header),
      record h { header_size = set_header h.header_size b.addr (want + rest) },
    )

-- What a search has found is cut down to size.
pub carve_found : Heap → Option Region × List Region → ℕ → Result × Heap
unfolding carve
carve_found h (none, rest) size = (null, h)
carve_found h (some b, rest) size = carve (record h { free_list = rest }) b size

pub second_try : Heap → ℕ → Result × Heap
unfolding find_free_block carve_found
second_try h size = carve_found h (find_free_block size h.free_list) size

-- The first search; where it fails, a page is added and the second one made. `new_page` is what `request_new_page` would get.
pub first_try : Option ℕ → Heap → ℕ → Result × Heap
unfolding find_free_block add_page second_try
first_try new_page h size = elim (find_free_block size h.free_list).0 [
  | none ↦ elim new_page [ none ↦ (null, h) | some page ↦ second_try (add_page h page) size ]
  | some b ↦ second_try h size
]

-- `(size + 15) & ~15`
abbrev pub round_up : ℕ → ℕ
round_up size = (size +64 15) / 16 * 16

pub kmalloc : Option ℕ → Heap → ℕ → Result × Heap
unfolding first_try
kmalloc new_page h size =
    if size == 0
    then (null, h)
    else if leb (page_size - header) (round_up size)
    then (global (round_up size), h)
    else first_try new_page h (round_up size)

abbrev pub kern_heap_start : ℕ
kern_heap_start = 0xFFFF_FFFF_9000_0000

abbrev pub kern_heap_end : ℕ
kern_heap_end = kern_heap_start + 0x1000_0000

-- `none` where the pointer goes to `vmm_free`.
pub kfree : Heap → ℕ → Option Heap
unfolding kfree_unlocked
kfree h ptr =
    if ptr == 0
    then some h
    else if leb kern_heap_start ptr && ltb ptr kern_heap_end
    then none
    else some (kfree_unlocked h ptr)
