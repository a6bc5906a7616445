-- ===== src/Pmm.antt =====
-- The physical memory manager of src/mem/pmm.c: a bitmap with one bit for each page frame, a count
-- of the references to each frame, and the index from which a search starts. The spinlock makes
-- each function one step. A frame's address is its index times the page size; a search that finds
-- nothing is the address 0.
pub mod Bitmap
pub mod Alloc
pub mod Free
pub mod Owners
pub mod Init
pub mod Tests
use nyan_os.Base.{
  ℕ, zero, suc, ◌+◌, ◌-◌, ◌*◌, ◌/◌, ◌%◌, ◌^◌, Bool, true, false, not, ◌&&◌, Option, none, some,
  List, [], ◌∷◌, ltb, leb, ◌==◌, if◌then◌else◌, length, get_or, set, replicate, test_bit, set_bit,
  clear_bit,
}

abbrev pub page_size : ℕ
page_size = 0x1000

-- Below this address lies what the firmware and the boot loader use.
abbrev pub first_mb : ℕ
first_mb = 0x100000

-- `bitmap_size` is the length of `bitmap`, in bytes; `ref_counts` is an array of `uint32_t`.
pub record Pmm : Type 0 where
  pub bitmap : List ℕ
  pub ref_counts : List ℕ
  pub total_pages : ℕ
  pub last_free_page : ℕ

-- `ref_counts` starts where the bitmap ends, so a byte past the bitmap is one of a count.
abbrev pub past : Pmm → ℕ → ℕ
past s k = k - length s.bitmap

pub read_byte : Pmm → ℕ → ℕ
read_byte s k =
    if ltb k (length s.bitmap)
    then get_or s.bitmap k 0
    else get_or s.ref_counts (past s k / 4) 0 / 256 ^ (past s k % 4) % 256

pub write_count_byte : Pmm → ℕ → ℕ → ℕ → Pmm
write_count_byte s i w v =
    let old = get_or s.ref_counts i 0 in
    let kept = old - old / w % 256 * w in
    record s { ref_counts = set s.ref_counts i (kept + v * w) }

pub write_byte : Pmm → ℕ → ℕ → Pmm
unfolding write_count_byte
write_byte s k v =
    if ltb k (length s.bitmap)
    then record s { bitmap = set s.bitmap k v }
    else write_count_byte s (past s k / 4) (256 ^ (past s k % 4)) v

unfoldable pub bitmap_set : Pmm → ℕ → Pmm
unfolding read_byte write_byte set_bit
bitmap_set s bit = write_byte s (bit / 8) (set_bit (read_byte s (bit / 8)) (bit % 8))

pub bitmap_clear : Pmm → ℕ → Pmm
unfolding read_byte write_byte clear_bit
bitmap_clear s bit = write_byte s (bit / 8) (clear_bit (read_byte s (bit / 8)) (bit % 8))

unfoldable pub bitmap_test : Pmm → ℕ → Bool
unfolding read_byte test_bit
bitmap_test s bit = test_bit (read_byte s (bit / 8)) (bit % 8)

-- The first free page among the `n` pages from `i` on.
unfoldable pub find_free : Pmm → ℕ → ℕ → Option ℕ
find_free s i zero = none
find_free s i (suc n) = if not (bitmap_test s i) then some i else find_free s (i + 1) n

-- The body of both loops of `pmm_alloc_frame`.
unfoldable pub take_page : Pmm → ℕ → ℕ × Pmm
take_page s i =
    let s' = bitmap_set s i in
    (i * page_size, record s' { ref_counts = set s'.ref_counts i 1; last_free_page = i + 1 })

pub take_found : Pmm → Option ℕ → ℕ × Pmm
unfolding take_page
take_found s none = (0, s)
take_found s (some i) = take_page s i

-- The second loop runs from 0 to `last_free_page`.
unfoldable pub search : Pmm → Option ℕ
unfolding find_free
search s = elim (find_free s s.last_free_page (s.total_pages - s.last_free_page)) [
  | some i ↦ some i
  | none ↦ find_free s 0 s.last_free_page
]

unfoldable pub pmm_alloc_frame : Pmm → ℕ × Pmm
unfolding search take_found
pmm_alloc_frame s = take_found s (search s)

-- The count after the decrement, and the page freed where it is 0.
pub drop_ref : Pmm → ℕ → Pmm
drop_ref s bit =
    let count = get_or s.ref_counts bit 0 in
    let left = count - 1 in
    let s' = record s { ref_counts = set s.ref_counts bit left } in
    if left == 0
    then record (bitmap_clear s' bit) {
      last_free_page = if ltb bit s.last_free_page then bit else s.last_free_page;
    }
    else s'

pub pmm_free_frame : Pmm → ℕ → Pmm
unfolding drop_ref
pmm_free_frame s phys_addr =
    if ltb phys_addr first_mb
    then s
    else if leb s.total_pages (phys_addr / page_size)
    then s
    else if bitmap_test s (phys_addr / page_size)
    then drop_ref s (phys_addr / page_size)
    else s

pub pmm_inc_ref : Pmm → ℕ → Pmm
pmm_inc_ref s frame_addr =
    let idx = frame_addr / page_size in
    record s { ref_counts = set s.ref_counts idx ((get_or s.ref_counts idx 0 + 1) % 2 ^ 32) }

pub pmm_dec_ref : Pmm → ℕ → Pmm
pmm_dec_ref s frame_addr = pmm_free_frame s frame_addr

unfoldable pub pmm_get_ref_count : Pmm → ℕ → ℕ
pmm_get_ref_count s frame_addr =
    let idx = frame_addr / page_size in
    if ltb idx s.total_pages then get_or s.ref_counts idx 0 else 0

-- How many of the `n` pages below `n` are used.
pub count_used : Pmm → ℕ → ℕ
count_used s zero = 0
count_used s (suc n) = count_used s n + (if bitmap_test s n then 1 else 0)

-- Total, used and free pages.
pub pmm_get_stats : Pmm → ℕ × ℕ × ℕ
unfolding count_used
pmm_get_stats s =
    let used = count_used s s.total_pages in
    (s.total_pages, used, if leb used s.total_pages then s.total_pages - used else 0)
