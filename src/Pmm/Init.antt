-- ===== src/Pmm/Init.antt =====
-- `pmm_init` of src/mem/pmm.c: from the boot loader's memory map to the first state.
pub mod Reserved
use nyan_os.Base.{
  ℕ, zero, suc, ◌+◌, ◌-◌, ◌*◌, ◌/◌, ◌%◌, ◌^◌, ◌<◌, ◌≤◌, ◌≡◌, refl, sym, ap, ◌∙◌, Bool, true, false,
  not, ◌&&◌, ◌||◌, Option, none, some, List, [], ◌∷◌, arith, ltb, leb, ◌==◌, if◌then◌else◌, length,
  get_or, replicate, length-replicate, full_byte, Bool-cases, inl, inr,
}
use nyan_os.Pmm.{Pmm, page_size, first_mb, bitmap_set, bitmap_clear, bitmap_test, read_byte}
use nyan_os.Pmm.Bitmap.{
  IsValid, used, refs, used_lem, bitmap_set_lem, bitmap_set-IsValid, used-bitmap_set,
  bitmap_clear_lem, bitmap_clear-IsValid, used-bitmap_clear, used_ext,
}

-- `struct limine_memmap_entry`; `usable` is the test of its type.
pub record Entry : Type 0 where
  pub usable : Bool
  pub base : ℕ
  pub size : ℕ

memory_size_from : ℕ → List Entry → ℕ
memory_size_from highest [] = highest
memory_size_from highest (e ∷ es) =
    let top = (e.base + e.size) % 2 ^ 64 in
    memory_size_from (if e.usable && ltb highest top then top else highest) es

unfoldable pub get_memory_size : List Entry → ℕ
unfolding memory_size_from
get_memory_size es = memory_size_from 0 es

-- The base of the first usable entry that has room for `needed` bytes.
pub place : ℕ → List Entry → Option ℕ
place needed [] = none
place needed (e ∷ es) = if e.usable && leb needed e.size then some e.base else place needed es

-- `bitmap_set` and `bitmap_clear` on the `n` pages from `i` on.
pub set_pages : Pmm → ℕ → ℕ → Pmm
set_pages s i zero = s
set_pages s i (suc n) = set_pages (bitmap_set s i) (i + 1) n

pub clear_pages : Pmm → ℕ → ℕ → Pmm
clear_pages s i zero = s
clear_pages s i (suc n) = clear_pages (bitmap_clear s i) (i + 1) n

pub clear_entry : Pmm → Entry → Pmm
unfolding clear_pages
clear_entry s e = if e.usable then clear_pages s (e.base / page_size) (e.size / page_size) else s

pub clear_usable : Pmm → List Entry → Pmm
unfolding clear_entry
clear_usable s [] = s
clear_usable s (e ∷ es) = clear_usable (clear_entry s e) es

abbrev pub pages_for : ℕ → ℕ
pages_for bytes = (bytes + page_size - 1) / page_size

-- The pages that hold the bitmap and the counts of `total` frames.
abbrev pub metadata_pages : ℕ → ℕ
metadata_pages total = pages_for (total / 8) + pages_for (total * 4)

-- All frames used; the counts hold no known value before the `memset` at the end, which overwrites
-- whatever was written past the bitmap.
abbrev pub all_used : ℕ → Pmm
all_used total = record {
  bitmap = replicate (total / 8) 0xff;
  ref_counts = replicate total 0;
  total_pages = total;
  last_free_page = 0;
}

unfoldable pub mark : ℕ → ℕ → List Entry → Pmm
unfolding set_pages clear_usable
mark total meta es =
    let freed = clear_usable (all_used total) es in
    let kept = set_pages freed (meta / page_size) (metadata_pages total) in
    let low = set_pages kept 0 (first_mb / page_size) in
    record low { ref_counts = replicate total 0 }

pub mark_placed : ℕ → Option ℕ → List Entry → Option Pmm
unfolding mark
mark_placed total none es = none
mark_placed total (some meta) es = some (mark total meta es)

-- `none` is the endless halt where no entry has room for the bitmap and the counts.
unfoldable pub pmm_init : List Entry → Option Pmm
unfolding get_memory_size place mark_placed
pmm_init es =
    let total = get_memory_size es / page_size in
    mark_placed total (place (metadata_pages total * page_size) es) es
