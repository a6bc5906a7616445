-- ===== src/Pmm/Tests.antt =====
-- A machine with 2 MB of memory, one page of it not usable, and the theorems at its states.
use nyan_os.Base.{
  ℕ, ◌/◌, ◌≡◌, ◌<◌, ◌∙◌, ap, refl, Bool, true, false, not, ◌||◌, some, List, [], ◌∷◌, arith,
}
use nyan_os.Pmm.{
  Pmm, page_size, bitmap_set, bitmap_clear, bitmap_test, pmm_alloc_frame, pmm_free_frame,
  pmm_get_stats,
}
use nyan_os.Pmm.Init.{Entry, pmm_init, mark, get_memory_size, metadata_pages}
use nyan_os.Pmm.Init.Reserved.{Initialised, pmm_init-Initialised, frames, between, usable_page}
use nyan_os.Pmm.Bitmap.{IsValid}
use nyan_os.Pmm.Owners.{
  System, Books, here, next, alloc, allocated, Outcome, Reach-Books, pmm_alloc_frame-Outcome,
}

abbrev memory_map : List Entry
memory_map =
    record { usable = true; base = 0; size = 0x1f_0000 }
    ∷ record { usable = false; base = 0x1f_0000; size = 0x1000 }
    ∷ record { usable = true; base = 0x1f_1000; size = 0xf000 }
    ∷ []

pub first : Pmm
unfolding mark
first = mark 512 0 memory_map

first_stats : pmm_get_stats first ≡ (512, 257, 255)
unfolding first pmm_get_stats bitmap_set bitmap_clear bitmap_test
first_stats = refl

-- The first free frame is the one at 1 MB; freed, it is found again.
first_alloc :
    ((pmm_alloc_frame first).0 ≡ 0x10_0000)
    × ((pmm_alloc_frame (pmm_free_frame (pmm_alloc_frame first).1 0x10_0000)).0 ≡ 0x10_0000)
unfolding first pmm_alloc_frame pmm_free_frame bitmap_set bitmap_clear bitmap_test
first_alloc = (refl, refl)

pmm_init-first : pmm_init memory_map ≡ some first
unfolding pmm_init first
pmm_init-first = refl

frames-memory_map : frames memory_map ≡ 512
unfolding get_memory_size
frames-memory_map = refl

pmm_init-Initialised_example : Initialised memory_map first
pmm_init-Initialised_example =
    pmm_init-Initialised memory_map first (omega arith) (omega (arith, frames-memory_map))
      (omega (arith, frames-memory_map)) pmm_init-first

initialised : Initialised memory_map first
initialised =
    pmm_init-Initialised memory_map first (omega arith) (omega (arith, frames-memory_map))
      (omega (arith, frames-memory_map)) pmm_init-first

pub first-pages : first.total_pages ≡ 512
first-pages = initialised.pages ∙ frames-memory_map

pub first-IsValid : IsValid first
first-IsValid = initialised.books.valid

pub low_used : (j : ℕ) → j < 256 → bitmap_test first j ≡ true
low_used j h =
    let b = initialised.books in
    b.marked j (omega (arith, h, initialised.pages, frames-memory_map))
    ∙ ap (λ r. r || false) (b.low j h)

abbrev start : System
start = record { pmm = first; owners = λ _. 0 }

-- Frames that the initialisation keeps back.
abbrev reserved : ℕ → Bool
reserved j =
    between 0 256 j
    || (between (initialised.meta / page_size) (metadata_pages (frames memory_map)) j
        || not (usable_page memory_map j))

start-Books : Books reserved start
start-Books = initialised.books

Reach-Books_example : Books reserved (allocated start (pmm_alloc_frame first))
Reach-Books_example = Reach-Books reserved start-Books (next here alloc)

pmm_alloc_frame-Outcome_example :
    Outcome reserved
      (allocated start (pmm_alloc_frame first))
      (pmm_alloc_frame (allocated start (pmm_alloc_frame first)).pmm).0
pmm_alloc_frame-Outcome_example =
    pmm_alloc_frame-Outcome reserved start (allocated start (pmm_alloc_frame first)) start-Books
      (next here alloc)
