-- ===== src/Shm/Tests.antt =====
-- A segment that takes frames of a machine with 2 MB of memory.
use nyan_os.Base.{[], ◌∷◌}
use nyan_os.Pmm.{Pmm, pmm_alloc_frame}
use nyan_os.Pmm.Bitmap.{IsValid}
use nyan_os.Pmm.Tests.{first}
use nyan_os.Shm.{Segment}
use nyan_os.Shm.Pages.{Low}

abbrev picture : Segment
picture = record { name = 112 ∷ []; phys_pages = []; page_count = 0; size = 0; ref_count = 0 }

-- `kmalloc` takes a frame for its heap first.
Kept : Pmm → Type 0
Kept s = IsValid s × Low s

abbrev grown : Pmm
grown = (pmm_alloc_frame first).1
