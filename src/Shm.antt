-- ===== src/Shm.antt =====
-- Segments of shared memory, of src/ipc/shm.c. A name is the list of its bytes, without the NUL at its
-- end; the list of segments is a list. What `kmalloc` answers is an argument, with the frames after it,
-- since it may take some for its heap; `kfree` gives none back. `memset` of a page is left out.
pub mod Pages
mod Tests
use nyan_os.Base.{
  ℕ, zero, suc, ◌+◌, ◌-◌, ◌*◌, ◌/◌, ◌%◌, ◌^◌, Bool, true, false, not, Option, none, some, List, [],
  ◌∷◌, ◌++◌, length, ltb, ◌==◌, if◌then◌else◌,
}
use nyan_os.Mq.{same_name}
use nyan_os.Pmm.{Pmm, page_size, pmm_alloc_frame, pmm_free_frame}

pub record Segment : Type 0 where
  pub name : List ℕ
  pub phys_pages : List ℕ
  pub page_count : ℕ
  pub size : ℕ
  pub ref_count : ℕ

pub find_shm : List ℕ → List Segment → Option Segment
unfolding same_name
find_shm name [] = none
find_shm name (x ∷ xs) = if same_name x.name name then some x else find_shm name xs

pub new_shm : List ℕ → Segment
new_shm name = record { name = name; phys_pages = []; page_count = 0; size = 0; ref_count = 0 }

abbrev pub get_found : Option Segment → Bool → List ℕ → List Segment → Option Segment × List Segment
unfolding new_shm
get_found (some x) make name segments = (some x, segments)
get_found none true name segments = (some (new_shm name), new_shm name ∷ segments)
get_found none false name segments = (none, segments)

-- The flag says whether `O_CREAT` is set and `kmalloc` has room.
pub shm_get : Bool → List ℕ → List Segment → Option Segment × List Segment
unfolding find_shm new_shm
shm_get make name segments =
    if ltb 63 (length name)
    then (none, segments)
    else get_found (find_shm name segments) make name segments

-- The frames of a list that is given up.
pub free_pages : List ℕ → Pmm → Pmm
free_pages [] s = s
free_pages (a ∷ pages) s = free_pages pages (pmm_free_frame s a)

-- `n` frames more than those in `page_list`; `none` where the memory is used up, which an address of 0
-- says.
abbrev pub or_give_up : ℕ → List ℕ → Pmm → Option (List ℕ) × Pmm → Option (List ℕ) × Pmm
unfolding free_pages
or_give_up phys_addr page_list s more =
    if phys_addr == 0 then (none, free_pages page_list s) else more

pub take_pages : ℕ → List ℕ → Pmm → Option (List ℕ) × Pmm
unfolding free_pages
take_pages zero page_list s = (some page_list, s)
take_pages (suc n) page_list s =
    let got = pmm_alloc_frame s in
    or_give_up got.0 page_list got.1 (take_pages n (page_list ++ got.0 ∷ []) got.1)

-- The sum wraps round, as a `uint32_t`.
pub num_pages : ℕ → ℕ
num_pages new_size = (new_size + (page_size - 1)) % 2 ^ 32 / page_size

abbrev pub with_pages : ℕ → Segment → Option (List ℕ) × Pmm → Bool × Segment × Pmm
unfolding num_pages
with_pages new_size shm (none, s) = (false, shm, s)
with_pages new_size shm (some pages, s) =
    (true, record shm { size = new_size; page_count = num_pages new_size; phys_pages = pages }, s)

-- Whether it succeeds, the segment and the frames. The first argument is whether `kmalloc` has room for
-- the list of pages, and the frames then; of a list for no page it gives NULL at once.
pub shm_set_size : Bool × Pmm → Segment → ℕ → Pmm → Bool × Segment × Pmm
unfolding take_pages num_pages
shm_set_size got shm new_size s =
    if ltb 0 shm.size
    then (false, shm, s)
    else if num_pages new_size == 0
    then (false, shm, s)
    else if not got.0
    then (false, shm, got.1)
    else with_pages new_size shm (take_pages (num_pages new_size) [] got.1)
