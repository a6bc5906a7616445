-- ===== src/Shm/Pages.antt =====
-- The frames that a segment takes, and gives back where there are not enough.
use nyan_os.Base.{
  ℕ, ◌/◌, ◌<◌, ◌≤◌, ◌≡◌, Bool, true, false, ◌||◌, Option, none, some, List, [], ◌∷◌, length, ltb,
  ◌==◌,
}
use nyan_os.Pmm.{Pmm, page_size, first_mb}
use nyan_os.Pmm.Bitmap.{IsValid, used, refs}
use nyan_os.Pmm.Free.{Dropped}
use nyan_os.Shm.{Segment, num_pages}

-- Whether the frame `j` is one of the list.
abbrev pub holds : ℕ → List ℕ → Bool
holds j [] = false
holds j (a ∷ pages) = a / page_size == j || holds j pages

-- Addresses of frames that are free in `s`, above 1 MB, none twice.
abbrev pub Frames : Pmm → List ℕ → Type 0
Frames s [] = Unit {0}
Frames s (a ∷ pages) =
    ((first_mb ≤ a) × (a / page_size < s.total_pages) × (used s (a / page_size) ≡ false))
    × (holds (a / page_size) pages ≡ false)
    × Frames s pages

-- Since the state `s`, the frames of the list have been taken, with one reference each, and no other
-- frame has changed.
pub record Holding (s t : Pmm) (pages : List ℕ) : Type 0 where
  pub valid : IsValid t
  pub same_pages : t.total_pages ≡ s.total_pages
  pub frames : Frames s pages
  pub used_lem : (j : ℕ) → j < s.total_pages → used t j ≡ (used s j || holds j pages)
  pub held : (j : ℕ) → holds j pages ≡ true → refs t j ≡ 1
  pub kept : (j : ℕ) → used s j ≡ true → refs t j ≡ refs s j

-- The memory below 1 MB is never free.
abbrev pub Low : Pmm → Type 0
Low s = (j : ℕ) → j < 256 → used s j ≡ true

-- The first frame of the list given back.
module _ (s t u : Pmm) (a : ℕ) (pages : List ℕ) (g : Holding s t (a ∷ pages))
    (d : Dropped t u (a / page_size)) where
  abbrev gone : ℕ
  gone = a / page_size

-- Either as many frames as were asked for, or none.
pub data Taken (s : Pmm) (n : ℕ) : Option (List ℕ) × Pmm → Type 0 where
  all :
      (pages : List ℕ) (t : Pmm) → length pages ≡ n → Holding s t pages → Taken s n (some pages, t)
  nothing : (t : Pmm) → Holding s t [] → Taken s n (none, t)

-- `s` are the frames at the call, `k` those after `kmalloc`.
pub data SizeSet (s k : Pmm) (shm : Segment) (new_size : ℕ) : Bool × Segment × Pmm → Type 0 where
  not_asked :
      (ltb 0 shm.size || num_pages new_size == 0) ≡ true → SizeSet s k shm new_size (false, shm, s)
  failed :
      (t : Pmm)
      → shm.size ≡ 0
      → 0 < num_pages new_size
      → Holding k t []
      → SizeSet s k shm new_size (false, shm, t)
  sized :
      (pages : List ℕ) (t : Pmm)
      → shm.size ≡ 0
      → 0 < num_pages new_size
      → length pages ≡ num_pages new_size
      → Holding k t pages
      → SizeSet s k shm new_size (
        true,
        record shm { size = new_size; page_count = num_pages new_size; phys_pages = pages },
        t,
      )
