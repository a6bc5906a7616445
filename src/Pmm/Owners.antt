-- ===== src/Pmm/Owners.antt =====
-- The kernel's use of the frame allocator, in any order: each frame has a number of owners, who
-- took it with `pmm_alloc_frame` or a `pmm_inc_ref` and give it back with `pmm_free_frame`. Frames
-- that the initialisation keeps back are reserved: they have no owner and are never given out.
use nyan_os.Base.{
  ℕ, ◌+◌, ◌-◌, ◌*◌, ◌/◌, ◌^◌, ◌<◌, ◌≤◌, ◌≡◌, refl, Bool, true, false, ◌||◌, ◌⊎◌, arith, ltb, ◌==◌,
  if◌then◌else◌,
}
use nyan_os.Pmm.{Pmm, page_size, first_mb, pmm_alloc_frame, pmm_free_frame, pmm_inc_ref}
use nyan_os.Pmm.Bitmap.{IsValid, used, refs}
use nyan_os.Pmm.Alloc.{Claimed, Allocation, frame, out_of_memory, pmm_alloc_frame-Allocation}
use nyan_os.Pmm.Free.{
  Freeing, dropped, refused, accepts, pmm_free_frame-Freeing, Shared, pmm_inc_ref-Shared,
}

pub record System : Type 0 where
  pub pmm : Pmm
  pub owners : ℕ → ℕ

abbrev pub update : (ℕ → ℕ) → ℕ → ℕ → ℕ → ℕ
update f i v j = if i == j then v else f j

-- The caller of an allocation that returns 0 owns nothing new.
abbrev pub allocated : System → ℕ × Pmm → System
allocated s (a, p) = record {
  pmm = p;
  owners = if a == 0 then s.owners else update s.owners (a / page_size) 1;
}

-- Only an owner shares or frees a frame; a count stays below 2 ^ 32.
pub data Step (s : System) : System → Type 0 where
  alloc : Step s (allocated s (pmm_alloc_frame s.pmm))
  share :
      (a : ℕ)
      → 0 < s.owners (a / page_size)
      → s.owners (a / page_size) + 1 < 2 ^ 32
      → Step s (record {
        pmm = pmm_inc_ref s.pmm a;
        owners = update s.owners (a / page_size) (s.owners (a / page_size) + 1);
      })
  free :
      (a : ℕ)
      → 0 < s.owners (a / page_size)
      → Step s (record {
        pmm = pmm_free_frame s.pmm a;
        owners = update s.owners (a / page_size) (s.owners (a / page_size) - 1);
      })

pub data Reach (s : System) : System → Type 0 where
  here : Reach s s
  next : {t u : System} → Reach s t → Step t u → Reach s u

-- The allocator keeps the owners' books: a frame's count is its number of owners, and a frame is in
-- use exactly if it is reserved or has an owner.
pub record Books (reserved : ℕ → Bool) (s : System) : Type 0 where
  pub valid : IsValid s.pmm
  pub low : (j : ℕ) → j < 256 → reserved j ≡ true
  pub no_owner : (j : ℕ) → reserved j ≡ true → s.owners j ≡ 0
  pub in_range : (j : ℕ) → s.pmm.total_pages ≤ j → s.owners j ≡ 0
  pub counted : (j : ℕ) → j < s.pmm.total_pages → 0 < s.owners j → refs s.pmm j ≡ s.owners j
  pub marked : (j : ℕ) → j < s.pmm.total_pages → used s.pmm j ≡ (reserved j || ltb 0 (s.owners j))

module _ (reserved : ℕ → Bool) (s : System) (b : Books reserved s) where
  owned_lt : (i : ℕ) → 0 < s.owners i → i < s.pmm.total_pages
  owned_lt i h = ground (arith, b.in_range i)

  owned_high : (i : ℕ) → 0 < s.owners i → (256 ≤ i) × (reserved i ≡ false)
  owned_high i h = (ground (arith, b.low i, b.no_owner i), ground (arith, b.no_owner i))

  owned_accepts : (a : ℕ) → 0 < s.owners (a / page_size) → accepts s.pmm a ≡ true
  owned_accepts a h =
      let i = a / page_size in
      ground
        (arith, owned_lt (a / page_size) h, owned_high (a / page_size) h, b.marked (a / page_size))

  free-Books :
      (a : ℕ) (p : Pmm)
      → 0 < s.owners (a / page_size)
      → Freeing s.pmm a p
      → Books reserved (record {
        pmm = p;
        owners = update s.owners (a / page_size) (s.owners (a / page_size) - 1);
      })
  free-Books a p h (refused n) = absurd (ground (arith, owned_accepts a h))
  free-Books a p h (dropped _ y d) = record {
    valid = d.valid;
    low = b.low;
    no_owner = λ j r. ground (arith, b.no_owner j r);
    in_range = λ j k. ground (arith, b.in_range j, d.pages);
    counted = λ j k pos. ground (
      arith,
      b.counted j,
      d.pages,
      d.refs_lem j,
      b.counted (a / page_size),
      owned_lt (a / page_size) h,
    );
    marked = λ j k. ground (
      arith,
      b.marked j,
      d.pages,
      d.used_lem j,
      b.counted (a / page_size),
      owned_lt (a / page_size) h,
      owned_high (a / page_size) h,
    );
  }

  share-Books :
      (a : ℕ) (p : Pmm)
      → 0 < s.owners (a / page_size)
      → s.owners (a / page_size) + 1 < 2 ^ 32
      → Shared s.pmm p (a / page_size)
      → Books reserved (record {
        pmm = p;
        owners = update s.owners (a / page_size) (s.owners (a / page_size) + 1);
      })
  share-Books a p h small d = record {
    valid = d.valid;
    low = b.low;
    no_owner = λ j r. ground (arith, b.no_owner j r);
    in_range = λ j k. ground (arith, b.in_range j, d.pages, owned_lt (a / page_size) h);
    counted = λ j k pos. ground (
      arith,
      b.counted j,
      d.pages,
      d.refs_lem j,
      b.counted (a / page_size),
      owned_lt (a / page_size) h,
    );
    marked = λ j k. ground (arith, b.marked j, d.pages, d.used_lem j);
  }

  -- A frame that the search finds free is not reserved and has no owner.
  found_free :
      (i : ℕ)
      → i < s.pmm.total_pages
      → used s.pmm i ≡ false
      → (256 ≤ i) × (reserved i ≡ false) × (s.owners i ≡ 0)
  found_free i h unused =
      (ground (arith, b.low i, b.marked i), ground (arith, b.marked i), ground (arith, b.marked i))

  Claimed-Books :
      (i : ℕ) (p : Pmm)
      → i < s.pmm.total_pages
      → used s.pmm i ≡ false
      → Claimed s.pmm p i
      → Books reserved (record { pmm = p; owners = update s.owners i 1 })
  Claimed-Books i p h unused c =
      let fresh = found_free i h unused in
      record {
        valid = c.valid;
        low = b.low;
        no_owner = λ j r. ground (arith, b.no_owner j r, fresh);
        in_range = λ j k. ground (arith, b.in_range j, c.pages);
        counted = λ j k pos. ground (arith, b.counted j, c.pages, c.refs_self, c.refs_ne j);
        marked = λ j k. ground (arith, b.marked j, c.pages, c.used_lem j, fresh);
      }

  alloc-Books : (r : ℕ × Pmm) → Allocation s.pmm r → Books reserved (allocated s r)
  alloc-Books r (out_of_memory full) = b
  alloc-Books r (frame i p h unused c) =
      let fresh = found_free i h unused in
      let positive : (i * page_size == 0) ≡ false = ground (arith, fresh) in
      let index : i * page_size / page_size ≡ i = omega arith in
      rw (positive, index) (Claimed-Books i p h unused c)

Step-Books : (reserved : ℕ → Bool) {s t : System} → Books reserved s → Step s t → Books reserved t
Step-Books reserved {s} b alloc =
    alloc-Books reserved s b _ (pmm_alloc_frame-Allocation s.pmm b.valid)
Step-Books reserved {s} b (share a h small) =
    share-Books reserved s b a _ h small
      (pmm_inc_ref-Shared s.pmm a b.valid (owned_lt reserved s b (a / page_size) h))
Step-Books reserved {s} b (free a h) =
    free-Books reserved s b a _ h (pmm_free_frame-Freeing s.pmm a b.valid)

-- Books that are kept stay so through every sequence of allocations, shares by owners and frees by
-- owners: the count of an owned frame is its number of owners, and a frame is used exactly if it is
-- reserved or owned.
pub Reach-Books :
    (reserved : ℕ → Bool) {s t : System} → Books reserved s → Reach s t → Books reserved t
Reach-Books reserved b here = b
Reach-Books reserved b (next r st) = Step-Books reserved (Reach-Books reserved b r) st

-- What an allocation returns to a caller, by the owners of the frames.
pub data Outcome (reserved : ℕ → Bool) (s : System) (addr : ℕ) : Type 0 where
  given :
      (i : ℕ)
      → addr ≡ i * page_size
      → first_mb ≤ addr
      → i < s.pmm.total_pages
      → reserved i ≡ false
      → s.owners i ≡ 0
      → Outcome reserved s addr
  nothing_left :
      addr ≡ 0
      → ((j : ℕ) → j < s.pmm.total_pages → (reserved j ≡ true) ⊎ (0 < s.owners j))
      → Outcome reserved s addr

-- In every state that owners can reach from one where the books are kept, an allocation gives a page-aligned frame above 1 MB that
-- is not reserved and that nobody owns; it returns 0 only when every frame is reserved or owned.
pub pmm_alloc_frame-Outcome :
    (reserved : ℕ → Bool) (s t : System)
    → Books reserved s
    → Reach s t
    → Outcome reserved t (pmm_alloc_frame t.pmm).0
pmm_alloc_frame-Outcome reserved s t b r =
    let bt = Reach-Books reserved b r in outcome bt _ (pmm_alloc_frame-Allocation t.pmm bt.valid)
  where
    outcome : Books reserved t → (q : ℕ × Pmm) → Allocation t.pmm q → Outcome reserved t q.0
    outcome b q (frame i p h unused c) =
        let fresh = found_free reserved t b i h unused in
        given i refl (omega (arith, fresh.0)) h fresh.1 fresh.2
    outcome b q (out_of_memory full) = nothing_left refl λ j h. ground (arith, full j h, b.marked j)
