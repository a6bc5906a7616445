-- ===== src/Pmm/Init/Reserved.antt =====
-- Which frames `pmm_init` leaves in use.
use nyan_os.Base.{
  ℕ, zero, suc, ◌+◌, ◌*◌, ◌/◌, ◌%◌, ◌^◌, ◌<◌, ◌≤◌, ◌≡◌, refl, sym, ap, subst, ◌∙◌, Bool, true,
  false, not, ◌&&◌, ◌||◌, some, List, [], ◌∷◌, arith, ltb, leb, if◌then◌else◌, get_or, replicate,
  length-replicate, full_byte, Bool-cases, Option-cases, inl, inr, lt→ltb,
}
use nyan_os.Pmm.{Pmm, page_size, bitmap_set, bitmap_clear}
use nyan_os.Pmm.Bitmap.{
  IsValid, used, refs, used_lem, bitmap_set_lem, bitmap_set-IsValid, used-bitmap_set,
  bitmap_clear_lem, bitmap_clear-IsValid, used-bitmap_clear, used_ext,
}
use nyan_os.Pmm.Owners.{Books}
use nyan_os.Pmm.Init.{
  Entry, memory_size_from, get_memory_size, place, set_pages, clear_pages, clear_entry,
  clear_usable, metadata_pages, all_used, mark, pmm_init,
}

-- Runs of pages.
abbrev pub between : ℕ → ℕ → ℕ → Bool
between i n j = leb i j && ltb j (i + n)

record Kept (s t : Pmm) : Type 0 where
  valid : IsValid t
  pages : t.total_pages ≡ s.total_pages
  hint : t.last_free_page ≡ s.last_free_page

set_pages_lem :
    (s : Pmm) (i n : ℕ)
    → IsValid s
    → i + n ≤ s.total_pages
    → Kept s (set_pages s i n)
      × ((j : ℕ) → j < s.total_pages → used (set_pages s i n) j ≡ (between i n j || used s j))
unfolding set_pages
set_pages_lem s i zero v h = (record { valid = v; pages = refl; hint = refl }, λ j k. ground arith)
set_pages_lem s i (suc n) v h =
    let same = bitmap_set_lem s v i (omega arith) in
    let pages : (bitmap_set s i).total_pages ≡ s.total_pages = ap (λ t. t.total_pages) same in
    let hint : (bitmap_set s i).last_free_page ≡ s.last_free_page =
      ap (λ t. t.last_free_page) same in
    let rest =
      set_pages_lem (bitmap_set s i) (i + 1) n (bitmap_set-IsValid s v i (omega arith))
        (omega arith) in
    (
      record { valid = rest.0.valid; pages = rest.0.pages ∙ pages; hint = rest.0.hint ∙ hint },
      λ j k. ground (arith, rest.1 j, used-bitmap_set s i j v),
    )

clear_pages_lem :
    (s : Pmm) (i n : ℕ)
    → IsValid s
    → i + n ≤ s.total_pages
    → Kept s (clear_pages s i n)
      × ((j : ℕ)
          → j < s.total_pages
          → used (clear_pages s i n) j ≡ (not (between i n j) && used s j))
unfolding clear_pages
clear_pages_lem s i zero v h =
    (record { valid = v; pages = refl; hint = refl }, λ j k. ground arith)
clear_pages_lem s i (suc n) v h =
    let same = bitmap_clear_lem s v i (omega arith) in
    let pages : (bitmap_clear s i).total_pages ≡ s.total_pages = ap (λ t. t.total_pages) same in
    let hint : (bitmap_clear s i).last_free_page ≡ s.last_free_page =
      ap (λ t. t.last_free_page) same in
    let rest =
      clear_pages_lem (bitmap_clear s i) (i + 1) n (bitmap_clear-IsValid s v i (omega arith))
        (omega arith) in
    (
      record { valid = rest.0.valid; pages = rest.0.pages ∙ pages; hint = rest.0.hint ∙ hint },
      λ j k. ground (arith, rest.1 j, used-bitmap_clear s i j v),
    )

-- Whether a usable entry of the memory map holds the page.
abbrev pub usable_page : List Entry → ℕ → Bool
usable_page [] j = false
usable_page (e ∷ es) j =
    (e.usable && between (e.base / page_size) (e.size / page_size) j) || usable_page es j

-- No entry reaches past the end of the address space.
abbrev pub NoWrap : List Entry → Type 0
NoWrap [] = Unit {0}
NoWrap (e ∷ es) = (e.base + e.size < 2 ^ 64) × NoWrap es

abbrev Fits : ℕ → List Entry → Type 0
Fits total [] = Unit {0}
Fits total (e ∷ es) =
    (e.usable ≡ true → e.base / page_size + e.size / page_size ≤ total) × Fits total es

memory_size_from_le : (h : ℕ) (es : List Entry) → h ≤ memory_size_from h es
unfolding memory_size_from
memory_size_from_le h [] = omega arith
memory_size_from_le h (e ∷ es) =
    let top = (e.base + e.size) % 2 ^ 64 in
    let h' = if e.usable && ltb h top then top else h in
    let more : h ≤ h' = ground arith in omega (arith, more, memory_size_from_le h' es)

Fits-memory_size :
    (h total : ℕ) (es : List Entry)
    → NoWrap es
    → memory_size_from h es / page_size ≤ total
    → Fits total es
unfolding memory_size_from
Fits-memory_size h total [] w b = tt
Fits-memory_size h total (e ∷ es) w b =
    let top = (e.base + e.size) % 2 ^ 64 in
    let h' = if e.usable && ltb h top then top else h in
    let more : e.usable ≡ true → e.base + e.size ≤ h' = λ u. ground arith in
    (λ u. omega (arith, more u, memory_size_from_le h' es), Fits-memory_size h' total es w.1 b)

clear_entry_lem :
    (s : Pmm) (e : Entry)
    → IsValid s
    → (e.usable ≡ true → e.base / page_size + e.size / page_size ≤ s.total_pages)
    → Kept s (clear_entry s e)
      × ((j : ℕ)
          → j < s.total_pages
          → used (clear_entry s e) j
            ≡ (not (e.usable && between (e.base / page_size) (e.size / page_size) j) && used s j))
unfolding clear_entry
clear_entry_lem s e v f = elim (Bool-cases e.usable) [
  | inl u ↦ simp u (clear_pages_lem s (e.base / page_size) (e.size / page_size) v (f u))
  | inr n ↦ simp n (record { valid = v; pages = refl; hint = refl }, λ j k. refl)
]

Fits-ext : (m n : ℕ) (es : List Entry) → m ≡ n → Fits m es → Fits n es
Fits-ext m n es e f = rw (← e) f

clear_usable_lem :
    (s : Pmm) (es : List Entry)
    → IsValid s
    → Fits s.total_pages es
    → Kept s (clear_usable s es)
      × ((j : ℕ)
          → j < s.total_pages
          → used (clear_usable s es) j ≡ (not (usable_page es j) && used s j))
unfolding clear_usable
clear_usable_lem s [] v f = (record { valid = v; pages = refl; hint = refl }, λ j k. refl)
clear_usable_lem s (e ∷ es) v f =
    let one = clear_entry_lem s e v f.0 in
    let t = clear_entry s e in
    let rest = clear_usable_lem t es one.0.valid (Fits-ext _ _ es (sym one.0.pages) f.1) in
    (
      record {
        valid = rest.0.valid;
        pages = rest.0.pages ∙ one.0.pages;
        hint = rest.0.hint ∙ one.0.hint;
      },
      λ j k. ground (arith, rest.1 j, one.1 j, one.0.pages),
    )

get_or-replicate : (n i v : ℕ) → get_or (replicate n v) i 0 ≡ (if ltb i n then v else 0)
get_or-replicate zero i v = ground arith
get_or-replicate (suc n) zero v = ground arith
get_or-replicate (suc n) (suc i) v = ground (arith, get_or-replicate n i v)

module _ (total : ℕ) (whole : total % 8 ≡ 0) where
  all_used-IsValid : IsValid (all_used total)
  all_used-IsValid = record {
    bytes = λ k. ground (arith, get_or-replicate (total / 8) k 0xff);
    covers = omega (arith, length-replicate {A = ℕ} (total / 8) 0xff);
    counts = omega (arith, length-replicate {A = ℕ} total 0);
    hint = omega arith;
  }

  used-all_used : (j : ℕ) → j < total → used (all_used total) j ≡ true
  used-all_used j h =
      used_lem (all_used total) all_used-IsValid j h
      ∙ rw (get_or-replicate (total / 8) (j / 8) 0xff, lt→ltb (j / 8) (total / 8) (omega arith))
          (full_byte (j % 8) (omega arith))

  -- The pages of the bitmap and the counts, the first megabyte, and what is not usable.
  module _ (meta : ℕ) (es : List Entry) (big : 256 ≤ total) (fits : Fits total es)
      (room : meta / page_size + metadata_pages total ≤ total) where
    abbrev pub kept_back : ℕ → Bool
    kept_back j =
        between 0 256 j
        || (between (meta / page_size) (metadata_pages total) j || not (usable_page es j))

    mark_lem :
        IsValid (mark total meta es)
        × ((mark total meta es).total_pages ≡ total)
        × ((j : ℕ) → j < total → used (mark total meta es) j ≡ kept_back j)
        × ((j : ℕ) → refs (mark total meta es) j ≡ 0)
    unfolding mark
    mark_lem =
        let freed = clear_usable_lem (all_used total) es all_used-IsValid fits in
        let f = clear_usable (all_used total) es in
        let kept =
          set_pages_lem f (meta / page_size) (metadata_pages total) freed.0.valid
            (omega (arith, freed.0.pages, room)) in
        let k = set_pages f (meta / page_size) (metadata_pages total) in
        let low = set_pages_lem k 0 256 kept.0.valid (omega (arith, kept.0.pages, freed.0.pages)) in
        let l = set_pages k 0 256 in
        let pages : l.total_pages ≡ total = low.0.pages ∙ kept.0.pages ∙ freed.0.pages in
        let valid : IsValid (record l { ref_counts = replicate total 0 }) = record {
          bytes = low.0.valid.bytes;
          covers = low.0.valid.covers;
          counts = omega (arith, pages, length-replicate {A = ℕ} total 0);
          hint = low.0.valid.hint;
        } in
        (
          valid,
          pages,
          λ j h.
              used_ext l _ j low.0.valid valid refl refl (omega (arith, pages))
              ∙ ground (
                arith,
                low.1 j,
                kept.1 j,
                freed.1 j,
                used-all_used j,
                low.0.pages,
                kept.0.pages,
                freed.0.pages,
              ),
          λ j. ground (arith, get_or-replicate total j 0),
        )

place-Fits :
    (total n meta : ℕ) (es : List Entry)
    → Fits total es
    → place (n * page_size) es ≡ some meta
    → meta / page_size + n ≤ total
unfolding place
place-Fits total n meta [] f e = ground arith
place-Fits total n meta (x ∷ es) f e = elim (Bool-cases (x.usable && leb (n * page_size) x.size)) [
  | inl here ↦ ground (arith, f.0)
  | inr there ↦ ground (arith, place-Fits total n meta es f.1)
]

-- The number of page frames below the end of the usable memory.
abbrev pub frames : List Entry → ℕ
frames es = get_memory_size es / page_size

-- What `pmm_init` has done when it returns.
pub record Initialised (es : List Entry) (s : Pmm) : Type 0 where
  pub meta : ℕ
  pub placed : place (metadata_pages (frames es) * page_size) es ≡ some meta
  pub pages : s.total_pages ≡ frames es
  pub used_lem :
      (j : ℕ)
      → j < frames es
      → used s j ≡ (
          between 0 256 j
          || (between (meta / page_size) (metadata_pages (frames es)) j || not (usable_page es j)))
  pub books :
      Books
        (λ j.
          between 0 256 j
          || (between (meta / page_size) (metadata_pages (frames es)) j || not (usable_page es j)))
        (record { pmm = s; owners = λ _. 0 })

mark-Initialised :
    (es : List Entry) (meta : ℕ)
    → NoWrap es
    → frames es % 8 ≡ 0
    → 256 ≤ frames es
    → place (metadata_pages (frames es) * page_size) es ≡ some meta
    → Initialised es (mark (frames es) meta es)
mark-Initialised es meta w whole big e =
    let fits : Fits (frames es) es =
      unfold get_memory_size in Fits-memory_size 0 (frames es) es w (omega arith) in
    let m =
      mark_lem (frames es) whole meta es big fits
        (place-Fits (frames es) (metadata_pages (frames es)) meta es fits e) in
    record {
      meta = meta;
      placed = e;
      pages = m.1;
      used_lem = m.2;
      books = record {
        valid = m.0;
        low = λ j h. ground arith;
        no_owner = λ j h. refl;
        in_range = λ j h. refl;
        counted = λ j h pos. absurd (omega arith);
        marked = λ j h. m.2 j (omega (arith, m.1)) ∙ ground arith;
      };
    }

-- Where no entry of the memory map wraps round, with at least 1 MB of memory and a number of frames
-- that is a multiple of 8, a `pmm_init` that finds a place for its tables leaves in
-- use exactly the first 256 frames, those of its bitmap and counts, and those that no usable entry
-- holds; every other frame is free, and the books of the owners start out kept.
pub pmm_init-Initialised :
    (es : List Entry) (s : Pmm)
    → NoWrap es
    → frames es % 8 ≡ 0
    → 256 ≤ frames es
    → pmm_init es ≡ some s
    → Initialised es s
unfolding pmm_init
pmm_init-Initialised es s w whole big e =
    elim (Option-cases (place (metadata_pages (frames es) * page_size) es)) [
      | inl nowhere ↦ absurd (ground arith)
      | inr (meta, here) ↦
          let same : mark (frames es) meta es ≡ s = ground arith in
          subst (Initialised es) same (mark-Initialised es meta w whole big here)
    ]
