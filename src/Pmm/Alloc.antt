-- ===== src/Pmm/Alloc.antt =====
-- What `pmm_alloc_frame` returns and changes.
use nyan_os.Base.{
  ℕ, zero, suc, ◌+◌, ◌-◌, ◌*◌, ◌<◌, ◌≤◌, ◌≡◌, ◌≢◌, refl, ap, ◌∙◌, true, false, ◌||◌, none, some,
  arith, ◌==◌, get_or, length-set, get_or-set_self, get_or-set_ne, Bool-cases, Option-cases, inl,
  inr,
}
use nyan_os.Pmm.{Pmm, page_size, bitmap_set, find_free, take_page, search, pmm_alloc_frame}
use nyan_os.Pmm.Bitmap.{
  IsValid, used, refs, bitmap_set_lem, bitmap_set-IsValid, used-bitmap_set, used_ext,
}

find_free-some :
    (s : Pmm) (i n r : ℕ) → find_free s i n ≡ some r → (i ≤ r) × (r < i + n) × (used s r ≡ false)
unfolding find_free
find_free-some s i zero r e = ground arith
find_free-some s i (suc n) r e = ground (arith, find_free-some s (i + 1) n r)

find_free-none :
    (s : Pmm) (i n j : ℕ) → find_free s i n ≡ none → i ≤ j → j < i + n → used s j ≡ true
unfolding find_free
find_free-none s i zero j e h k = absurd (omega arith)
find_free-none s i (suc n) j e h k = elim (Bool-cases (i == j)) [
  | inl here ↦ ground arith
  | inr later ↦ ground (arith, find_free-none s (i + 1) n j)
]

-- The search covers every page, from the last allocation on and then from the start.
search-some :
    (s : Pmm) (r : ℕ) → IsValid s → search s ≡ some r → (r < s.total_pages) × (used s r ≡ false)
unfolding search
search-some s r v e =
    elim (Option-cases (find_free s s.last_free_page (s.total_pages - s.last_free_page))) [
      | inl late ↦ ground (arith, find_free-some s 0 s.last_free_page r)
      | inr (q, early) ↦
          let found = find_free-some s s.last_free_page _ q early in
          let same : r ≡ q = ground arith in rw same (omega arith, found.2)
    ]

search-none : (s : Pmm) (j : ℕ) → IsValid s → search s ≡ none → j < s.total_pages → used s j ≡ true
unfolding search
search-none s j v e h =
    elim (Option-cases (find_free s s.last_free_page (s.total_pages - s.last_free_page))) [
      | inl late ↦ ground (
        arith,
        find_free-none s s.last_free_page (s.total_pages - s.last_free_page) j,
        find_free-none s 0 s.last_free_page j,
      )
      | inr (q, early) ↦ ground arith
    ]

-- The frame `i`, free before, is used with one reference; no other frame changes.
pub record Claimed (s s' : Pmm) (i : ℕ) : Type 0 where
  pub valid : IsValid s'
  pub pages : s'.total_pages ≡ s.total_pages
  pub used_lem : (j : ℕ) → j < s.total_pages → used s' j ≡ ((i == j) || used s j)
  pub refs_self : refs s' i ≡ 1
  pub refs_ne : (j : ℕ) → i ≢ j → refs s' j ≡ refs s j

pub data Allocation (s : Pmm) : ℕ × Pmm → Type 0 where
  frame :
      (i : ℕ) (s' : Pmm)
      → i < s.total_pages
      → used s i ≡ false
      → Claimed s s' i
      → Allocation s (i * page_size, s')
  out_of_memory : ((j : ℕ) → j < s.total_pages → used s j ≡ true) → Allocation s (0, s)

take_page-Claimed :
    (s : Pmm) (i : ℕ) → IsValid s → i < s.total_pages → Claimed s (take_page s i).1 i
unfolding take_page
take_page-Claimed s i v h = record {
  valid = valid;
  pages = same;
  used_lem = λ j k.
      used_ext (bitmap_set s i) _ j marked valid refl refl (rw same k)
      ∙ used-bitmap_set s i j v h k;
  refs_self = get_or-set_self (bitmap_set s i).ref_counts i 1 0 (rw counts (omega arith));
  refs_ne =
      λ j n. get_or-set_ne (bitmap_set s i).ref_counts i j 1 0 n ∙ ap (λ cs. get_or cs j 0) counts;
}
  where
    marked : IsValid (bitmap_set s i)
    marked = bitmap_set-IsValid s v i h

    same : (bitmap_set s i).total_pages ≡ s.total_pages
    same = ap (λ t. t.total_pages) (bitmap_set_lem s v i h)

    counts : (bitmap_set s i).ref_counts ≡ s.ref_counts
    counts = ap (λ t. t.ref_counts) (bitmap_set_lem s v i h)

    valid : IsValid (take_page s i).1
    valid = record {
      bytes = marked.bytes;
      covers = marked.covers;
      counts = omega (arith, marked.counts, length-set (bitmap_set s i).ref_counts i 1);
      hint = rw same (omega arith);
    }

-- In a valid state `pmm_alloc_frame` returns the address of a frame that was free, marks it used with one reference
-- and changes no other frame; it returns 0, and changes nothing, only when every frame is used.
pub pmm_alloc_frame-Allocation : (s : Pmm) → IsValid s → Allocation s (pmm_alloc_frame s)
unfolding pmm_alloc_frame
pmm_alloc_frame-Allocation s v = elim (Option-cases (search s)) [
  | inl none_free ↦ rw none_free (out_of_memory (λ j h. search-none s j v none_free h))
  | inr (i, found) ↦
      let free = search-some s i v found in
      rw found (frame i (take_page s i).1 free.0 free.1 (take_page-Claimed s i v free.0))
]
