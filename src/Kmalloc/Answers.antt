-- ===== src/Kmalloc/Answers.antt =====
-- What each request for memory is answered.
use nyan_os.Base.{
  ℕ, ◌+◌, ◌-◌, ◌^◌, ◌<◌, ◌≤◌, ◌≡◌, ◌≢◌, refl, sym, subst, ◌∙◌, true, false, Option, none, some,
  List, [], ◌∷◌, arith, leb, ◌==◌, Bool-cases, Option-cases, inl, inr, if_ind,
}
use nyan_os.Regions.{
  Inserted, Region, region, Chain, Chain-ext, disjoint-Apart, roomy, Chain-roomy, ◌+64◌,
}
use nyan_os.Kmalloc.{
  Heap, header, page_size, insert_block, kfree_unlocked, find_free_block, add_page, Result, null,
  global, block, carve, carve_found, second_try, first_try, round_up, kmalloc,
}
use nyan_os.Kmalloc.Insert.{insert_block-Inserted}
use nyan_os.Kmalloc.Carve.{
  Found, find_free_block-Found, find_roomy, block_at, Carved, carve-Carved, IsFresh,
  add_page-Inserted,
}

-- A block came out of the list, or there was none.
pub data Answer (h : Heap) (size : ℕ) : Result × Heap → Type 0 where
  served : (ptr : ℕ) (h' : Heap) → Carved h.free_list size h' ptr → Answer h size (block ptr, h')
  unserved : roomy (size + header) h.free_list ≡ false → Answer h size (null, h)

carve_block : (h : Heap) (b : Region) (size : ℕ) → (carve h b size).0 ≡ block (b.addr +64 header)
unfolding carve
carve_block h b size = ground arith

carve-Answer :
    (h : Heap) (size : ℕ) (g : Heap) (b : Region)
    → Carved h.free_list size (carve g b size).1 (b.addr +64 header)
    → Answer h size (carve g b size)
carve-Answer h size g b c =
    subst (λ r. Answer h size (r, (carve g b size).1)) (sym (carve_block g b size)) (served _ _ c)

carve_found-Answer :
    (h : Heap) (q : Option Region × List Region) (size : ℕ)
    → 0 < size
    → Found 0 size h.free_list q
    → (roomy (size + header) h.free_list ≡ true → q.0 ≢ none)
    → Answer h size (carve_found h q size)
unfolding carve_found Found
carve_found-Answer h (none, rest) size pos f r =
    unserved (elim (Bool-cases (roomy (size + header) h.free_list)) [
      | inl yes_room ↦ absurd (r yes_room refl)
      | inr no_room ↦ no_room
    ])
carve_found-Answer h (some b, rest) size pos f r =
    carve-Answer h size (record h { free_list = rest }) b
      (carve-Carved (record h { free_list = rest }) h.free_list b size f pos)

second_try-Answer :
    (h : Heap) (size : ℕ)
    → 0 < size
    → size + header < 2 ^ 64
    → Chain 0 h.free_list
    → Answer h size (second_try h size)
unfolding second_try
second_try-Answer h size pos small c =
    carve_found-Answer h (find_free_block size h.free_list) size pos
      (find_free_block-Found 0 size h.free_list small c) (find_roomy size h.free_list small)

page_roomy :
    (h : Heap) (page : ℕ) (rs : List Region)
    → Inserted 0 (region page page_size) h.free_list rs
    → roomy page_size rs ≡ true
page_roomy h page rs put =
    Chain-roomy 0 page page_size rs (omega arith) put.chain λ a x y. ground (arith, put.same a)

roomy_mono : (m n : ℕ) (rs : List Region) → m ≤ n → roomy n rs ≡ true → roomy m rs ≡ true
roomy_mono m n [] h r = r
roomy_mono m n (x ∷ rs) h r = ground (arith, roomy_mono m n rs h)

-- The answers of `kmalloc`.
pub data Request (new_page : Option ℕ) (h : Heap) (size : ℕ) : Result × Heap → Type 0 where
  nothing_asked : size ≡ 0 → Request new_page h size (null, h)
  large : page_size - header ≤ round_up size → Request new_page h size (global (round_up size), h)
  from_list :
      (ptr : ℕ) (h' : Heap)
      → size ≤ round_up size
      → Carved h.free_list (round_up size) h' ptr
      → Request new_page h size (block ptr, h')
  from_page :
      (page ptr : ℕ) (h' : Heap)
      → new_page ≡ some page
      → roomy (round_up size + header) h.free_list ≡ false
      → size ≤ round_up size
      → Carved (add_page h page).free_list (round_up size) h' ptr
      → Request new_page h size (block ptr, h')
  out_of_memory :
      new_page ≡ none
      → roomy (round_up size + header) h.free_list ≡ false
      → Request new_page h size (null, h)

-- The second search, after a page was added, finds room for a small request.
from_page-Request :
    (h : Heap) (size page : ℕ)
    → Chain 0 h.free_list
    → IsFresh h page
    → 0 < size
    → size ≤ round_up size
    → round_up size < page_size - header
    → roomy (round_up size + header) h.free_list ≡ false
    → (r : Result × Heap) → Answer (add_page h page) (round_up size) r
    → Request (some page) h size r
from_page-Request h size page c f pos up low full_list r (served ptr h' k) =
    from_page page ptr h' refl full_list up k
from_page-Request h size page c f pos up low full_list r (unserved short) =
    let put = add_page-Inserted h page c f in
    let full =
      roomy_mono (round_up size + header) page_size (add_page h page).free_list (omega arith)
        (page_roomy h page (add_page h page).free_list put) in
    absurd (ground (arith, full))

from_list-Request :
    (new_page : Option ℕ) (h : Heap) (size : ℕ) (r : Result × Heap)
    → size ≤ round_up size
    → roomy (round_up size + header) h.free_list ≡ true
    → Answer h (round_up size) r
    → Request new_page h size r
from_list-Request new_page h size r up room (served ptr h' k) = from_list ptr h' up k
from_list-Request new_page h size r up room (unserved short) = absurd (ground arith)

-- `none` needs no page; a page must be one that is not free yet.
abbrev pub PageOk : Option ℕ → Heap → Type 0
PageOk none h = Unit {0}
PageOk (some page) h = IsFresh h page

short_of_room :
    (size : ℕ) (bs : List Region)
    → size + header < 2 ^ 64
    → (find_free_block size bs).0 ≡ none
    → roomy (size + header) bs ≡ false
short_of_room size bs small e = elim (Bool-cases (roomy (size + header) bs)) [
  | inl room ↦ absurd (find_roomy size bs small room e)
  | inr short ↦ short
]

found_roomy :
    (size : ℕ) (b : Region) (bs : List Region)
    → size + header < 2 ^ 64
    → (find_free_block size bs).0 ≡ some b
    → roomy (size + header) bs ≡ true
unfolding find_free_block
found_roomy size b [] small e = ground arith
found_roomy size b (x ∷ bs) small e = ground (arith, found_roomy size b bs small)

first_try-Request :
    (new_page : Option ℕ) (h : Heap) (size : ℕ)
    → Chain 0 h.free_list
    → PageOk new_page h
    → 0 < round_up size
    → 0 < size
    → size ≤ round_up size
    → round_up size < page_size - header
    → Request new_page h size (first_try new_page h (round_up size))
unfolding first_try
first_try-Request none h size c ok pos pos' up low =
    elim (Option-cases (find_free_block (round_up size) h.free_list).0) [
      | inl missing ↦
          rw (missing, first_try)
            (out_of_memory refl (short_of_room (round_up size) h.free_list (omega arith) missing))
      | inr (b, found) ↦
          rw (found, first_try)
            (from_list-Request none h size _ up
              (found_roomy (round_up size) b h.free_list (omega arith) found)
              (second_try-Answer h (round_up size) pos (omega arith) c))
    ]
first_try-Request (some page) h size c ok pos pos' up low =
    elim (Option-cases (find_free_block (round_up size) h.free_list).0) [
      | inl missing ↦
          rw (missing, first_try)
            (from_page-Request h size page c ok pos' up low
              (short_of_room (round_up size) h.free_list (omega arith) missing) _
              (second_try-Answer (add_page h page) (round_up size) pos (omega arith)
                (add_page-Inserted h page c ok).chain))
      | inr (b, found) ↦
          rw (found, first_try)
            (from_list-Request (some page) h size _ up
              (found_roomy (round_up size) b h.free_list (omega arith) found)
              (second_try-Answer h (round_up size) pos (omega arith) c))
    ]

-- `kmalloc` on a heap whose free list is a chain, for a size of at most 2 ^ 64 - 16: a request of 0
-- bytes gets NULL, one that rounds up to a page less its header or more goes to `vmm_alloc_global`, any
-- other gets a block with room for it, carved out of the free list, or, where no block of the list is
-- large enough and a page is to be had that is not free yet, out of the list with this page; NULL comes
-- back for 0 bytes, or where no page is to be had and no free block is large enough.
pub kmalloc-Request :
    (new_page : Option ℕ) (h : Heap) (size : ℕ)
    → Chain 0 h.free_list
    → PageOk new_page h
    → size + 15 < 2 ^ 64
    → Request new_page h size (kmalloc new_page h size)
unfolding kmalloc
kmalloc-Request new_page h size c ok small =
    if_ind (Request new_page h size) (size == 0) _ _ (λ e. nothing_asked (ground arith))
      λ pos.
        if_ind (Request new_page h size) (leb (page_size - header) (round_up size)) _ _
          (λ e. large (ground arith))
          (λ low.
            first_try-Request new_page h size c ok (ground arith) (ground arith) (omega arith)
              (ground arith))

kfree_unlocked-Carved :
    (h h' : Heap) (size ptr : ℕ)
    → Chain 0 h.free_list
    → Carved h.free_list size h' ptr
    → (kfree_unlocked h' ptr).free_list ≡ h.free_list
unfolding kfree_unlocked
kfree_unlocked-Carved h h' size ptr c k =
    let some_ptr : (ptr == 0) ≡ false = ground (arith, k.behind) in
    let some_size : (h'.header_size (ptr - header) == 0) ≡ false = ground (arith, k.fits) in
    let b = block_at h' ptr in
    let put =
      insert_block-Inserted b h'.free_list k.chain (omega (arith, k.fits)) k.small
        (disjoint-Apart b 0 h'.free_list (omega (arith, k.fits)) k.chain k.disjoint) in
    rw (some_ptr, some_size)
      (Chain-ext 0 (insert_block b h'.free_list) h.free_list put.chain c
        λ a. put.same a ∙ sym (k.same a))

kfree_unlocked-Request :
    (h : Heap) (size ptr : ℕ) (q : Result × Heap)
    → Chain 0 h.free_list
    → Request none h size q
    → q.0 ≡ block ptr
    → (kfree_unlocked q.1 ptr).free_list ≡ h.free_list
kfree_unlocked-Request h size ptr q c (nothing_asked z) e = absurd (ground arith)
kfree_unlocked-Request h size ptr q c (large l) e = absurd (ground arith)
kfree_unlocked-Request h size ptr q c (from_list p h' up k) e =
    let same : p ≡ ptr = ground arith in
    rw (← same) (kfree_unlocked-Carved h h' (round_up size) p c k)
kfree_unlocked-Request h size ptr q c (from_page page p h' no_page short up k) e =
    absurd (ground arith)
kfree_unlocked-Request h size ptr q c (out_of_memory no_page short) e = absurd (ground arith)

-- Freeing the block that a request of at most 2 ^ 64 - 16 bytes took from the free list, where this is
-- a chain and no page is added, puts the free list back exactly as it was: the rest of the block, which was split off, is
-- joined to it again.
pub kfree_unlocked-kmalloc :
    (h : Heap) (size ptr : ℕ)
    → Chain 0 h.free_list
    → size + 15 < 2 ^ 64
    → (kmalloc none h size).0 ≡ block ptr
    → (kfree_unlocked (kmalloc none h size).1 ptr).free_list ≡ h.free_list
kfree_unlocked-kmalloc h size ptr c small e =
    kfree_unlocked-Request h size ptr _ c (kmalloc-Request none h size c tt small) e
