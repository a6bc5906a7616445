-- ===== src/Kmalloc/Carve.antt =====
-- What `kmalloc` takes out of the free list, and that `kfree` puts it back.
use nyan_os.Base.{
  ℕ, ◌+◌, ◌-◌, ◌^◌, ◌<◌, ◌≤◌, ◌≡◌, ◌≢◌, refl, ap, true, false, ◌||◌, inl, inr, Option, none, some,
  List, [], ◌∷◌, arith, leb, leb→le, ◌==◌, Bool-cases, if◌then◌else◌, if_ind,
}
use nyan_os.Regions.{
  Inserted, Region, region, ◌+64◌, inside, covered, Chain, Apart, Chain-mono, Apart-disjoint,
  Apart-below, disjoint-Apart, roomy,
}
use nyan_os.Kmalloc.{
  Heap, header, page_size, insert_block, kfree_unlocked, find_free_block, set_header, add_page,
  carve,
}
use nyan_os.Kmalloc.Insert.{insert_block-Inserted}

-- The block `b` taken out of a chain.
pub record TakenOut (lo size : ℕ) (bs : List Region) (b : Region) (rest : List Region)
    : Type 0 where
  pub fits : size + header ≤ b.size
  pub above : lo ≤ b.addr
  pub small : b.addr + b.size < 2 ^ 64
  pub chain : Chain lo rest
  pub apart : Apart b rest
  pub same : (a : ℕ) → covered bs a ≡ (inside b a || covered rest a)

unfoldable pub Found : ℕ → ℕ → List Region → Option Region × List Region → Type 0
Found lo size bs (none, rest) = rest ≡ bs
Found lo size bs (some b, rest) = TakenOut lo size bs b rest

pub find_free_block-Found :
    (lo size : ℕ) (bs : List Region)
    → size + header < 2 ^ 64
    → Chain lo bs
    → Found lo size bs (find_free_block size bs)
unfolding find_free_block Found
find_free_block-Found lo size [] h c = refl
find_free_block-Found lo size (b ∷ bs) h c =
    go (find_free_block size bs) (find_free_block-Found (b.addr + b.size + 1) size bs h c.3)
  where
    later :
        (q : Option Region × List Region)
        → Found (b.addr + b.size + 1) size bs q
        → Found lo size (b ∷ bs) (q.0, b ∷ q.1)
    later (none, rest) f = ap (λ l. b ∷ l) f
    later (some d, rest) f = record {
      fits = f.fits;
      above = omega (arith, f.above, c.0);
      small = f.small;
      chain = (c.0, c.1, c.2, f.chain);
      apart = (inr (omega (arith, f.above)), f.apart);
      same = λ a. ground (arith, f.same a);
    }

    go :
        (q : Option Region × List Region)
        → Found (b.addr + b.size + 1) size bs q
        → Found lo size
            (b ∷ bs)
            (if leb (size +64 header) b.size then (some b, bs) else (q.0, b ∷ q.1))
    go q f =
        if_ind (Found lo size (b ∷ bs)) (leb (size +64 header) b.size) _ _
          (λ enough. record {
            fits = ground arith;
            above = c.0;
            small = c.2;
            chain = Chain-mono _ lo bs (omega arith) c.3;
            apart = Apart-below b (b.addr + b.size + 1) bs (omega arith) c.3;
            same = λ a. refl;
          })
          (λ short. later q f)

-- The block that `kmalloc` returns: from its header on, of the size that the header holds.
abbrev pub block_at : Heap → ℕ → Region
block_at h ptr = region (ptr - header) (h.header_size (ptr - header))

-- A block of the size asked for has gone from the free list `old`: it has room for the size behind
-- its header, it shares no address with what is free, and together they cover what was free.
pub record Carved (old : List Region) (size : ℕ) (h : Heap) (ptr : ℕ) : Type 0 where
  pub behind : header ≤ ptr
  pub fits : size + header ≤ (block_at h ptr).size
  pub small : ptr - header + (block_at h ptr).size < 2 ^ 64
  pub chain : Chain 0 h.free_list
  pub disjoint : (a : ℕ) → inside (block_at h ptr) a ≡ true → covered h.free_list a ≡ false
  pub same : (a : ℕ) → covered old a ≡ (inside (block_at h ptr) a || covered h.free_list a)

-- The same, with the block named.
Carved-of :
    (old : List Region) (size : ℕ) (h : Heap) (ptr : ℕ) (k : Region)
    → ptr ≡ k.addr + header
    → h.header_size k.addr ≡ k.size
    → size + header ≤ k.size
    → k.addr + k.size < 2 ^ 64
    → Chain 0 h.free_list
    → Apart k h.free_list
    → ((a : ℕ) → covered old a ≡ (inside k a || covered h.free_list a))
    → Carved old size h ptr
Carved-of old size h ptr k e n fits small chain apart same =
    let start : ptr - header ≡ k.addr = omega arith in
    record {
      behind = omega arith;
      fits = rw (start, n) fits;
      small = rw (start, n) small;
      chain = chain;
      disjoint = λ a. rw (start, n) (Apart-disjoint k h.free_list a apart);
      same = λ a. rw (start, n) (same a);
    }

module _ (h : Heap) (old : List Region) (b : Region) (size : ℕ)
    (t : TakenOut 0 size old b h.free_list) (pos : 0 < size) where
  abbrev want : ℕ
  want = header + size

  ptr_lem : b.addr +64 header ≡ b.addr + header
  ptr_lem = omega (arith, t.fits, t.small)

  -- The whole block goes out.
  carve_whole :
      (n : ℕ)
      → n ≡ b.size
      → Carved old size
          (record h { header_size = set_header h.header_size b.addr n })
          (b.addr +64 header)
  carve_whole n e =
      Carved-of old size _ _ b ptr_lem (ground arith) t.fits t.small t.chain t.apart t.same

  -- The block is split, and the rest of it is free again.
  abbrev left : Region
  left = region (b.addr + want) (b.size - want)

  left-Apart : (rs : List Region) → Apart b rs → header ≤ b.size - want → Apart left rs
  left-Apart [] a e = tt
  left-Apart (r ∷ rs) a e = (ground arith, left-Apart rs a.1 e)

  front-Apart : (rs : List Region) → Apart b rs → Apart (region b.addr want) rs
  front-Apart [] a = tt
  front-Apart (r ∷ rs) a = (ground (arith, t.fits), front-Apart rs a.1)

  inserted : header ≤ b.size - want → Inserted 0 left h.free_list (insert_block left h.free_list)
  inserted e =
      insert_block-Inserted left h.free_list t.chain (omega arith) (omega (arith, t.fits, t.small))
        (left-Apart h.free_list t.apart e)

  carve_split :
      (f : ℕ → ℕ)
      → header ≤ b.size - want
      → f b.addr ≡ want
      → Carved old size
          (record { free_list = insert_block left h.free_list; header_size = f })
          (b.addr +64 header)
  carve_split f e n =
      let put = inserted e in
      let apart : Apart (region b.addr want) h.free_list = front-Apart h.free_list t.apart in
      let k = region b.addr want in
      Carved-of old size _ _ k ptr_lem n (omega arith) (omega (arith, t.fits, t.small)) put.chain
        (disjoint-Apart k 0 (insert_block left h.free_list) (omega arith) put.chain
          λ a i. ground (arith, put.same a, Apart-disjoint k h.free_list a apart i))
        (λ a. ground (arith, put.same a, t.same a, t.fits))

  -- What `kfree_unlocked` is given, and what it does.
  freed_left :
      (f : ℕ → ℕ)
      → header ≤ b.size - want
      → kfree_unlocked
          (record h { header_size = set_header f (b.addr +64 want) (b.size - want) })
          (b.addr +64 want +64 header)
        ≡ record h {
          free_list = insert_block left h.free_list;
          header_size = set_header f (b.addr +64 want) (b.size - want);
        }
  unfolding kfree_unlocked
  freed_left f e =
      let start : b.addr +64 want ≡ b.addr + want = omega (arith, t.small) in
      let back : b.addr +64 want +64 header - header ≡ b.addr + want = omega (arith, t.small) in
      let some_ptr : (b.addr +64 want +64 header == 0) ≡ false = ground (arith, t.small) in
      let own : (b.addr + want == b.addr + want) ≡ true = ground arith in
      let some_size : (b.size - want == 0) ≡ false = ground arith in
      rw (some_ptr, back, start, own, some_size)

  pub carve-Carved : Carved old size (carve h b size).1 (b.addr +64 header)
  unfolding carve
  carve-Carved = elim (Bool-cases (leb header (b.size - want))) [
    | inl e ↦
        rw (e, freed_left (set_header h.header_size b.addr want) (leb→le _ _ e))
          (carve_split
            (set_header (set_header h.header_size b.addr want) (b.addr +64 want) (b.size - want))
            (leb→le _ _ e) (ground (arith, t.fits, t.small)))
    | inr e ↦ rw e (carve_whole _ (ground (arith, t.fits)))
  ]

pub find_roomy :
    (size : ℕ) (bs : List Region)
    → size + header < 2 ^ 64
    → roomy (size + header) bs ≡ true
    → (find_free_block size bs).0 ≢ none
unfolding find_free_block
find_roomy size [] h r = ground arith
find_roomy size (b ∷ bs) h r = ground (arith, find_roomy size bs h)

-- A page that a request may get is not free already.
abbrev pub IsFresh : Heap → ℕ → Type 0
IsFresh h page =
    (0 < page) × (page + page_size < 2 ^ 64) × Apart (region page page_size) h.free_list

add_page_lem :
    (h : Heap) (page : ℕ)
    → IsFresh h page
    → (add_page h page).free_list ≡ insert_block (region page page_size) h.free_list
unfolding add_page kfree_unlocked
add_page_lem h page f =
    let back : page +64 header - header ≡ page = omega (arith, f) in
    let some_ptr : (page +64 header == 0) ≡ false = ground (arith, f) in
    let own : (page == page) ≡ true = ground arith in rw (some_ptr, back, own)

pub add_page-Inserted :
    (h : Heap) (page : ℕ)
    → Chain 0 h.free_list
    → IsFresh h page
    → Inserted 0 (region page page_size) h.free_list (add_page h page).free_list
add_page-Inserted h page c f = rw (add_page_lem h page f) (
    insert_block-Inserted (region page page_size) h.free_list c (omega arith) (omega (arith, f))
      f.2)
