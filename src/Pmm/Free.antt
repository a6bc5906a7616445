-- ===== src/Pmm/Free.antt =====
-- What `pmm_free_frame`, `pmm_inc_ref` and the queries do to the frames.
use nyan_os.Base.{
  ℕ, ◌+◌, ◌-◌, ◌/◌, ◌%◌, ◌^◌, ◌<◌, ◌≤◌, ◌≡◌, refl, ap, ◌∙◌, Bool, true, false, not, ◌&&◌, arith,
  ltb, leb, ◌==◌, if◌then◌else◌, get_or, set, length-set, get_or-set_self, get_or-set_ne,
  Bool-cases, inl, inr, if_ind,
}
use nyan_os.Pmm.{
  Pmm, page_size, first_mb, bitmap_clear, drop_ref, pmm_free_frame, pmm_inc_ref, pmm_dec_ref,
}
use nyan_os.Pmm.Bitmap.{
  IsValid, used, refs, bitmap_clear_lem, bitmap_clear-IsValid, used-bitmap_clear, used_ext,
}

-- One reference to the frame `i` is gone, and the frame with the last one; no other frame changes.
pub record Dropped (s s' : Pmm) (i : ℕ) : Type 0 where
  pub valid : IsValid s'
  pub pages : s'.total_pages ≡ s.total_pages
  pub used_lem :
      (j : ℕ) → j < s.total_pages → used s' j ≡ (if i == j then ltb 1 (refs s i) else used s j)
  pub refs_lem : (j : ℕ) → refs s' j ≡ (if i == j then refs s i - 1 else refs s j)

module _ (s : Pmm) (i : ℕ) (v : IsValid s) (h : i < s.total_pages) where
  abbrev counted : Pmm
  counted = record s { ref_counts = set s.ref_counts i (refs s i - 1) }

  counted-IsValid : IsValid counted
  counted-IsValid = record {
    bytes = v.bytes;
    covers = v.covers;
    counts = omega (arith, v.counts, length-set s.ref_counts i (refs s i - 1));
    hint = v.hint;
  }

  refs-counted : (j : ℕ) → refs counted j ≡ (if i == j then refs s i - 1 else refs s j)
  refs-counted j = elim (Bool-cases (i == j)) [
    | inl e ↦
        let q : j ≡ i = ground arith in
        rw (e, q) (get_or-set_self s.ref_counts i (refs s i - 1) 0 (omega arith))
    | inr n ↦ rw n (get_or-set_ne s.ref_counts i j (refs s i - 1) 0 (λ e. ground arith))
  ]

  used-counted : (j : ℕ) → j < s.total_pages → used counted j ≡ used s j
  used-counted j k = used_ext s counted j v counted-IsValid refl refl k

  -- More references are left.
  Dropped-counted : used s i ≡ true → (refs s i - 1 == 0) ≡ false → Dropped s counted i
  Dropped-counted u more = record {
    valid = counted-IsValid;
    pages = refl;
    used_lem = λ j k. used-counted j k ∙ elim (Bool-cases (i == j)) [
      | inl e ↦ let q : j ≡ i = ground arith in rw (e, q, u) (ground arith)
      | inr n ↦ rw n
    ];
    refs_lem = refs-counted;
  }

  -- The frame is cleared, and the search moves back to it.
  module _ (k : ℕ) (low : k ≤ s.total_pages) where
    abbrev cleared : Pmm
    cleared = record (bitmap_clear counted i) { last_free_page = k }

    same_counts : (bitmap_clear counted i).ref_counts ≡ counted.ref_counts
    same_counts = ap (λ t. t.ref_counts) (bitmap_clear_lem counted counted-IsValid i h)

    same_pages : (bitmap_clear counted i).total_pages ≡ s.total_pages
    same_pages = ap (λ t. t.total_pages) (bitmap_clear_lem counted counted-IsValid i h)

    clear-IsValid : IsValid (bitmap_clear counted i)
    clear-IsValid = bitmap_clear-IsValid counted counted-IsValid i h

    cleared-IsValid : IsValid cleared
    cleared-IsValid = record {
      bytes = clear-IsValid.bytes;
      covers = clear-IsValid.covers;
      counts = clear-IsValid.counts;
      hint = rw same_pages low;
    }

    Dropped-cleared : (refs s i - 1 == 0) ≡ true → Dropped s cleared i
    Dropped-cleared last = record {
      valid = cleared-IsValid;
      pages = same_pages;
      used_lem = λ j m.
          used_ext (bitmap_clear counted i) cleared j clear-IsValid cleared-IsValid refl refl
            (rw same_pages m)
          ∙ used-bitmap_clear counted i j counted-IsValid h m
          ∙ ap (λ b. not (i == j) && b) (used-counted j m)
          ∙ ground arith;
      refs_lem = λ j. ap (λ cs. get_or cs j 0) same_counts ∙ refs-counted j;
    }

  drop_ref-Dropped : used s i ≡ true → Dropped s (drop_ref s i) i
  unfolding drop_ref
  drop_ref-Dropped u =
      if_ind (λ t. Dropped s t i) (refs s i - 1 == 0) _ _
        (λ last. Dropped-cleared (if ltb i s.last_free_page then i else s.last_free_page) low last)
        (Dropped-counted u)
    where
      low : (if ltb i s.last_free_page then i else s.last_free_page) ≤ s.total_pages
      low = ground (arith, v.hint)

-- A free is refused below 1 MB, past the last frame, and at a frame that is not used.
abbrev pub accepts : Pmm → ℕ → Bool
accepts s a = leb first_mb a && (ltb (a / page_size) s.total_pages && used s (a / page_size))

pub data Freeing (s : Pmm) (a : ℕ) : Pmm → Type 0 where
  dropped : (s' : Pmm) → accepts s a ≡ true → Dropped s s' (a / page_size) → Freeing s a s'
  refused : accepts s a ≡ false → Freeing s a s

-- In a valid state `pmm_free_frame` drops one reference to the frame of an address, and frees the frame with the last
-- one, where it accepts the address; otherwise it changes nothing.
pub pmm_free_frame-Freeing : (s : Pmm) (a : ℕ) → IsValid s → Freeing s a (pmm_free_frame s a)
unfolding pmm_free_frame
pmm_free_frame-Freeing s a v =
    if_ind (Freeing s a) (ltb a first_mb) _ _ (λ low. refused (ground arith))
      λ high.
        if_ind (Freeing s a) (leb s.total_pages (a / page_size)) _ _ (λ out. refused (ground arith))
          λ inn.
            if_ind (Freeing s a) (used s (a / page_size)) _ _
              (λ u.
                dropped _ (ground arith) (drop_ref-Dropped s (a / page_size) v (ground arith) u))
              (λ f. refused (ground arith))

pub pmm_dec_ref-Freeing : (s : Pmm) (a : ℕ) → IsValid s → Freeing s a (pmm_dec_ref s a)
unfolding pmm_dec_ref
pmm_dec_ref-Freeing s a v = pmm_free_frame-Freeing s a v

pub Freeing-IsValid : (s s' : Pmm) (a : ℕ) → IsValid s → Freeing s a s' → IsValid s'
Freeing-IsValid s s' a v (dropped t ok d) = d.valid
Freeing-IsValid s s' a v (refused how) = v

-- One more reference to the frame of an address, and no other change.
pub record Shared (s s' : Pmm) (i : ℕ) : Type 0 where
  pub valid : IsValid s'
  pub pages : s'.total_pages ≡ s.total_pages
  pub used_lem : (j : ℕ) → j < s.total_pages → used s' j ≡ used s j
  pub refs_lem : (j : ℕ) → refs s' j ≡ (if i == j then (refs s i + 1) % 2 ^ 32 else refs s j)

pub pmm_inc_ref-Shared :
    (s : Pmm) (a : ℕ)
    → IsValid s
    → a / page_size < s.total_pages
    → Shared s (pmm_inc_ref s a) (a / page_size)
unfolding pmm_inc_ref
pmm_inc_ref-Shared s a v h = record {
  valid = valid;
  pages = refl;
  used_lem = λ j k. used_ext s _ j v valid refl refl k;
  refs_lem = λ j. elim (Bool-cases (a / page_size == j)) [
    | inl e ↦
        let q : j ≡ a / page_size = ground arith in
        rw (e, q) (get_or-set_self s.ref_counts (a / page_size) _ 0 (omega arith))
    | inr n ↦ rw n (get_or-set_ne s.ref_counts (a / page_size) j _ 0 (λ e. ground arith))
  ];
}
  where
    valid : IsValid (pmm_inc_ref s a)
    valid = record {
      bytes = v.bytes;
      covers = v.covers;
      counts = omega (
        arith,
        v.counts,
        length-set s.ref_counts (a / page_size) ((refs s (a / page_size) + 1) % 2 ^ 32),
      );
      hint = v.hint;
    }
