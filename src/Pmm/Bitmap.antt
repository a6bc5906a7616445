-- ===== src/Pmm/Bitmap.antt =====
-- The invariant of the frame allocator, and its bitmap as a set of page indices.
use nyan_os.Base.{
  ℕ, ◌*◌, ◌/◌, ◌%◌, ◌<◌, ◌≤◌, ◌≡◌, ◌≢◌, sym, ap, ◌∙◌, if◌then◌else◌, Bool, true, false, not, ◌&&◌,
  ◌||◌, arith, ltb, lt→ltb, ◌==◌, length, get_or, set, length-set, get_or-set_self, get_or-set_ne,
  test_bit, set_bit, clear_bit, test_bit-set_bit, test_bit-clear_bit, bit-lt-256, Bool-cases, inl,
  inr, List,
}
use nyan_os.Pmm.{Pmm, bitmap_set, bitmap_clear, bitmap_test}

abbrev pub IsBytes : List ℕ → Type 0
IsBytes bs = (k : ℕ) → get_or bs k 0 < 256

-- Every page has a bit and a count: `total_pages` is a multiple of 8 (otherwise the bits of the last
-- pages lie behind the bitmap, in `ref_counts`).
pub record IsValid (s : Pmm) : Type 0 where
  pub bytes : IsBytes s.bitmap
  pub covers : s.total_pages ≤ 8 * length s.bitmap
  pub counts : s.total_pages ≤ length s.ref_counts
  pub hint : s.last_free_page ≤ s.total_pages

-- A page in use, and its references.
abbrev pub used : Pmm → ℕ → Bool
used = bitmap_test

abbrev pub refs : Pmm → ℕ → ℕ
refs s i = get_or s.ref_counts i 0

IsBytes-set : (bs : List ℕ) (k v : ℕ) → IsBytes bs → v < 256 → k < length bs → IsBytes (set bs k v)
IsBytes-set bs k v h hv hk j =
    ground (arith, h j, get_or-set_self bs k v 0, get_or-set_ne bs k j v 0)

abbrev pub bit_of : List ℕ → ℕ → Bool
bit_of bs j = test_bit (get_or bs (j / 8) 0) (j % 8)

abbrev with_bit : List ℕ → ℕ → List ℕ
with_bit bs i = set bs (i / 8) (set_bit (get_or bs (i / 8) 0) (i % 8))

abbrev without_bit : List ℕ → ℕ → List ℕ
without_bit bs i = set bs (i / 8) (clear_bit (get_or bs (i / 8) 0) (i % 8))

same_byte : (i j : ℕ) → i / 8 ≡ j / 8 → (i % 8 == j % 8) ≡ (i == j)
same_byte i j e = ground arith

-- The bits after the byte of bit `i` is replaced by `v`.
bit_of-set :
    (bs : List ℕ) (i j v : ℕ)
    → i / 8 < length bs
    → bit_of (set bs (i / 8) v) j ≡ (if i / 8 == j / 8 then test_bit v (j % 8) else bit_of bs j)
bit_of-set bs i j v hi = elim (Bool-cases (i / 8 == j / 8)) [
  | inl e ↦ let q : j / 8 ≡ i / 8 = ground arith in rw (e, q, get_or-set_self bs (i / 8) v 0 hi)
  | inr n ↦
      let q : i / 8 ≢ j / 8 = λ e. ground arith in rw (n, get_or-set_ne bs (i / 8) (j / 8) v 0 q)
]

bit_of-with_bit :
    (bs : List ℕ) (i j : ℕ)
    → IsBytes bs
    → i / 8 < length bs
    → bit_of (with_bit bs i) j ≡ ((i == j) || bit_of bs j)
bit_of-with_bit bs i j h hi = bit_of-set bs i j _ hi ∙ elim (Bool-cases (i / 8 == j / 8)) [
  | inl e ↦
      let q : j / 8 ≡ i / 8 = ground arith in
      rw (e, test_bit-set_bit _ (i % 8) (j % 8) (h (i / 8)) (omega arith) (omega arith), q)
        (ap (λ b. b || test_bit (get_or bs (i / 8) 0) (j % 8)) (same_byte i j (sym q)))
  | inr n ↦ let ne : (i == j) ≡ false = ground arith in rw (n, ne)
]

bit_of-without_bit :
    (bs : List ℕ) (i j : ℕ)
    → IsBytes bs
    → i / 8 < length bs
    → bit_of (without_bit bs i) j ≡ (not (i == j) && bit_of bs j)
bit_of-without_bit bs i j h hi = bit_of-set bs i j _ hi ∙ elim (Bool-cases (i / 8 == j / 8)) [
  | inl e ↦
      let q : j / 8 ≡ i / 8 = ground arith in
      rw (e, test_bit-clear_bit _ (i % 8) (j % 8) (h (i / 8)) (omega arith) (omega arith), q)
        (ap (λ b. not b && test_bit (get_or bs (i / 8) 0) (j % 8)) (same_byte i j (sym q)))
  | inr n ↦ let ne : (i == j) ≡ false = ground arith in rw (n, ne)
]

-- In range the bitmap is its own bytes.
module _ (s : Pmm) (v : IsValid s) where
  in_range : (i : ℕ) → i < s.total_pages → ltb (i / 8) (length s.bitmap) ≡ true
  in_range i h = lt→ltb _ _ (omega arith)

  pub used_lem : (j : ℕ) → j < s.total_pages → used s j ≡ bit_of s.bitmap j
  unfolding bitmap_test
  used_lem j h = rw (in_range j h)

  pub bitmap_set_lem :
      (i : ℕ) → i < s.total_pages → bitmap_set s i ≡ record s { bitmap = with_bit s.bitmap i }
  unfolding bitmap_set
  bitmap_set_lem i h = rw (in_range i h)

  pub bitmap_clear_lem :
      (i : ℕ) → i < s.total_pages → bitmap_clear s i ≡ record s { bitmap = without_bit s.bitmap i }
  unfolding bitmap_clear
  bitmap_clear_lem i h = rw (in_range i h)

  pub bitmap_set-IsValid : (i : ℕ) → i < s.total_pages → IsValid (bitmap_set s i)
  bitmap_set-IsValid i h = rw (bitmap_set_lem i h) (record {
    bytes =
        IsBytes-set s.bitmap _ _ v.bytes (bit-lt-256 _ _ (v.bytes _) (omega arith)).0 (omega arith);
    covers =
        omega (arith, length-set s.bitmap (i / 8) (set_bit (get_or s.bitmap (i / 8) 0) (i % 8)));
    counts = v.counts;
    hint = v.hint;
  })

  pub bitmap_clear-IsValid : (i : ℕ) → i < s.total_pages → IsValid (bitmap_clear s i)
  bitmap_clear-IsValid i h = rw (bitmap_clear_lem i h) (record {
    bytes =
        IsBytes-set s.bitmap _ _ v.bytes (bit-lt-256 _ _ (v.bytes _) (omega arith)).1 (omega arith);
    covers =
        omega (arith, length-set s.bitmap (i / 8) (clear_bit (get_or s.bitmap (i / 8) 0) (i % 8)));
    counts = v.counts;
    hint = v.hint;
  })

-- Only the bitmap and the number of pages matter for what is used.
pub used_ext :
    (s t : Pmm) (j : ℕ)
    → IsValid s
    → IsValid t
    → t.bitmap ≡ s.bitmap
    → t.total_pages ≡ s.total_pages
    → j < s.total_pages
    → used t j ≡ used s j
used_ext s t j v w e n h =
    used_lem t w j (omega arith) ∙ ap (λ bs. bit_of bs j) e ∙ sym (used_lem s v j h)

-- A write of the bitmap changes the bit of its page and no other.
pub used-bitmap_set :
    (s : Pmm) (i j : ℕ)
    → IsValid s
    → i < s.total_pages
    → j < s.total_pages
    → used (bitmap_set s i) j ≡ ((i == j) || used s j)
used-bitmap_set s i j v hi hj =
    rw (used_lem s v j hj, ← bit_of-with_bit s.bitmap i j v.bytes (omega arith))
      (used_lem (bitmap_set s i) (bitmap_set-IsValid s v i hi) j (rw (bitmap_set_lem s v i hi) hj)
        ∙ ap (λ t. bit_of t.bitmap j) (bitmap_set_lem s v i hi))

pub used-bitmap_clear :
    (s : Pmm) (i j : ℕ)
    → IsValid s
    → i < s.total_pages
    → j < s.total_pages
    → used (bitmap_clear s i) j ≡ (not (i == j) && used s j)
used-bitmap_clear s i j v hi hj =
    rw (used_lem s v j hj, ← bit_of-without_bit s.bitmap i j v.bytes (omega arith))
      (used_lem (bitmap_clear s i) (bitmap_clear-IsValid s v i hi) j
          (rw (bitmap_clear_lem s v i hi) hj)
        ∙ ap (λ t. bit_of t.bitmap j) (bitmap_clear_lem s v i hi))
