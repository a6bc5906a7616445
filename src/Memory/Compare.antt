-- ===== src/Memory/Compare.antt =====
-- The two comparisons agree, and find the first difference.
use nyan_os.Base.{
  ℕ, zero, suc, ◌+◌, ◌-◌, ◌<◌, ◌≤◌, ◌≡◌, refl, true, ◌&&◌, arith, ltb, leb, ◌==◌, Bool-cases, inl,
  inr, if_ind,
}
use nyan_os.Memory.{
  Mem, Sign, same, less, greater, cmp_from, memcmp, same_block, skip_blocks, memcmp_sse,
}

-- How the first `n` bytes compare.
pub data Compared (s1 s2 n : ℕ) (m : Mem) : Sign → Type 0 where
  all_same : ((k : ℕ) → k < n → m (s1 + k) ≡ m (s2 + k)) → Compared s1 s2 n m same
  first_less :
      (j : ℕ)
      → j < n
      → ((k : ℕ) → k < j → m (s1 + k) ≡ m (s2 + k))
      → m (s1 + j) < m (s2 + j)
      → Compared s1 s2 n m less
  first_greater :
      (j : ℕ)
      → j < n
      → ((k : ℕ) → k < j → m (s1 + k) ≡ m (s2 + k))
      → m (s2 + j) < m (s1 + j)
      → Compared s1 s2 n m greater

module _ (s1 s2 n : ℕ) (m : Mem) where
  cmp_from-Compared :
      (left i : ℕ)
      → i + left ≡ n
      → ((k : ℕ) → k < i → m (s1 + k) ≡ m (s2 + k))
      → Compared s1 s2 n m (cmp_from s1 s2 i left m)
  unfolding cmp_from
  cmp_from-Compared zero i e h = all_same (λ k l. h k (omega arith))
  cmp_from-Compared (suc left) i e h =
      if_ind (Compared s1 s2 n m) (m (s1 + i) == m (s2 + i)) _ _
        (λ eq. cmp_from-Compared left (i + 1) (omega arith) λ k l. elim (Bool-cases (k == i)) [
          | inl here ↦ let q : k ≡ i = ground arith in rw q (ground arith)
          | inr before ↦ h k (ground arith)
        ])
        (λ ne.
          if_ind (Compared s1 s2 n m) (m (s1 + i) == m (s2 + i)) _ _ (λ eq. absurd (ground arith))
            λ _.
              if_ind (Compared s1 s2 n m) (ltb (m (s1 + i)) (m (s2 + i))) _ _
                (λ lt. first_less i (omega arith) h (ground arith))
                (λ ge. first_greater i (omega arith) h (ground arith)))

  same_block-bytes :
      (w i : ℕ)
      → same_block s1 s2 i w m ≡ true
      → (k : ℕ) → i ≤ k
      → k < i + w
      → m (s1 + k) ≡ m (s2 + k)
  unfolding same_block
  same_block-bytes zero i h k l u = absurd (omega arith)
  same_block-bytes (suc w) i h k l u = elim (Bool-cases (k == i)) [
    | inl here ↦ let q : k ≡ i = ground arith in rw q (ground arith)
    | inr after ↦ same_block-bytes w (i + 1) (ground arith) k (ground arith) (omega arith)
  ]

  skip_blocks-bytes :
      (fuel i : ℕ)
      → i ≤ n
      → ((k : ℕ) → k < i → m (s1 + k) ≡ m (s2 + k))
      → (skip_blocks s1 s2 n fuel i m ≤ n)
        × ((k : ℕ) → k < skip_blocks s1 s2 n fuel i m → m (s1 + k) ≡ m (s2 + k))
  unfolding skip_blocks
  skip_blocks-bytes zero i b h = (b, h)
  skip_blocks-bytes (suc fuel) i b h =
      elim (Bool-cases (leb (i + 16) n && same_block s1 s2 i 16 m)) [
        | inl more ↦
            let block : same_block s1 s2 i 16 m ≡ true = ground arith in
            rw more (
              skip_blocks-bytes fuel (i + 16) (ground arith) λ k l. elim (Bool-cases (ltb k i)) [
                | inl low ↦ h k (ground arith)
                | inr high ↦ same_block-bytes 16 i block k (ground arith) l
              ])
        | inr done ↦ rw done (b, h)
      ]

-- `memcmp` gives the order of the first bytes that differ, as unsigned numbers, and 0 just when the
-- `n` bytes are the same.
pub memcmp-Compared : (s1 s2 n : ℕ) (m : Mem) → Compared s1 s2 n m (memcmp s1 s2 n m)
unfolding memcmp
memcmp-Compared s1 s2 n m =
    cmp_from-Compared s1 s2 n m n 0 (omega arith) (λ k l. absurd (omega arith))

-- Bytes that are the same may be skipped.
cmp_from-skip :
    (s1 s2 : ℕ) (m : Mem) (skipped i left all to : ℕ)
    → skipped + left ≡ all
    → i + skipped ≡ to
    → ((k : ℕ) → i ≤ k → k < to → m (s1 + k) ≡ m (s2 + k))
    → cmp_from s1 s2 to left m ≡ cmp_from s1 s2 i all m
unfolding cmp_from
cmp_from-skip s1 s2 m zero i left all to e f h =
    let same_count : left ≡ all = omega arith in
    let same_index : to ≡ i = omega arith in rw (same_count, same_index) refl
cmp_from-skip s1 s2 m (suc skipped) i left zero to e f h = absurd (omega arith)
cmp_from-skip s1 s2 m (suc skipped) i left (suc all) to e f h =
    let here : (m (s1 + i) == m (s2 + i)) ≡ true = ground (arith, h i) in
    rw here (
      cmp_from-skip s1 s2 m skipped (i + 1) left all to (omega arith) (omega arith)
        (λ k l u. h k (omega arith) u))

-- `memcmp_sse`, which skips blocks of 16 equal bytes, gives the answer of the byte by byte `memcmp`.
pub memcmp_sse-memcmp : (s1 s2 n : ℕ) (m : Mem) → memcmp_sse s1 s2 n m ≡ memcmp s1 s2 n m
unfolding memcmp_sse memcmp
memcmp_sse-memcmp s1 s2 n m =
    let p = skip_blocks-bytes s1 s2 n m n 0 (omega arith) (λ k l. absurd (omega arith)) in
    cmp_from-skip s1 s2 m (skip_blocks s1 s2 n n 0 m) 0 (n - skip_blocks s1 s2 n n 0 m) n _
      (omega (arith, p.0)) (omega arith) (λ k l u. p.1 k u)
