-- ===== src/Memory/Fill.antt =====
-- The filling routines of src/string.c: every byte of the range is the byte asked for.
use nyan_os.Base.{
  ℕ, ◌+◌, ◌-◌, ◌*◌, ◌/◌, ◌%◌, ◌^◌, ◌<◌, ◌≤◌, ◌≡◌, refl, subst, true, ◌&&◌, arith, ltb, leb, ◌==◌,
  if◌then◌else◌, table_upto, table_upto_law,
}
use nyan_os.Memory.{
  Mem, State, store, store_8, store_xmm, c64, c32, c16, chunks, head, memset, memset_sse,
}
use nyan_os.Memory.Chunks.{chunks-keep, head-keep}

-- The bytes below index `hi` are `v`.
abbrev pub Filled : ℕ → ℕ → Mem → ℕ → Mem → Type 0
Filled p v m0 hi m = (a : ℕ) → m a ≡ (if leb p a && ltb a (p + hi) then v else m0 a)

-- Each of the `w` lowest bytes of `word` is `v`.
abbrev Repeats : ℕ → ℕ → ℕ → Type 0
Repeats word w v = (j : ℕ) → j < w → word / 256 ^ j % 256 ≡ v

c64_table :
    table_upto 256 (λ v. table_upto 8 (λ j. v * 0x0101010101010101 / 256 ^ j % 256 == v)) ≡ true
unfolding table_upto
c64_table = refl

c32_table : table_upto 256 (λ v. table_upto 4 (λ j. v * 0x01010101 / 256 ^ j % 256 == v)) ≡ true
unfolding table_upto
c32_table = refl

c16_table : table_upto 256 (λ v. table_upto 2 (λ j. v * 0x0101 / 256 ^ j % 256 == v)) ≡ true
unfolding table_upto
c16_table = refl

c8_table : table_upto 256 (λ v. table_upto 1 (λ j. v / 256 ^ j % 256 == v)) ≡ true
unfolding table_upto
c8_table = refl

from_table :
    (w k v : ℕ)
    → table_upto 256 (λ v. table_upto w (λ j. v * k / 256 ^ j % 256 == v)) ≡ true
    → v < 256
    → Repeats (v * k) w v
from_table w k v h b j l = ground (arith, table_upto_law w _ j (table_upto_law 256 _ v h b) l)

c64-Repeats : (c : ℕ) → Repeats (c64 c) 8 (c % 256)
c64-Repeats c = from_table 8 0x0101010101010101 (c % 256) c64_table (omega arith)

c32-Repeats : (c : ℕ) → Repeats (c32 c) 4 (c % 256)
c32-Repeats c = from_table 4 0x01010101 (c % 256) c32_table (omega arith)

c16-Repeats : (c : ℕ) → Repeats (c16 c) 2 (c % 256)
c16-Repeats c = from_table 2 0x0101 (c % 256) c16_table (omega arith)

c8-Repeats : (c : ℕ) → Repeats (c % 256) 1 (c % 256)
c8-Repeats c j l =
    ground (arith, table_upto_law 1 _ j (table_upto_law 256 _ (c % 256) c8_table (omega arith)) l)

c64-low : (c w : ℕ) → w ≤ 8 → Repeats (c64 c) w (c % 256)
c64-low c w h j l = c64-Repeats c j (omega arith)

module _ (p v n : ℕ) (m0 : Mem) where
  store-Filled :
      (word w i to : ℕ) (m : Mem)
      → Repeats word w v
      → i + w ≡ to
      → Filled p v m0 i m
      → Filled p v m0 to (store p word w i m)
  unfolding store
  store-Filled word w i to m r e u a = ground (arith, u a, r (a - (p + i)))

  store_xmm-Filled :
      (word w i : ℕ) (m : Mem)
      → Repeats word 8 v
      → i + w ≤ n
      → Filled p v m0 i m
      → Filled p v m0 (i + w) (store_xmm p word w i m)
  unfolding store_xmm
  store_xmm-Filled word w i m r h u a = ground (arith, u a, r ((a - (p + i)) % 8) (omega arith))

  store_8-Filled :
      (word i : ℕ) (m : Mem)
      → Repeats word 8 v
      → i + 64 ≤ n
      → Filled p v m0 i m
      → Filled p v m0 (i + 64) (store_8 p word 8 i m)
  unfolding store_8
  store_8-Filled word i m r h u = store-Filled word 8 (i + 7 * 8) (i + 64) _ r (omega arith) (
      store-Filled word 8 (i + 6 * 8) (i + 7 * 8) _ r (omega arith) (
        store-Filled word 8 (i + 5 * 8) (i + 6 * 8) _ r (omega arith) (
          store-Filled word 8 (i + 4 * 8) (i + 5 * 8) _ r (omega arith) (
            store-Filled word 8 (i + 3 * 8) (i + 4 * 8) _ r (omega arith) (
              store-Filled word 8 (i + 2 * 8) (i + 3 * 8) _ r (omega arith) (
                store-Filled word 8 (i + 8) (i + 2 * 8) _ r (omega arith)
                  (store-Filled word 8 i (i + 8) m r refl u)))))))

  -- A state of a loop in which the bytes below its index are filled.
  record Upto (s : State) : Type 0 where
    filled : Filled p v m0 s.0 s.1
    within : s.0 ≤ n

  head-Upto : (word : ℕ) → Repeats word 1 v → Upto (head (store p word 1) p n n (0, m0))
  head-Upto word r =
      let q =
        head-keep (Filled p v m0) (store p word 1) p n
          (λ i m h. store-Filled word 1 i (i + 1) m r refl) n 0 m0 (omega arith)
          (λ a. ground arith) in
      record { filled = q.0; within = q.1 }

  chunks-Upto :
      (body : ℕ → Mem → Mem) (w : ℕ) (s : State)
      → 0 < w
      → ((i : ℕ) (m : Mem) → i + w ≤ n → Filled p v m0 i m → Filled p v m0 (i + w) (body i m))
      → Upto s
      → Upto (chunks body w n n s)
  chunks-Upto body w (i, m) pos keep u =
      let q = chunks-keep (Filled p v m0) body w n pos keep n i m u.within (omega arith) u.filled in
      record { filled = q.0; within = q.1 }

  stores-Upto :
      (word w : ℕ) (s : State)
      → 0 < w
      → Repeats word w v
      → Upto s
      → Upto (chunks (store p word w) w n n s)
  stores-Upto word w s pos r =
      chunks-Upto (store p word w) w s pos (λ i m h. store-Filled word w i (i + w) m r refl)

  xmm-Upto :
      (word w : ℕ) (s : State)
      → 0 < w
      → Repeats word 8 v
      → Upto s
      → Upto (chunks (store_xmm p word w) w n n s)
  xmm-Upto word w s pos r =
      chunks-Upto (store_xmm p word w) w s pos (λ i m. store_xmm-Filled word w i m r)

  -- The last loop goes on byte by byte to the end.
  last-Filled :
      (word : ℕ) (s : State)
      → Repeats word 1 v
      → Upto s
      → Filled p v m0 n (chunks (store p word 1) 1 n n s).1
  last-Filled word (i, m) r u =
      let q =
        chunks-keep (Filled p v m0) (store p word 1) 1 n (omega arith)
          (λ i m h. store-Filled word 1 i (i + 1) m r refl) n i m u.within (omega arith) u.filled in
      let end : (chunks (store p word 1) 1 n n (i, m)).0 ≡ n = omega (arith, q.1) in
      subst (λ k. Filled p v m0 k (chunks (store p word 1) 1 n n (i, m)).1) end q.0

-- `memset`, by bytes up to an aligned address and then by words of 8, 4 and 2 bytes, makes every byte
-- of the range the low byte of `c` and changes no other byte.
pub memset-Filled : (p c n : ℕ) (m : Mem) → Filled p (c % 256) m n (memset p c n m)
unfolding memset
memset-Filled p c n m = last-Filled p (c % 256) n m (c % 256) _ (c8-Repeats c) (
    stores-Upto p (c % 256) n m (c16 c) 2 _ (omega arith) (c16-Repeats c) (
      stores-Upto p (c % 256) n m (c32 c) 4 _ (omega arith) (c32-Repeats c) (
        stores-Upto p (c % 256) n m (c64 c) 8 _ (omega arith) (c64-Repeats c) (
          chunks-Upto p (c % 256) n m (store_8 p (c64 c) 8) 64 _ (omega arith)
            (λ i m1 b. store_8-Filled p (c % 256) n m (c64 c) i m1 (c64-Repeats c) b)
            (head-Upto p (c % 256) n m (c % 256) (c8-Repeats c))))))

-- `memset_sse`, with blocks of 64, 32 and 16 bytes from a register, makes every byte of the
-- range the low byte of `c` and changes no other byte.
pub memset_sse-Filled : (p c n : ℕ) (m : Mem) → Filled p (c % 256) m n (memset_sse p c n m)
unfolding memset_sse
memset_sse-Filled p c n m = last-Filled p (c % 256) n m (c64 c) _ (c64-low c 1 (omega arith)) (
    stores-Upto p (c % 256) n m (c64 c) 2 _ (omega arith) (c64-low c 2 (omega arith)) (
      stores-Upto p (c % 256) n m (c64 c) 4 _ (omega arith) (c64-low c 4 (omega arith)) (
        stores-Upto p (c % 256) n m (c64 c) 8 _ (omega arith) (c64-Repeats c) (
          xmm-Upto p (c % 256) n m (c64 c) 16 _ (omega arith) (c64-Repeats c) (
            xmm-Upto p (c % 256) n m (c64 c) 32 _ (omega arith) (c64-Repeats c) (
              xmm-Upto p (c % 256) n m (c64 c) 64 _ (omega arith) (c64-Repeats c)
                (head-Upto p (c % 256) n m (c % 256) (c8-Repeats c))))))))
