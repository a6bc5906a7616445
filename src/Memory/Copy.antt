-- ===== src/Memory/Copy.antt =====
-- The copying routines against a plain description: byte `dst + k` becomes what byte `src + k` was.
use nyan_os.Base.{
  ℕ, zero, suc, ◌+◌, ◌-◌, ◌*◌, ◌%◌, ◌<◌, ◌≤◌, ◌≡◌, ◌⊎◌, inl, inr, refl, ap, subst, ◌&&◌, ◌||◌,
  arith, ltb, leb, ◌==◌, if◌then◌else◌, if_ind, Bool-cases,
}
use nyan_os.Memory.{
  Mem, State, copy, copy_2, copy_4, copy_8, chunks, head, memcpy, memcpy_sse, move_up, move_down,
  memmove, tail_down, blocks_down, memmove_sse,
}
use nyan_os.Memory.Chunks.{chunks-keep, head-keep}

-- A copy upwards does not overwrite what it has still to read.
abbrev pub NoClash : ℕ → ℕ → ℕ → Type 0
NoClash dst src n = (dst ≤ src) ⊎ (src + n ≤ dst)

-- The bytes from index `lo` to `hi` have been copied.
abbrev pub Copied : ℕ → ℕ → Mem → ℕ → ℕ → Mem → Type 0
Copied dst src m0 lo hi m =
    (a : ℕ) → m a ≡ (if leb (dst + lo) a && ltb a (dst + hi) then m0 (src + (a - dst)) else m0 a)

-- Upwards: the bytes below index `i`.
module _ (dst src n : ℕ) (apart : NoClash dst src n) (m0 : Mem) where
  abbrev Up : ℕ → Mem → Type 0
  Up = Copied dst src m0 0

  copy-Up : (w i : ℕ) (m : Mem) → i + w ≤ n → Up i m → Up (i + w) (copy dst src w i m)
  unfolding copy
  copy-Up w i m h u a = ground (arith, u a, u (src + (a - dst)))

  copy_2-Up : (w i : ℕ) (m : Mem) → i + 2 * w ≤ n → Up i m → Up (i + 2 * w) (copy_2 dst src w i m)
  unfolding copy_2
  copy_2-Up w i m h u =
      let e : i + 2 * w ≡ i + w + w = omega arith in
      rw e (copy-Up w (i + w) _ (omega arith) (copy-Up w i m (omega arith) u))

  copy_4-Up : (w i : ℕ) (m : Mem) → i + 4 * w ≤ n → Up i m → Up (i + 4 * w) (copy_4 dst src w i m)
  unfolding copy_4
  copy_4-Up w i m h u =
      let e : i + 4 * w ≡ i + 2 * w + 2 * w = omega arith in
      rw e (copy_2-Up w (i + 2 * w) _ (omega arith) (copy_2-Up w i m (omega arith) u))

  copy_8-Up : (w i : ℕ) (m : Mem) → i + 8 * w ≤ n → Up i m → Up (i + 8 * w) (copy_8 dst src w i m)
  unfolding copy_8
  copy_8-Up w i m h u =
      let e : i + 8 * w ≡ i + 4 * w + 4 * w = omega arith in
      rw e (copy_4-Up w (i + 4 * w) _ (omega arith) (copy_4-Up w i m (omega arith) u))

  -- A state of a loop in which the bytes below its index are copied.
  record Upto (s : State) : Type 0 where
    copied : Up s.0 s.1
    within : s.0 ≤ n

  head-Upto : Upto (head (copy dst src 1) dst n n (0, m0))
  head-Upto =
      let p =
        head-keep Up (copy dst src 1) dst n (copy-Up 1) n 0 m0 (omega arith) (λ a. ground arith) in
      record { copied = p.0; within = p.1 }

  chunks-Upto :
      (body : ℕ → Mem → Mem) (w : ℕ) (s : State)
      → 0 < w
      → ((i : ℕ) (m : Mem) → i + w ≤ n → Up i m → Up (i + w) (body i m))
      → Upto s
      → Upto (chunks body w n n s)
  chunks-Upto body w (i, m) pos keep u =
      let p = chunks-keep Up body w n pos keep n i m u.within (omega arith) u.copied in
      record { copied = p.0; within = p.1 }

  -- The last loop goes on byte by byte to the end.
  last-Upto : (s : State) → Upto s → Up n (chunks (copy dst src 1) 1 n n s).1
  last-Upto (i, m) u =
      let p =
        chunks-keep Up (copy dst src 1) 1 n (omega arith) (copy-Up 1) n i m u.within (omega arith)
          u.copied in
      let end : (chunks (copy dst src 1) 1 n n (i, m)).0 ≡ n = omega arith in
      subst (λ k. Up k (chunks (copy dst src 1) 1 n n (i, m)).1) end p.0

  tail-Upto :
      (s : State)
      → Upto s
      → Up n
          (chunks (copy dst src 1) 1 n n (
            chunks
              (copy dst src 2)
              2
              n
              n
              (chunks (copy dst src 4) 4 n n (chunks (copy dst src 8) 8 n n s)))).1
  tail-Upto s u = last-Upto _ (
      chunks-Upto (copy dst src 2) 2 _ (omega arith) (copy-Up 2) (
        chunks-Upto (copy dst src 4) 4 _ (omega arith) (copy-Up 4)
          (chunks-Upto (copy dst src 8) 8 s (omega arith) (copy-Up 8) u)))

  -- `memcpy`, with its head, its unrolled loops and its tail, does what a copy byte by byte does:
  -- byte `dst + k` becomes what byte `src + k` was for every `k < n`, and no other byte changes. The
  -- destination must not start inside the source above its start.
  pub memcpy-Copied : Copied dst src m0 0 n (memcpy dst src n m0)
  unfolding memcpy
  memcpy-Copied = tail-Upto _ (
      chunks-Upto (copy_2 dst src 8) 16 _ (omega arith) (copy_2-Up 8) (
        chunks-Upto (copy_4 dst src 8) 32 _ (omega arith) (copy_4-Up 8)
          (chunks-Upto (copy_8 dst src 8) 64 _ (omega arith) (copy_8-Up 8) head-Upto)))

  -- `memcpy_sse`, with blocks of 64, 32 and 16 bytes through registers, does so too where the
  -- destination does not start inside the source above its start.
  pub memcpy_sse-Copied : Copied dst src m0 0 n (memcpy_sse dst src n m0)
  unfolding memcpy_sse
  memcpy_sse-Copied = tail-Upto _ (
      chunks-Upto (copy dst src 16) 16 _ (omega arith) (copy-Up 16) (
        chunks-Upto (copy dst src 32) 32 _ (omega arith) (copy-Up 32)
          (chunks-Upto (copy dst src 64) 64 _ (omega arith) (copy-Up 64) head-Upto)))

  move_up-Copied : (left i : ℕ) (m : Mem) → i + left ≡ n → Up i m → Up n (move_up dst src i left m)
  unfolding move_up
  move_up-Copied zero i m e u = let end : i ≡ n = omega arith in rw (← end) u
  move_up-Copied (suc left) i m e u =
      move_up-Copied left (i + 1) (copy dst src 1 i m) (omega arith) (copy-Up 1 i m (omega arith) u)

-- Downwards, where the source lies below: the bytes from index `i` on.
module _ (dst src n : ℕ) (below : src ≤ dst) (m0 : Mem) where
  copy-Down :
      (w i : ℕ) (m : Mem)
      → i + w ≤ n
      → Copied dst src m0 (i + w) n m
      → Copied dst src m0 i n (copy dst src w i m)
  unfolding copy
  copy-Down w i m h u a = ground (arith, u a, u (src + (a - dst)))

  move_down-Copied :
      (i : ℕ) (m : Mem)
      → i ≤ n
      → Copied dst src m0 i n m
      → Copied dst src m0 0 n (move_down dst src i m)
  unfolding move_down
  move_down-Copied zero m h u = u
  move_down-Copied (suc i) m h u =
      move_down-Copied i (copy dst src 1 i m) (omega arith)
        (copy-Down 1 i m (omega arith) (λ a. ground (arith, u a)))

  tail_down-Copied :
      (i : ℕ) (m : Mem)
      → i ≤ n
      → Copied dst src m0 i n m
      → Copied dst src m0 (tail_down dst src i m).0 n (tail_down dst src i m).1
        × ((tail_down dst src i m).0 ≤ n)
        × ((tail_down dst src i m).0 % 16 ≡ 0)
  unfolding tail_down
  tail_down-Copied zero m h u = (u, h, omega arith)
  tail_down-Copied (suc i) m h u = elim (Bool-cases (suc i % 16 == 0)) [
    | inl e ↦ rw e (u, h, ground arith)
    | inr e ↦ rw e (
        tail_down-Copied i (copy dst src 1 i m) (omega arith)
          (copy-Down 1 i m (omega arith) (λ a. ground (arith, u a))))
  ]

  blocks_down-Copied :
      (fuel i : ℕ) (m : Mem)
      → i ≤ n
      → i ≤ fuel
      → i % 16 ≡ 0
      → Copied dst src m0 i n m
      → Copied dst src m0 0 n (blocks_down dst src fuel (i, m))
  unfolding blocks_down
  blocks_down-Copied zero i m h f e u = let z : i ≡ 0 = omega arith in rw (← z) u
  blocks_down-Copied (suc fuel) i m h f e u = elim (Bool-cases (leb 16 i)) [
    | inl more ↦
        let full : i - 16 + 16 ≡ i = ground arith in
        rw more (
          blocks_down-Copied fuel (i - 16) (copy dst src 16 (i - 16) m) (omega arith) (ground arith)
            (ground arith) (copy-Down 16 (i - 16) m (omega (arith, full)) (rw full u)))
    | inr done ↦ let z : i ≡ 0 = ground arith in rw (done, ← z) u
  ]

-- Nothing to do: the ranges are the same, or empty.
self-Copied : (dst src n : ℕ) (m : Mem) → (dst ≡ src) ⊎ (n ≡ 0) → Copied dst src m 0 n m
self-Copied dst src n m e a =
    if_ind (λ x. m a ≡ x) (leb (dst + 0) a && ltb a (dst + n)) _ _
      (λ within. let q : a ≡ src + (a - dst) = ground arith in ap m q) (λ out. refl)

-- `memmove` does what a copy through a buffer would, however the two ranges overlap: byte `dst + k`
-- becomes what byte `src + k` was before for every `k < n`, and no other byte changes.
pub memmove-Copied : (dst src n : ℕ) (m : Mem) → Copied dst src m 0 n (memmove dst src n m)
unfolding memmove
memmove-Copied dst src n m =
    if_ind (Copied dst src m 0 n) (ltb dst src) _ _
      (λ up.
        move_up-Copied dst src n (inl (ground arith)) m n 0 m (omega arith) (λ a. ground arith))
      λ not_up.
        if_ind (Copied dst src m 0 n) (ltb src dst) _ _
          (λ down.
            move_down-Copied dst src n (ground arith) m n m (omega arith) (λ a. ground arith))
          (λ same. self-Copied dst src n m (inl (ground arith)))

-- `memmove_sse` does what a copy through a buffer would, however the two ranges overlap.
pub memmove_sse-Copied : (dst src n : ℕ) (m : Mem) → Copied dst src m 0 n (memmove_sse dst src n m)
unfolding memmove_sse
memmove_sse-Copied dst src n m =
    if_ind (Copied dst src m 0 n) (dst == src || n == 0) _ _
      (λ same. self-Copied dst src n m (ground arith))
      λ differ.
        if_ind (Copied dst src m 0 n) (ltb dst src) _ _
          (λ up. memcpy_sse-Copied dst src n (inl (ground arith)) m)
          (λ down.
            let below : src ≤ dst = ground arith in
            let t = tail_down-Copied dst src n below m n m (omega arith) (λ a. ground arith) in
            blocks_down-Copied dst src n below m n (tail_down dst src n m).0
              (tail_down dst src n m).1 t.1 t.1 t.2 t.0)
