-- ===== src/Memory/Chunks.antt =====
-- A loop over chunks ends with less than a chunk left, and keeps what every chunk keeps.
use nyan_os.Base.{
  ℕ, zero, suc, ◌+◌, ◌%◌, ◌<◌, ◌≤◌, not, ◌&&◌, arith, ltb, leb, ◌==◌, Bool-cases, inl, inr,
}
use nyan_os.Memory.{Mem, chunks, head}

module _ (P : ℕ → Mem → Type 0) (body : ℕ → Mem → Mem) (w n : ℕ) (pos : 0 < w)
    (keep : (i : ℕ) (m : Mem) → i + w ≤ n → P i m → P (i + w) (body i m)) where
  -- With `n - i` rounds the loop runs to its end.
  pub chunks-keep :
      (fuel i : ℕ) (m : Mem)
      → i ≤ n
      → n ≤ i + fuel
      → P i m
      → P (chunks body w n fuel (i, m)).0 (chunks body w n fuel (i, m)).1
        × ((chunks body w n fuel (i, m)).0 ≤ n)
        × (n < (chunks body w n fuel (i, m)).0 + w)
  unfolding chunks
  chunks-keep zero i m h e p = (p, h, omega arith)
  chunks-keep (suc fuel) i m h e p = elim (Bool-cases (leb (i + w) n)) [
    | inl more ↦ rw more (
        chunks-keep fuel (i + w) (body i m) (ground arith) (omega arith)
          (keep i m (ground arith) p))
    | inr done ↦ rw done (p, h, ground arith)
  ]

module _ (P : ℕ → Mem → Type 0) (body : ℕ → Mem → Mem) (base n : ℕ)
    (keep : (i : ℕ) (m : Mem) → i + 1 ≤ n → P i m → P (i + 1) (body i m)) where
  pub head-keep :
      (fuel i : ℕ) (m : Mem)
      → i ≤ n
      → P i m
      → P (head body base n fuel (i, m)).0 (head body base n fuel (i, m)).1
        × ((head body base n fuel (i, m)).0 ≤ n)
  unfolding head
  head-keep zero i m h p = (p, h)
  head-keep (suc fuel) i m h p = elim (Bool-cases (not ((base + i) % 8 == 0) && ltb i n)) [
    | inl more ↦
        rw more (head-keep fuel (i + 1) (body i m) (ground arith) (keep i m (ground arith) p))
    | inr done ↦ rw done (p, h)
  ]
