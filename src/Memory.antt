-- ===== src/Memory.antt =====
-- The block routines of src/string.c: copying, filling and comparing bytes by chunks. Memory is a
-- function from addresses to bytes. A chunk is loaded whole before it is stored, as one load and
-- store of that width (or the SSE registers) do, so that the routines also run on ranges that
-- overlap. A loop `while (i + w <= n)` takes `n` rounds as fuel, which is enough (`Memory.Chunks`).
pub mod Chunks
pub mod Copy
pub mod Fill
pub mod Compare
mod Tests
use nyan_os.Base.{
  ℕ, zero, suc, ◌+◌, ◌-◌, ◌*◌, ◌/◌, ◌%◌, ◌^◌, Bool, true, false, not, ◌&&◌, ◌||◌, ltb, leb, ◌==◌,
  if◌then◌else◌,
}

abbrev pub Mem : Type 0
Mem = ℕ → ℕ

-- The index of a loop, and the memory.
abbrev pub State : Type 0
State = ℕ × Mem

-- `w` bytes from `src + i` to `dst + i`.
pub copy : ℕ → ℕ → ℕ → ℕ → Mem → Mem
copy dst src w i m a = if leb (dst + i) a && ltb a (dst + i + w) then m (src + (a - dst)) else m a

-- `while (i + w <= n) { body; i += w; }`
pub chunks : (ℕ → Mem → Mem) → ℕ → ℕ → ℕ → State → State
chunks body w n zero s = s
chunks body w n (suc fuel) (i, m) =
    let more = chunks body w n fuel (i + w, body i m) in if leb (i + w) n then more else (i, m)

-- The head: byte by byte up to an address that is a multiple of 8.
pub head : (ℕ → Mem → Mem) → ℕ → ℕ → ℕ → State → State
head body base n zero s = s
head body base n (suc fuel) (i, m) =
    let more = head body base n fuel (i + 1, body i m) in
    if not ((base + i) % 8 == 0) && ltb i n then more else (i, m)

-- Eight copies of 8 bytes, one after the other, as in the unrolled loops; four and two.
pub copy_2 : ℕ → ℕ → ℕ → ℕ → Mem → Mem
unfolding copy
copy_2 dst src w i m = copy dst src w (i + w) (copy dst src w i m)

pub copy_4 : ℕ → ℕ → ℕ → ℕ → Mem → Mem
unfolding copy_2
copy_4 dst src w i m = copy_2 dst src w (i + 2 * w) (copy_2 dst src w i m)

pub copy_8 : ℕ → ℕ → ℕ → ℕ → Mem → Mem
unfolding copy_4
copy_8 dst src w i m = copy_4 dst src w (i + 4 * w) (copy_4 dst src w i m)

pub memcpy : ℕ → ℕ → ℕ → Mem → Mem
unfolding copy copy_2 copy_4 copy_8 chunks head
memcpy dst src n m0 =
    let s1 = head (copy dst src 1) dst n n (0, m0) in
    let s2 = chunks (copy_8 dst src 8) 64 n n s1 in
    let s3 = chunks (copy_4 dst src 8) 32 n n s2 in
    let s4 = chunks (copy_2 dst src 8) 16 n n s3 in
    let s5 = chunks (copy dst src 8) 8 n n s4 in
    let s6 = chunks (copy dst src 4) 4 n n s5 in
    let s7 = chunks (copy dst src 2) 2 n n s6 in (chunks (copy dst src 1) 1 n n s7).1

-- The blocks of 64, 32 and 16 bytes go through the SSE registers, all loads before the stores.
pub memcpy_sse : ℕ → ℕ → ℕ → Mem → Mem
unfolding copy chunks head
memcpy_sse dst src n m0 =
    let s1 = head (copy dst src 1) dst n n (0, m0) in
    let s2 = chunks (copy dst src 64) 64 n n s1 in
    let s3 = chunks (copy dst src 32) 32 n n s2 in
    let s4 = chunks (copy dst src 16) 16 n n s3 in
    let s5 = chunks (copy dst src 8) 8 n n s4 in
    let s6 = chunks (copy dst src 4) 4 n n s5 in
    let s7 = chunks (copy dst src 2) 2 n n s6 in (chunks (copy dst src 1) 1 n n s7).1

-- Byte by byte, upwards.
pub move_up : ℕ → ℕ → ℕ → ℕ → Mem → Mem
unfolding copy
move_up dst src i zero m = m
move_up dst src i (suc left) m = move_up dst src (i + 1) left (copy dst src 1 i m)

-- Byte by byte, downwards: the argument is the index `i` of the loop.
pub move_down : ℕ → ℕ → ℕ → Mem → Mem
unfolding copy
move_down dst src zero m = m
move_down dst src (suc i) m = move_down dst src i (copy dst src 1 i m)

pub memmove : ℕ → ℕ → ℕ → Mem → Mem
unfolding move_up move_down
memmove dst src n m =
    if ltb dst src then move_up dst src 0 n m else if ltb src dst then move_down dst src n m else m

-- `while (i % 16 != 0) { i--; ... }`: the bytes down to a multiple of 16. The index 0 is one.
pub tail_down : ℕ → ℕ → ℕ → Mem → State
unfolding copy
tail_down dst src zero m = (0, m)
tail_down dst src (suc i) m =
    let more = tail_down dst src i (copy dst src 1 i m) in
    if suc i % 16 == 0 then (suc i, m) else more

-- `while (i >= 16) { i -= 16; ... }`
pub blocks_down : ℕ → ℕ → ℕ → State → Mem
unfolding copy
blocks_down dst src zero s = s.1
blocks_down dst src (suc fuel) (i, m) =
    let more = blocks_down dst src fuel (i - 16, copy dst src 16 (i - 16) m) in
    if leb 16 i then more else m

pub memmove_sse : ℕ → ℕ → ℕ → Mem → Mem
unfolding memcpy_sse tail_down blocks_down
memmove_sse dst src n m =
    if dst == src || n == 0
    then m
    else if ltb dst src
    then memcpy_sse dst src n m
    else blocks_down dst src n (tail_down dst src n m)

-- A store of `w` bytes of a word, the lowest first, at `p + i`.
pub store : ℕ → ℕ → ℕ → ℕ → Mem → Mem
store p word w i m a =
    if leb (p + i) a && ltb a (p + i + w) then word / 256 ^ (a - (p + i)) % 256 else m a

-- The eight stores of the unrolled loop of `memset`.
pub store_8 : ℕ → ℕ → ℕ → ℕ → Mem → Mem
unfolding store
store_8 p word w i m = store p word w (i + 7 * w) (
    store p word w (i + 6 * w) (
      store p word w (i + 5 * w) (
        store p word w (i + 4 * w) (
          store p word w (i + 3 * w)
            (store p word w (i + 2 * w) (store p word w (i + w) (store p word w i m)))))))

-- `c` is an `int`, here as its `uint32_t` bit pattern; the low byte of it is repeated.
abbrev pub c64 : ℕ → ℕ
c64 c = c % 256 * 0x0101010101010101

abbrev pub c32 : ℕ → ℕ
c32 c = c % 256 * 0x01010101

abbrev pub c16 : ℕ → ℕ
c16 c = c % 256 * 0x0101

pub memset : ℕ → ℕ → ℕ → Mem → Mem
unfolding store store_8 chunks head
memset p c n m0 =
    let s1 = head (store p (c % 256) 1) p n n (0, m0) in
    let s2 = chunks (store_8 p (c64 c) 8) 64 n n s1 in
    let s3 = chunks (store p (c64 c) 8) 8 n n s2 in
    let s4 = chunks (store p (c32 c) 4) 4 n n s3 in
    let s5 = chunks (store p (c16 c) 2) 2 n n s4 in (chunks (store p (c % 256) 1) 1 n n s5).1

-- The register holds the word twice, and is stored to `w` bytes from `p + i` on.
pub store_xmm : ℕ → ℕ → ℕ → ℕ → Mem → Mem
store_xmm p word w i m a =
    if leb (p + i) a && ltb a (p + i + w) then word / 256 ^ ((a - (p + i)) % 8) % 256 else m a

-- The short stores take the low bytes of `c64`.
pub memset_sse : ℕ → ℕ → ℕ → Mem → Mem
unfolding store store_xmm chunks head
memset_sse p c n m0 =
    let s1 = head (store p (c % 256) 1) p n n (0, m0) in
    let s2 = chunks (store_xmm p (c64 c) 64) 64 n n s1 in
    let s3 = chunks (store_xmm p (c64 c) 32) 32 n n s2 in
    let s4 = chunks (store_xmm p (c64 c) 16) 16 n n s3 in
    let s5 = chunks (store p (c64 c) 8) 8 n n s4 in
    let s6 = chunks (store p (c64 c) 4) 4 n n s5 in
    let s7 = chunks (store p (c64 c) 2) 2 n n s6 in (chunks (store p (c64 c) 1) 1 n n s7).1

-- The result of a comparison: 0, -1 or 1.
pub data Sign : Type 0 where
  same less greater : Sign

pub diff : ℕ → ℕ → Sign
diff a b = if a == b then same else if ltb a b then less else greater

-- `left` bytes from index `i` on.
pub cmp_from : ℕ → ℕ → ℕ → ℕ → Mem → Sign
unfolding diff
cmp_from s1 s2 i zero m = same
cmp_from s1 s2 i (suc left) m =
    let more = cmp_from s1 s2 (i + 1) left m in
    if m (s1 + i) == m (s2 + i) then more else diff (m (s1 + i)) (m (s2 + i))

pub memcmp : ℕ → ℕ → ℕ → Mem → Sign
unfolding cmp_from
memcmp s1 s2 n m = cmp_from s1 s2 0 n m

-- The mask of a block of 16 bytes is 0xFFFF just when they are all the same.
pub same_block : ℕ → ℕ → ℕ → ℕ → Mem → Bool
same_block s1 s2 i zero m = true
same_block s1 s2 i (suc w) m = m (s1 + i) == m (s2 + i) && same_block s1 s2 (i + 1) w m

-- `while (i + 16 <= n)`, left at the first block that differs.
pub skip_blocks : ℕ → ℕ → ℕ → ℕ → ℕ → Mem → ℕ
unfolding same_block
skip_blocks s1 s2 n zero i m = i
skip_blocks s1 s2 n (suc fuel) i m =
    let more = skip_blocks s1 s2 n fuel (i + 16) m in
    if leb (i + 16) n && same_block s1 s2 i 16 m then more else i

pub memcmp_sse : ℕ → ℕ → ℕ → Mem → Sign
unfolding skip_blocks cmp_from
memcmp_sse s1 s2 n m = let i = skip_blocks s1 s2 n n 0 m in cmp_from s1 s2 i (n - i) m
