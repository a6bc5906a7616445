-- ===== src/Base/Bits.antt =====
-- Facts about the bit operations on bytes, checked at every value by evaluation.
use Prim.Native.Nat.{ℕ, zero, suc, ◌-◌, ◌^◌, ◌<◌, bit_and, bit_or}
use mathlib.Core.Path.{◌≡◌, refl, sym}
use mathlib.Core.Bool.{Bool, true, false, not, ◌&&◌, ◌||◌}
use native.Mathlib.Omega.{arith}
use nyan_os.Base.Tests.{◌==◌, ltb}

-- A Boolean law of the numbers under a bound, decided by running it on each.
unfoldable pub table_upto : ℕ → (ℕ → Bool) → Bool
table_upto zero law = true
table_upto (suc last) law = table_upto last law && law last

pub table_upto_law :
    (bound : ℕ) (law : ℕ → Bool) (k : ℕ) → table_upto bound law ≡ true → k < bound → law k ≡ true
unfolding table_upto
table_upto_law zero law k all low = absurd (omega (arith, low))
table_upto_law (suc last) law k all low = let earlier = table_upto_law last law k in ground arith

-- Bit `k` of a byte, and the byte with it set or cleared (`b & ~(1 << k)` for a byte `b`).
unfoldable pub test_bit : ℕ → ℕ → Bool
test_bit b k = not (bit_and b (2 ^ k) == 0)

unfoldable pub set_bit : ℕ → ℕ → ℕ
set_bit b k = bit_or b (2 ^ k)

unfoldable pub clear_bit : ℕ → ℕ → ℕ
clear_bit b k = bit_and b (255 - 2 ^ k)

abbrev same : Bool → Bool → Bool
same true b = b
same false b = not b

same-eq : (a b : Bool) → same a b ≡ true → a ≡ b
same-eq true b h = sym h
same-eq false true h = h
same-eq false false h = refl

-- A law of a byte and two bit positions, by its table.
abbrev table : (ℕ → ℕ → ℕ → Bool) → Bool
table p = table_upto 256 (λ b. table_upto 8 (λ k. table_upto 8 (p b k)))

table_sound :
    (p : ℕ → ℕ → ℕ → Bool) (b k j : ℕ) → table p ≡ true → b < 256 → k < 8 → j < 8 → p b k j ≡ true
table_sound p b k j h hb hk hj =
    table_upto_law 8 (p b k) j (table_upto_law 8 _ k (table_upto_law 256 _ b h hb) hk) hj

set_bit-table : table (λ b k j. same (test_bit (set_bit b k) j) ((k == j) || test_bit b j)) ≡ true
unfolding table_upto test_bit set_bit
set_bit-table = refl

clear_bit-table :
    table (λ b k j. same (test_bit (clear_bit b k) j) (not (k == j) && test_bit b j)) ≡ true
unfolding table_upto test_bit clear_bit
clear_bit-table = refl

byte_table : table (λ b k j. ltb (set_bit b k) 256 && ltb (clear_bit b k) 256) ≡ true
unfolding table_upto set_bit clear_bit
byte_table = refl

pub test_bit-set_bit :
    (b k j : ℕ) → b < 256 → k < 8 → j < 8 → test_bit (set_bit b k) j ≡ ((k == j) || test_bit b j)
test_bit-set_bit b k j hb hk hj = same-eq _ _ (table_sound _ b k j set_bit-table hb hk hj)

pub test_bit-clear_bit :
    (b k j : ℕ)
    → b < 256
    → k < 8
    → j < 8
    → test_bit (clear_bit b k) j ≡ (not (k == j) && test_bit b j)
test_bit-clear_bit b k j hb hk hj = same-eq _ _ (table_sound _ b k j clear_bit-table hb hk hj)

pub bit-lt-256 : (b k : ℕ) → b < 256 → k < 8 → (set_bit b k < 256) × (clear_bit b k < 256)
bit-lt-256 b k hb hk =
    let both = table_sound _ b k 0 byte_table hb hk (omega arith) in (ground arith, ground arith)

pub full_byte : (j : ℕ) → j < 8 → test_bit 255 j ≡ true
unfolding test_bit
full_byte j h = table_upto_law 8 (test_bit 255) j (unfold table_upto in refl) h
