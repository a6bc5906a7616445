-- ===== src/PageTables/Entries.antt =====
-- What an entry is made of: the address of a frame, and flags below it.
use Prim.Native.Nat.{digits, max, bit_or-bitwise}
use nyan_os.Base.{
  ℕ, zero, suc, ◌+◌, ◌*◌, ◌/◌, ◌%◌, ◌<◌, ◌≤◌, ◌≡◌, refl, sym, ap, ap₂, ◌∙◌, Bool, true, arith,
  bit_or, ◌==◌,
}
use nyan_os.Pmm.{page_size}
use nyan_os.PageTables.{
  table_entry, page_entry, pte_get_addr, pte_set_addr, pte_get_flags, is_present, vmm_flag_writable,
}

-- The digits of a disjunction, with fuel for those of the first number.
abbrev or_digits : ℕ → ℕ → ℕ → ℕ
or_digits n a b = digits (λ c. c) max n a b

or_digits_fuel : (n m a b : ℕ) → a ≤ n → a ≤ m → or_digits n a b ≡ or_digits m a b
or_digits_fuel zero zero zero b p q = refl
or_digits_fuel zero (suc m) zero b p q = refl
or_digits_fuel (suc n) zero zero b p q = refl
or_digits_fuel (suc n) (suc m) zero b p q = refl
or_digits_fuel zero m (suc a) b p q = absurd (omega arith)
or_digits_fuel (suc n) zero (suc a) b p q = absurd (omega arith)
or_digits_fuel (suc n) (suc m) (suc a) b p q =
    omega (arith, or_digits_fuel n m (suc a / 2) (b / 2) (omega arith) (omega arith))

zero-bit_or : (b : ℕ) → bit_or 0 b ≡ b
zero-bit_or b = bit_or-bitwise 0 b

-- The lowest digit of a disjunction.
bit_or_step : (a b : ℕ) → bit_or a b ≡ bit_or (a / 2) (b / 2) * 2 + max (a % 2) (b % 2)
bit_or_step zero b = omega (arith, zero-bit_or b, zero-bit_or (b / 2))
bit_or_step (suc a) b = omega (
  arith,
  bit_or-bitwise (suc a) b,
  bit_or-bitwise (suc a / 2) (b / 2),
  or_digits_fuel a (suc a / 2) (suc a / 2) (b / 2) (omega arith) (omega arith),
)

bit_or-zero_fuel : (n a : ℕ) → a ≤ n → bit_or a 0 ≡ a
bit_or-zero_fuel n zero h = refl
bit_or-zero_fuel zero (suc a) h = absurd (omega arith)
bit_or-zero_fuel (suc n) (suc a) h =
    omega (arith, bit_or_step (suc a) 0, bit_or-zero_fuel n (suc a / 2) (omega arith))

bit_or-zero : (a : ℕ) → bit_or a 0 ≡ a
bit_or-zero a = bit_or-zero_fuel a a (omega arith)

half-bit_or : (a b : ℕ) → bit_or a b / 2 ≡ bit_or (a / 2) (b / 2)
half-bit_or a b = omega (arith, bit_or_step a b)

-- A disjunction shifted to the right, digit by digit.
abbrev Shifts : ℕ → Type 0
Shifts d = (a b : ℕ) → bit_or a b / d ≡ bit_or (a / d) (b / d)

Shifts-mul : (d e f : ℕ) → ((x : ℕ) → x / d / e ≡ x / f) → Shifts d → Shifts e → Shifts f
Shifts-mul d e f h p q a b =
    sym (h (bit_or a b)) ∙ ap (λ x. x / e) (p a b) ∙ q (a / d) (b / d) ∙ ap₂ bit_or (h a) (h b)

Shifts-16 : Shifts 16
Shifts-16 = Shifts-mul 4 4 16 (λ x. omega arith) four four
  where
    four : Shifts 4
    four = Shifts-mul 2 2 4 (λ x. omega arith) half-bit_or half-bit_or

page-bit_or : Shifts 4096
page-bit_or =
    Shifts-mul 16 256 4096 (λ x. omega arith) Shifts-16
      (Shifts-mul 16 16 256 (λ x. omega arith) Shifts-16 Shifts-16)

-- Flags below a page leave the number of the page.
pub page-flags : (a f : ℕ) → f < 4096 → bit_or a f / 4096 ≡ a / 4096
page-flags a f h =
    let low : f / 4096 ≡ 0 = omega (arith, h) in
    page-bit_or a f ∙ ap (bit_or (a / 4096)) low ∙ bit_or-zero (a / 4096)

pub pte_get_addr-table_entry : (p : ℕ) → pte_get_addr (table_entry p) ≡ p / 4096 * 4096
unfolding table_entry
pte_get_addr-table_entry p = omega (
  arith,
  page-flags (bit_or (bit_or (pte_set_addr 0 p) 1) 2) 4 (omega arith),
  page-flags (bit_or (pte_set_addr 0 p) 1) 2 (omega arith),
  page-flags (pte_set_addr 0 p) 1 (omega arith),
  bit_or-zero (p / 4096 * 4096),
)

pub is_present-table_entry : (p : ℕ) → is_present (table_entry p) ≡ true
unfolding table_entry
is_present-table_entry p = ground (
  arith,
  bit_or_step (bit_or (bit_or (pte_set_addr 0 p) 1) 2) 4,
  bit_or_step (bit_or (pte_set_addr 0 p) 1) 2,
  bit_or_step (pte_set_addr 0 p) 1,
)

pub pte_get_addr-page_entry : (p f : ℕ) → f < 4096 → pte_get_addr (page_entry p f) ≡ p / 4096 * 4096
unfolding page_entry
pte_get_addr-page_entry p f h = omega (
  arith,
  page-flags (bit_or (pte_set_addr 0 p) f) 1 (omega arith),
  page-flags (pte_set_addr 0 p) f h,
  bit_or-zero (p / 4096 * 4096),
)

pub is_present-page_entry : (p f : ℕ) → is_present (page_entry p f) ≡ true
unfolding page_entry
is_present-page_entry p f = ground (arith, bit_or_step (bit_or (pte_set_addr 0 p) f) 1)

-- The writable flag is bit 1.
abbrev pub is_writable : ℕ → Bool
is_writable e = e / 2 % 2 == 1

pub is_writable-bit_or : (e : ℕ) → is_writable (bit_or e 2) ≡ true
is_writable-bit_or e = ground (arith, bit_or_step e 2, bit_or_step (e / 2) 1)

pub is_present-bit_or : (e : ℕ) → is_present e ≡ true → is_present (bit_or e 2) ≡ true
is_present-bit_or e h = ground (arith, bit_or_step e 2, h)

-- The entry for a copy, in the frame at `a`, of the page of the entry `e`.
abbrev pub cow_entry : ℕ → ℕ → ℕ
cow_entry a e = bit_or a (bit_or (pte_get_flags e) vmm_flag_writable % page_size)

pub pte_get_addr-cow_entry : (f e : ℕ) → pte_get_addr (cow_entry (f * page_size) e) ≡ f * page_size
pte_get_addr-cow_entry f e =
    omega (arith, page-flags (f * page_size) (bit_or (pte_get_flags e) 2 % page_size) (omega arith))

pub is_present-cow_entry : (a e : ℕ) → is_present e ≡ true → is_present (cow_entry a e) ≡ true
is_present-cow_entry a e h = ground (
  arith,
  bit_or_step a (bit_or (pte_get_flags e) 2 % page_size),
  bit_or_step (pte_get_flags e) 2,
  h,
)

pub is_writable-cow_entry : (a e : ℕ) → is_writable (cow_entry a e) ≡ true
is_writable-cow_entry a e = ground (
  arith,
  bit_or_step a (bit_or (pte_get_flags e) 2 % page_size),
  bit_or_step (a / 2) (bit_or (pte_get_flags e) 2 % page_size / 2),
  is_writable-bit_or (pte_get_flags e),
)
