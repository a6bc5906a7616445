-- ===== src/Regions.antt =====
-- Lists of regions of memory, as the free lists of src/mem/kmalloc.c and src/mem/vmm.c are: what
-- such a list covers, and what it is to be in order.
use nyan_os.Base.{
  ℕ, ◌+◌, ◌%◌, ◌^◌, ◌<◌, ◌≤◌, ◌≡◌, ◌⊎◌, refl, ap₂, Bool, true, false, ◌&&◌, ◌||◌, List, [], ◌∷◌,
  arith, ltb, leb, Bool-cases, inl, inr,
}

pub record Region : Type 0 where
  pub addr : ℕ
  pub size : ℕ

abbrev pub region : ℕ → ℕ → Region
region a n = record { addr = a; size = n }

-- Addition of `uint64_t`.
infixl 65 ◌+64◌
abbrev pub ◌+64◌ : ℕ → ℕ → ℕ
a +64 b = (a + b) % 2 ^ 64

abbrev pub inside : Region → ℕ → Bool
inside r a = leb r.addr a && ltb a (r.addr + r.size)

-- Whether an address lies in some region of the list.
abbrev pub covered : List Region → ℕ → Bool
covered [] a = false
covered (r ∷ rs) a = inside r a || covered rs a

-- The regions are in order from `lo` on, none is empty or reaches the end of the address space, and
-- between two of them there is a gap (so no two of them could be joined).
abbrev pub Chain : ℕ → List Region → Type 0
Chain lo [] = Unit {0}
Chain lo (r ∷ rs) =
    (lo ≤ r.addr) × (0 < r.size) × (r.addr + r.size < 2 ^ 64) × Chain (r.addr + r.size + 1) rs

-- A region that shares no address with those of a list.
abbrev pub Apart : Region → List Region → Type 0
Apart b [] = Unit {0}
Apart b (r ∷ rs) = ((b.addr + b.size ≤ r.addr) ⊎ (r.addr + r.size ≤ b.addr)) × Apart b rs

pub Chain-mono : (lo lo' : ℕ) (rs : List Region) → lo' ≤ lo → Chain lo rs → Chain lo' rs
Chain-mono lo lo' [] h c = tt
Chain-mono lo lo' (r ∷ rs) h c = (omega arith, c.1, c.2, c.3)

-- Nothing below its start is covered by a chain.
pub Chain-low : (lo : ℕ) (rs : List Region) (a : ℕ) → Chain lo rs → a < lo → covered rs a ≡ false
Chain-low lo [] a c h = refl
Chain-low lo (r ∷ rs) a c h = ground (arith, Chain-low (r.addr + r.size + 1) rs a c.3)

-- The two orders agree with the covered addresses: regions that are apart share none.
pub Apart-disjoint :
    (b : Region) (rs : List Region) (a : ℕ) → Apart b rs → inside b a ≡ true → covered rs a ≡ false
Apart-disjoint b [] a h i = refl
Apart-disjoint b (r ∷ rs) a h i = ground (arith, Apart-disjoint b rs a h.1)

-- A region below a chain is apart from it.
pub Apart-below :
    (b : Region) (lo : ℕ) (rs : List Region) → b.addr + b.size ≤ lo → Chain lo rs → Apart b rs
Apart-below b lo [] h c = tt
Apart-below b lo (r ∷ rs) h c =
    (ground arith, Apart-below b (r.addr + r.size + 1) rs (omega arith) c.3)

-- Regions that share no address are apart.
pub disjoint-Apart :
    (b : Region) (lo : ℕ) (rs : List Region)
    → 0 < b.size
    → Chain lo rs
    → ((a : ℕ) → inside b a ≡ true → covered rs a ≡ false)
    → Apart b rs
disjoint-Apart b lo [] pos c h = tt
disjoint-Apart b lo (r ∷ rs) pos c h = (
  ground (arith, h b.addr, h r.addr),
  disjoint-Apart b (r.addr + r.size + 1) rs pos c.3 (λ a i. ground (arith, h a i)),
)

-- Two chains that cover the same addresses begin with the same region, and their tails cover the
-- same addresses.
module _ (x y : Region) (xs ys : List Region) {lo : ℕ} (c : Chain lo (x ∷ xs))
    (d : Chain lo (y ∷ ys)) (h : (a : ℕ) → covered (x ∷ xs) a ≡ covered (y ∷ ys) a) where
  starts : x.addr ≡ y.addr
  starts = ground (
    arith,
    h x.addr,
    h y.addr,
    Chain-low (x.addr + x.size + 1) xs y.addr c.3,
    Chain-low (y.addr + y.size + 1) ys x.addr d.3,
  )

  sizes : x.size ≡ y.size
  sizes = ground (
    arith,
    starts,
    h (x.addr + x.size),
    h (y.addr + y.size),
    Chain-low (x.addr + x.size + 1) xs (x.addr + x.size) c.3,
    Chain-low (y.addr + y.size + 1) ys (y.addr + y.size) d.3,
  )

  tails : (a : ℕ) → covered xs a ≡ covered ys a
  tails a = ground (
    arith,
    starts,
    sizes,
    h a,
    Chain-low (x.addr + x.size + 1) xs a c.3,
    Chain-low (y.addr + y.size + 1) ys a d.3,
  )

-- A chain is determined by the addresses that it covers.
pub Chain-ext :
    (lo : ℕ) (xs ys : List Region)
    → Chain lo xs
    → Chain lo ys
    → ((a : ℕ) → covered xs a ≡ covered ys a)
    → xs ≡ ys
Chain-ext lo [] [] c d h = refl
Chain-ext lo [] (y ∷ ys) c d h = absurd (ground (arith, h y.addr))
Chain-ext lo (x ∷ xs) [] c d h = absurd (ground (arith, h x.addr))
Chain-ext lo (x ∷ xs) (y ∷ ys) c d h =
    let p = starts x y xs ys c d h in
    let q = sizes x y xs ys c d h in
    ap₂ ◌∷◌ (λ i. record { addr = p i; size = q i })
      (Chain-ext (x.addr + x.size + 1) xs ys c.3
        (Chain-mono (y.addr + y.size + 1) _ ys (omega arith) d.3) (tails x y xs ys c d h))

-- Whether some region has at least `n` addresses.
abbrev pub roomy : ℕ → List Region → Bool
roomy n [] = false
roomy n (r ∷ rs) = leb n r.size || roomy n rs

-- A run of covered addresses lies in one region of a chain.
pub Chain-roomy :
    (lo p n : ℕ) (rs : List Region)
    → 0 < n
    → Chain lo rs
    → ((a : ℕ) → p ≤ a → a < p + n → covered rs a ≡ true)
    → roomy n rs ≡ true
Chain-roomy lo p n [] pos c h = absurd (ground (arith, h p))
Chain-roomy lo p n (r ∷ rs) pos c h = elim (Bool-cases (inside r p)) [
  | inl i ↦
      ground (arith, h (r.addr + r.size), Chain-low (r.addr + r.size + 1) rs (r.addr + r.size) c.3)
  | inr o ↦
      let above : r.addr + r.size ≤ p =
        ground (arith, h p, Chain-low (r.addr + r.size + 1) rs p c.3) in
      let tail : (a : ℕ) → p ≤ a → a < p + n → covered rs a ≡ true = λ a x y. ground (arith, h a) in
      ground (arith, Chain-roomy (r.addr + r.size + 1) p n rs pos c.3 tail)
]

-- The list is a chain from `lo` on that covers what `rest` does, and the block `b`.
pub record Inserted (lo : ℕ) (b : Region) (rest out : List Region) : Type 0 where
  pub chain : Chain lo out
  pub same : (a : ℕ) → covered out a ≡ (inside b a || covered rest a)
