-- ===== src/Strings/Write.antt =====
-- The functions that write strings.
use nyan_os.Base.{
  ℕ, zero, suc, ◌+◌, ◌-◌, ◌<◌, ◌≤◌, ◌≡◌, ◌⊎◌, inl, inr, refl, true, false, ◌&&◌, some, List, [],
  ◌∷◌, arith, length, get_or, ltb, leb, ◌==◌, if◌then◌else◌,
}
use nyan_os.Memory.{Mem}
use nyan_os.Strings.{write_at, strcpy, strncpy}
use nyan_os.Strings.Scan.{Text}

-- A write elsewhere leaves a string as it is.
write_at-Text :
    (m : Mem) (s : ℕ) (xs : List ℕ) (p v : ℕ)
    → (p < s) ⊎ (s + length xs < p)
    → Text m s xs
    → Text (write_at p v m) s xs
unfolding write_at
write_at-Text m s [] p v out t = ground (arith, t)
write_at-Text m s (c ∷ cs) p v out t = (
  ground (arith, t.0),
  t.1,
  write_at-Text m (s + 1) cs p v
      (elim out [ inl low ↦ inl (omega arith) | inr high ↦ inr (omega arith) ]) t.2,
)

-- What `n` bytes from `dest` on have become: the bytes of the string, and then 0.
abbrev pub Padded : Mem → Mem → ℕ → ℕ → List ℕ → Type 0
Padded m m' dest n xs =
    (a : ℕ) → m' a ≡ (if leb dest a && ltb a (dest + n) then get_or xs (a - dest) 0 else m a)

get_or-front : (c : ℕ) (cs : List ℕ) (dest a : ℕ) → a ≡ dest → get_or (c ∷ cs) (a - dest) 0 ≡ c
get_or-front c cs dest a e = let z : a - dest ≡ 0 = omega arith in rw z refl

get_or-behind :
    (c : ℕ) (cs : List ℕ) (dest a : ℕ)
    → dest < a
    → get_or (c ∷ cs) (a - dest) 0 ≡ get_or cs (a - (dest + 1)) 0
get_or-behind c cs dest a l = let e : a - dest ≡ suc (a - (dest + 1)) = omega arith in rw e refl

abbrev Clear : ℕ → ℕ → ℕ → ℕ → Type 0
Clear dest n src size = (dest + n ≤ src) ⊎ (src + size < dest)

Clear-elsewhere :
    (dest n src size : ℕ) → Clear dest (suc n) src size → (dest < src) ⊎ (src + size < dest)
Clear-elsewhere dest n src size (inl l) = inl (omega arith)
Clear-elsewhere dest n src size (inr l) = inr l

Clear-same : (dest n src size : ℕ) → Clear dest (suc n) src size → Clear (dest + 1) n src size
Clear-same dest n src size (inl l) = inl (omega arith)
Clear-same dest n src size (inr l) = inr (omega arith)

Clear-next :
    (dest n src size : ℕ) → Clear dest (suc n) src (suc size) → Clear (dest + 1) n (src + 1) size
Clear-next dest n src size (inl l) = inl (omega arith)
Clear-next dest n src size (inr l) = inr (omega arith)

-- `strncpy` of a string writes exactly `n` bytes: those of the string, cut to `n`, and zeros up to
-- `n`; no other byte changes. The range written must not meet the string.
pub strncpy-Padded :
    (dest src n : ℕ) (m : Mem) (xs : List ℕ)
    → (dest + n ≤ src) ⊎ (src + length xs < dest)
    → Text m src xs
    → Padded m (strncpy dest src n m) dest n xs
unfolding strncpy write_at
strncpy-Padded dest src zero m xs out t a = ground arith
strncpy-Padded dest src (suc n) m [] out t a =
    let kept = write_at-Text m src [] dest 0 (Clear-elsewhere dest n src 0 out) t in
    let rest =
      strncpy-Padded (dest + 1) src n (write_at dest 0 m) [] (Clear-same dest n src 0 out) kept a in
    let end : (m src == 0) ≡ true = ground (arith, t) in rw end (ground (arith, rest))
strncpy-Padded dest src (suc n) m (c ∷ cs) out t a =
    let kept =
      write_at-Text m src (c ∷ cs) dest (m src) (Clear-elsewhere dest n src (suc (length cs)) out)
        t in
    let rest =
      strncpy-Padded (dest + 1) (src + 1) n (write_at dest (m src) m) cs
        (Clear-next dest n src (length cs) out) kept.2 a in
    let more : (m src == 0) ≡ false = ground (arith, t.0, t.1) in
    rw more (ground (arith, rest, t.0, get_or-front c cs dest a, get_or-behind c cs dest a))

-- `strcpy` of a string returns, the string and its NUL then stand at `dest`, and no byte outside of
-- them changes. The range written must not meet the string, and the fuel is for one round more than the
-- string has bytes.
pub strcpy-Text :
    (fuel dest src : ℕ) (m : Mem) (xs : List ℕ)
    → (dest + length xs < src) ⊎ (src + length xs < dest)
    → length xs < fuel
    → Text m src xs
    → (m' : Mem) × (strcpy fuel dest src m ≡ some m')
      × Text m' dest xs
      × ((a : ℕ) → (a < dest) ⊎ (dest + length xs < a) → m' a ≡ m a)
unfolding strcpy write_at
strcpy-Text zero dest src m xs out h t = absurd (omega arith)
strcpy-Text (suc fuel) dest src m [] out h t =
    let end : (m src == 0) ≡ true = ground (arith, t) in
    (write_at dest (m src) m, rw end refl, ground (arith, t), λ a o. ground (arith, o))
strcpy-Text (suc fuel) dest src m (c ∷ cs) out h t =
    let out' : Clear dest (suc (suc (length cs))) src (suc (length cs)) = elim out [
      | inl l ↦ inl (omega arith)
      | inr l ↦ inr l
    ] in
    let kept =
      write_at-Text m src (c ∷ cs) dest (m src)
        (Clear-elsewhere dest (suc (length cs)) src (suc (length cs)) out') t in
    let rest =
      strcpy-Text fuel (dest + 1) (src + 1) (write_at dest (m src) m) cs
        (elim out [ inl l ↦ inl (omega arith) | inr l ↦ inr (omega arith) ]) (omega arith) kept.2 in
    let more : (m src == 0) ≡ false = ground (arith, t.0, t.1) in
    (
      rest.0,
      rw more rest.1,
      (ground (arith, rest.3 dest, t.0), t.1, rest.2),
      λ a o. ground (arith, rest.3 a, o),
    )
