-- ===== src/Tar/Walk.antt =====
-- The walk over an archive, and what it finds.
use nyan_os.Base.{
  ℕ, zero, suc, ◌+◌, ◌-◌, ◌*◌, ◌%◌, ◌^◌, ◌<◌, ◌≤◌, ◌≡◌, refl, ap, ap₂, ◌∙◌, Bool, true, false, ◌||◌,
  Option, none, some, List, [], ◌∷◌, arith, ltb, ◌==◌, if◌then◌else◌, length, Bool-cases, inl, inr,
}
use nyan_os.Mq.{same_name}
use nyan_os.Strings.{strcmp}
use nyan_os.Strings.Scan.{Text, strcmp-same_name}
use nyan_os.Tar.{
  octal_from, oct2bin, tar_validate, next_header, at_header, find_file, search_name, tar_read_file,
}

-- `ustar` at the place of the magic.
pub record Magic (mem : ℕ → ℕ) (hdr : ℕ) : Type 0 where
  pub is_u : mem (hdr + 257) ≡ 117
  pub is_s : mem (hdr + 258) ≡ 115
  pub is_t : mem (hdr + 259) ≡ 116
  pub is_a : mem (hdr + 260) ≡ 97
  pub is_r : mem (hdr + 261) ≡ 114

-- The `k` octal digits at an address, and their value.
pub data Octal (mem : ℕ → ℕ) (p : ℕ) : ℕ → ℕ → Type 0 where
  no_digits : Octal mem p 0 0
  then_digit :
      {k v : ℕ} (d : ℕ)
      → Octal mem p k v
      → d < 8
      → mem (p + k) ≡ 48 + d
      → Octal mem p (suc k) (v * 8 + d)

-- The addresses of the headers and the names of the files, from an address on: the size of a file is
-- that of eleven octal digits, and the next header stands behind as many blocks of 512 bytes as the
-- content needs. The first place without the magic ends the archive.
pub data Archive (mem : ℕ → ℕ) : ℕ → List (ℕ × List ℕ) → Type 0 where
  ended : {hdr : ℕ} → ¬ Magic mem hdr → Archive mem hdr []
  file :
      {hdr : ℕ} {files : List (ℕ × List ℕ)} (name : List ℕ) (size blocks : ℕ)
      → Magic mem hdr
      → Text mem hdr name
      → length name ≤ 100
      → Octal mem (hdr + 124) 11 size
      → size < 2 ^ 33
      → (size ≤ blocks * 512) × (blocks * 512 < size + 512)
      → hdr + 512 + blocks * 512 < 2 ^ 64
      → Archive mem (hdr + 512 + blocks * 512) files
      → Archive mem hdr ((hdr, name) ∷ files)

-- What stands behind the header of the first file with a name.
abbrev pub content_of : List ℕ → List (ℕ × List ℕ) → Option ℕ
content_of name [] = none
content_of name (f ∷ files) =
    let rest = content_of name files in if same_name f.1 name then some (f.0 + 512) else rest

abbrev pub without_slash : List ℕ → List ℕ
without_slash [] = []
without_slash (c ∷ cs) = if c == 47 then cs else c ∷ cs

Magic-tar_validate : (mem : ℕ → ℕ) (hdr : ℕ) → Magic mem hdr → tar_validate mem hdr ≡ true
unfolding tar_validate
Magic-tar_validate mem hdr m =
    let s : mem (hdr + 257 + 1) ≡ 115 = ap mem {y = hdr + 258} (omega arith) ∙ m.is_s in
    let t : mem (hdr + 257 + 2) ≡ 116 = ap mem {y = hdr + 259} (omega arith) ∙ m.is_t in
    let a : mem (hdr + 257 + 3) ≡ 97 = ap mem {y = hdr + 260} (omega arith) ∙ m.is_a in
    let r : mem (hdr + 257 + 4) ≡ 114 = ap mem {y = hdr + 261} (omega arith) ∙ m.is_r in
    rw (m.is_u, s, t, a, r) refl

tar_validate-Magic : (mem : ℕ → ℕ) (hdr : ℕ) → tar_validate mem hdr ≡ true → Magic mem hdr
unfolding tar_validate
tar_validate-Magic mem hdr e = record {
  is_u = ground arith;
  is_s = ap mem {y = hdr + 257 + 1} (omega arith) ∙ ground arith;
  is_t = ap mem {y = hdr + 257 + 2} (omega arith) ∙ ground arith;
  is_a = ap mem {y = hdr + 257 + 3} (omega arith) ∙ ground arith;
  is_r = ap mem {y = hdr + 257 + 4} (omega arith) ∙ ground arith;
}

-- What has been read of the digits, with `j` left.
octal_from-Octal :
    (mem : ℕ → ℕ) (p k v j : ℕ)
    → Octal mem p k v
    → v < 2 ^ 64
    → octal_from mem p (k + j) 0 ≡ octal_from mem (p + k) j v
octal_from-Octal mem p _ _ j no_digits h =
    ap₂ (λ q n. octal_from mem q n 0) (omega arith) (omega arith)
octal_from-Octal mem p _ _ j (then_digit {k = k} {v = v} d o low at) h =
    ap (λ n. octal_from mem p n 0) (omega arith)
    ∙ octal_from-Octal mem p k v (suc j) o (omega (arith, h))
    ∙ step
  where
    digit : (ltb (mem (p + k)) 48 || ltb 55 (mem (p + k))) ≡ false
    digit = ground (arith, at, low)

    value : (v * 8 + (mem (p + k) - 48)) % 2 ^ 64 ≡ v * 8 + d
    value = omega (arith, at, low, h)

    step : octal_from mem (p + k) (suc j) v ≡ octal_from mem (p + suc k) j (v * 8 + d)
    step = unfold octal_from in rw digit (ap₂ (λ q n. octal_from mem q j n) (omega arith) value)

oct2bin-Octal : (mem : ℕ → ℕ) (p v : ℕ) → Octal mem p 11 v → v < 2 ^ 64 → oct2bin mem p 11 ≡ v
unfolding oct2bin
oct2bin-Octal mem p v o h =
    ap (λ n. octal_from mem p n 0) {x = 11} {y = 11 + 0} refl
    ∙ octal_from-Octal mem p 11 v 0 o h
    ∙ unfold octal_from in refl

next_header-blocks :
    (mem : ℕ → ℕ) (hdr size blocks : ℕ)
    → Octal mem (hdr + 124) 11 size
    → size < 2 ^ 33
    → (size ≤ blocks * 512) × (blocks * 512 < size + 512)
    → hdr + 512 + blocks * 512 < 2 ^ 64
    → next_header mem hdr ≡ hdr + 512 + blocks * 512
unfolding next_header
next_header-blocks mem hdr size blocks o small (low, high) fits =
    rw (oct2bin-Octal mem (hdr + 124) size o (omega (arith, small)))
      (omega (arith, small, low, high, fits))

at_header_lem :
    (r : Option (ℕ × ℕ)) (d : ℕ × ℕ) (hdr : ℕ) (rest : Option (Option ℕ))
    → r ≡ some d
    → at_header r hdr rest ≡ (if d.0 == d.1 then some (some (hdr + 512)) else rest)
at_header_lem r d hdr rest e = ap (λ x. at_header x hdr rest) e

find_file-content_of :
    (cmp_fuel name : ℕ) (xs : List ℕ) (mem : ℕ → ℕ) (fuel hdr : ℕ) (files : List (ℕ × List ℕ))
    → Text mem name xs
    → 100 < cmp_fuel
    → Archive mem hdr files
    → length files < fuel
    → find_file cmp_fuel name mem fuel hdr ≡ some (content_of xs files)
unfolding find_file
find_file-content_of cmp_fuel name xs mem zero hdr files t c a h = absurd (omega arith)
find_file-content_of cmp_fuel name xs mem (suc fuel) hdr [] t c (ended no_more) h =
    let invalid : tar_validate mem hdr ≡ false = elim (Bool-cases (tar_validate mem hdr)) [
      | inl valid ↦ absurd (no_more (tar_validate-Magic mem hdr valid))
      | inr other ↦ other
    ] in
    rw invalid refl
find_file-content_of cmp_fuel name xs mem (suc fuel) hdr (f ∷ files) t c
      (file own size blocks m u short o small round fits rest) h =
    let same = strcmp-same_name cmp_fuel hdr name mem own xs u t (omega (arith, short, c)) in
    let later =
      ap (find_file cmp_fuel name mem fuel)
        (next_header-blocks mem hdr size blocks o small round fits)
      ∙ find_file-content_of cmp_fuel name xs mem fuel (hdr + 512 + blocks * 512) files t c rest
          (omega arith) in
    rw (Magic-tar_validate mem hdr m) (
      at_header_lem (strcmp cmp_fuel hdr name mem) same.0 hdr _ same.1
      ∙ ap₂ (λ b r. if b then some (some (hdr + 512)) else r) same.2 later
      ∙ both (same_name own xs))
  where
    both :
        (b : Bool)
        → (if b then some (some (hdr + 512)) else some (content_of xs files))
          ≡ some (if b then some (hdr + 512) else content_of xs files)
    both true = refl
    both false = refl

search_name-Text :
    (mem : ℕ → ℕ) (fname : ℕ) (xs : List ℕ)
    → Text mem fname xs
    → Text mem (search_name mem fname) (without_slash xs)
search_name-Text mem fname [] t =
    let no_slash : (mem fname == 47) ≡ false = ground (arith, t) in rw no_slash t
search_name-Text mem fname (c ∷ cs) t = elim (Bool-cases (c == 47)) [
  | inl front ↦ let there : (mem fname == 47) ≡ true = ground (arith, t.0) in rw (there, front) t.2
  | inr other ↦
      let not_there : (mem fname == 47) ≡ false = ground (arith, t.0) in rw (not_there, other) t
]

-- In an archive of files, each with the magic, a name of at most 100 bytes, its size as eleven octal
-- digits, and the next header behind the blocks of its content, which ends at a place without the magic,
-- and with fuel for one round more than there are files, and for names of 100 bytes: `tar_read_file`
-- returns, and gives the content of the first file whose name is the one asked for, without the slash
-- that this may have in front, or NULL where there is none.
pub tar_read_file-content_of :
    (cmp_fuel : ℕ) (mem : ℕ → ℕ) (fuel g_tar_addr fname : ℕ) (name : List ℕ)
    (files : List (ℕ × List ℕ))
    → Text mem fname name
    → 100 < cmp_fuel
    → Archive mem g_tar_addr files
    → length files < fuel
    → (g_tar_addr == 0) ≡ false
    → tar_read_file cmp_fuel mem fuel g_tar_addr fname
      ≡ some (content_of (without_slash name) files)
unfolding tar_read_file
tar_read_file-content_of cmp_fuel mem fuel g_tar_addr fname name files t c a h there = rw there (
    find_file-content_of cmp_fuel (search_name mem fname) (without_slash name) mem fuel g_tar_addr
      files (search_name-Text mem fname name t) c a h)
