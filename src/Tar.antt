-- ===== src/Tar.antt =====
-- The archive of src/fs/tar.c, that the first files come from. The memory is a function from addresses to
-- bytes. The walk over the headers has no bound in the source, so it takes fuel, a round for each
-- header; names are compared by `strcmp` of Strings, which takes fuel too. The result is none where one of
-- them runs out.
mod Walk
mod Tests
use nyan_os.Base.{
  ℕ, zero, suc, ◌+◌, ◌-◌, ◌*◌, ◌/◌, ◌%◌, ◌^◌, Bool, true, false, not, ◌&&◌, ◌||◌, Option, none,
  some, ltb, ◌==◌, if◌then◌else◌,
}
use nyan_os.Strings.{strcmp}

-- The fields of a header.
abbrev pub size_field : ℕ
size_field = 124

abbrev pub magic_field : ℕ
magic_field = 257

pub octal_from : (ℕ → ℕ) → ℕ → ℕ → ℕ → ℕ
octal_from mem str zero n = n
octal_from mem str (suc size) n =
    let rest = octal_from mem (str + 1) size ((n * 8 + (mem str - 48)) % 2 ^ 64) in
    if ltb (mem str) 48 || ltb 55 (mem str) then n else rest

pub oct2bin : (ℕ → ℕ) → ℕ → ℕ → ℕ
unfolding octal_from
oct2bin mem str size = octal_from mem str size 0

-- The magic `ustar`.
pub tar_validate : (ℕ → ℕ) → ℕ → Bool
tar_validate mem header = not (
    (not (mem (header + magic_field) == 117) || not (mem (header + magic_field + 1) == 115))
    || ((not (mem (header + magic_field + 2) == 116) || not (mem (header + magic_field + 3) == 97))
        || not (mem (header + magic_field + 4) == 114)))

-- The address of the header behind one.
pub next_header : (ℕ → ℕ) → ℕ → ℕ
unfolding oct2bin
next_header mem hdr =
    (hdr + 512 + (oct2bin mem (hdr + size_field) 11 + 511) % 2 ^ 64 / 512 * 512) % 2 ^ 64

-- The header is that of the file, or the walk goes on.
abbrev pub at_header : Option (ℕ × ℕ) → ℕ → Option (Option ℕ) → Option (Option ℕ)
at_header none hdr rest = none
at_header (some (a, b)) hdr rest = if a == b then some (some (hdr + 512)) else rest

pub find_file : ℕ → ℕ → (ℕ → ℕ) → ℕ → ℕ → Option (Option ℕ)
unfolding tar_validate next_header
find_file cmp_fuel name mem zero hdr = none
find_file cmp_fuel name mem (suc fuel) hdr =
    let rest = find_file cmp_fuel name mem fuel (next_header mem hdr) in
    if not (tar_validate mem hdr)
    then some none
    else at_header (strcmp cmp_fuel hdr name mem) hdr rest

-- A slash before the name is skipped.
abbrev pub search_name : (ℕ → ℕ) → ℕ → ℕ
search_name mem fname = if mem fname == 47 then fname + 1 else fname

-- The content of a file; NULL where there is no archive.
pub tar_read_file : ℕ → (ℕ → ℕ) → ℕ → ℕ → ℕ → Option (Option ℕ)
unfolding find_file
tar_read_file cmp_fuel mem fuel g_tar_addr fname =
    if g_tar_addr == 0
    then some none
    else find_file cmp_fuel (search_name mem fname) mem fuel g_tar_addr
