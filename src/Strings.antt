-- ===== src/Strings.antt =====
-- The functions on strings of src/string.c, over the memory of `Memory`. A loop that looks for a NUL
-- takes fuel and is `none` where that runs out; `Strings.Scan` and `Strings.Write` show that one
-- round more than the string has bytes is enough.
pub mod Scan
pub mod Write
mod Tests
use nyan_os.Base.{
  ℕ, zero, suc, ◌+◌, Bool, true, false, not, ◌&&◌, Option, none, some, ◌==◌, if◌then◌else◌,
}
use nyan_os.Memory.{Mem}

-- `size` is what has been counted.
pub strlen_from : ℕ → ℕ → ℕ → Mem → Option ℕ
strlen_from zero size s m = none
strlen_from (suc fuel) size s m =
    let more = strlen_from fuel (size + 1) (s + 1) m in if m s == 0 then some size else more

pub strlen : ℕ → ℕ → Mem → Option ℕ
unfolding strlen_from
strlen fuel s m = strlen_from fuel 0 s m

-- The result is the difference of the two bytes, which stand as a pair.
pub strcmp : ℕ → ℕ → ℕ → Mem → Option (ℕ × ℕ)
strcmp zero s1 s2 m = none
strcmp (suc fuel) s1 s2 m =
    let more = strcmp fuel (s1 + 1) (s2 + 1) m in
    if not (m s1 == 0) && m s1 == m s2 then more else some (m s1, m s2)

-- With `n` left to compare; the equal bytes 0 and 0 stand for the result 0 of a comparison that ends.
pub strncmp : ℕ → ℕ → ℕ → Mem → ℕ × ℕ
strncmp s1 s2 zero m = (0, 0)
strncmp s1 s2 (suc n) m =
    let more = strncmp (s1 + 1) (s2 + 1) n m in
    if not (m s1 == 0) && m s1 == m s2 then more else (m s1, m s2)

pub write_at : ℕ → ℕ → Mem → Mem
write_at p v m a = if a == p then v else m a

pub strcpy : ℕ → ℕ → ℕ → Mem → Option Mem
unfolding write_at
strcpy zero dest src m = none
strcpy (suc fuel) dest src m =
    let more = strcpy fuel (dest + 1) (src + 1) (write_at dest (m src) m) in
    if m src == 0 then some (write_at dest (m src) m) else more

-- After the end of the source, `src` stays where it is.
pub strncpy : ℕ → ℕ → ℕ → Mem → Mem
unfolding write_at
strncpy dest src zero m = m
strncpy dest src (suc n) m =
    if not (m src == 0)
    then strncpy (dest + 1) (src + 1) n (write_at dest (m src) m)
    else strncpy (dest + 1) src n (write_at dest 0 m)

-- The walk to the end of `dest`, and then the copy.
pub strcat : ℕ → ℕ → ℕ → Mem → Option Mem
unfolding strcpy
strcat zero dest src m = none
strcat (suc fuel) dest src m =
    let more = strcat fuel (dest + 1) src m in
    if m dest == 0 then strcpy (suc fuel) dest src m else more

-- The outer `none` is fuel that ran out, the inner one NULL.
pub strchr : ℕ → ℕ → ℕ → Mem → Option (Option ℕ)
strchr zero haystack needle m = none
strchr (suc fuel) haystack needle m =
    let more = strchr fuel (haystack + 1) needle m in
    if not (m haystack == 0)
    then if m haystack == needle then some (some haystack) else more
    else if needle == 0
    then some (some haystack)
    else some none
