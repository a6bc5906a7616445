-- ===== src/Tar/Tests.antt =====
-- An archive of two headers, the first of a file of 513 bytes.
use nyan_os.Base.{
  ℕ, ◌+◌, ◌-◌, ◌≡◌, refl, ◌&&◌, some, List, [], ◌∷◌, arith, leb, ltb, ◌==◌, if◌then◌else◌, get_or,
}
use nyan_os.Tar.{octal_from, oct2bin, tar_read_file}
use nyan_os.Tar.Walk.{
  Archive, Octal, no_digits, then_digit, ended, file, content_of, without_slash,
  tar_read_file-content_of,
}

-- `ustar`, and the digits 1001 behind seven zeros.
abbrev magic : List ℕ
magic = 117 ∷ 115 ∷ 116 ∷ 97 ∷ 114 ∷ []

abbrev digits : List ℕ
digits = 48 ∷ 48 ∷ 48 ∷ 48 ∷ 48 ∷ 48 ∷ 48 ∷ 49 ∷ 48 ∷ 48 ∷ 49 ∷ []

-- A header whose name is one byte.
abbrev header_byte : ℕ → ℕ → ℕ
header_byte name k =
    if k == 0
    then name
    else if leb 257 k
    then get_or magic (k - 257) 0
    else if leb 124 k
    then get_or digits (k - 124) 0
    else 0

-- The headers are at 4096 and at 4096 + 512 + 1024, and "/b" is at 100.
abbrev memory : ℕ → ℕ
memory a =
    if ltb a 4096
    then get_or (47 ∷ 98 ∷ []) (a - 100) 0
    else if ltb a 4608
    then header_byte 97 (a - 4096)
    else if leb 5632 a && ltb a 6144
    then header_byte 98 (a - 5632)
    else 0

abbrev files : List (ℕ × List ℕ)
files = (4096, 97 ∷ []) ∷ (5632, 98 ∷ []) ∷ []

memory_size : oct2bin memory (4096 + 124) 11 ≡ 513
unfolding oct2bin octal_from
memory_size = refl

first_size : Octal memory (4096 + 124) 11 513
first_size =
    then_digit 1
      (then_digit 0
        (then_digit 0
          (then_digit 1
            (then_digit 0
              (then_digit 0
                (then_digit 0
                  (then_digit 0
                    (then_digit 0
                      (then_digit 0 (then_digit 0 no_digits (omega arith) refl) (omega arith) refl)
                      (omega arith) refl)
                    (omega arith) refl)
                  (omega arith) refl)
                (omega arith) refl)
              (omega arith) refl)
            (omega arith) refl)
          (omega arith) refl)
        (omega arith) refl)
      (omega arith) refl

second_size : Octal memory (5632 + 124) 11 513
second_size =
    then_digit 1
      (then_digit 0
        (then_digit 0
          (then_digit 1
            (then_digit 0
              (then_digit 0
                (then_digit 0
                  (then_digit 0
                    (then_digit 0
                      (then_digit 0 (then_digit 0 no_digits (omega arith) refl) (omega arith) refl)
                      (omega arith) refl)
                    (omega arith) refl)
                  (omega arith) refl)
                (omega arith) refl)
              (omega arith) refl)
            (omega arith) refl)
          (omega arith) refl)
        (omega arith) refl)
      (omega arith) refl

memory-Archive : Archive memory 4096 files
memory-Archive =
    file (97 ∷ []) 513 2
      (record { is_u = refl; is_s = refl; is_t = refl; is_a = refl; is_r = refl })
      (refl, omega arith, refl) (omega arith) first_size (omega arith) (omega arith, omega arith)
      (omega arith)
      (file (98 ∷ []) 513 2
        (record { is_u = refl; is_s = refl; is_t = refl; is_a = refl; is_r = refl })
        (refl, omega arith, refl) (omega arith) second_size (omega arith) (omega arith, omega arith)
        (omega arith) (ended (λ m. absurd (omega (arith, m.is_u)))))

tar_read_file-content_of_example :
    tar_read_file 101 memory 3 4096 100 ≡ some (content_of (without_slash (47 ∷ 98 ∷ [])) files)
tar_read_file-content_of_example =
    tar_read_file-content_of 101 memory 3 4096 100 (47 ∷ 98 ∷ []) files
      (refl, omega arith, (refl, omega arith, refl)) (omega arith) memory-Archive (omega arith) refl
