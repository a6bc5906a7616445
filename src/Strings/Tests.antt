-- ===== src/Strings/Tests.antt =====
-- The string functions on a small memory.
use nyan_os.Base.{ℕ, ◌≡◌, refl, arith, none, some, List, [], ◌∷◌, ◌==◌, ◌||◌, if◌then◌else◌}
use nyan_os.Memory.{Mem}
use nyan_os.Mq.{same_name}
use nyan_os.Strings.{strcmp, strncmp, strchr}
use nyan_os.Strings.Scan.{Text, strcmp-same_name}

-- "ab" at 100 and "ac" at 200.
abbrev words : Mem
words a = if a == 100 || a == 200 then 97 else if a == 101 then 98 else if a == 201 then 99 else 0

abbrev ab : List ℕ
ab = 97 ∷ 98 ∷ []

abbrev ac : List ℕ
ac = 97 ∷ 99 ∷ []

ab-Text : Text words 100 ab
ab-Text = (refl, omega arith, (refl, omega arith, refl))

ac-Text : Text words 200 ac
ac-Text = (refl, omega arith, (refl, omega arith, refl))

strcmp-same_name_example :
    (d : ℕ × ℕ) × (strcmp 3 100 200 words ≡ some d) × ((d.0 == d.1) ≡ same_name ab ac)
strcmp-same_name_example = strcmp-same_name 3 100 200 words ab ac ab-Text ac-Text (omega arith)

-- Runs of the others.
strncmp-words : (strncmp 100 200 1 words ≡ (0, 0)) × (strncmp 100 200 2 words ≡ (98, 99))
unfolding strncmp
strncmp-words = (refl, refl)

strchr-words : (strchr 3 100 98 words ≡ some (some 101)) × (strchr 3 100 99 words ≡ some none)
unfolding strchr
strchr-words = (refl, refl)
