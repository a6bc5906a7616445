-- ===== src/Paths/Resolve.antt =====
-- What `resolve_path` gives.
use nyan_os.Base.{
  ℕ, ◌<◌, ◌≤◌, ◌≡◌, refl, sym, ap, ◌∙◌, Bool, true, false, some, List, [], ◌∷◌, append-nil, arith,
  length, get_or, leb, not, ◌||◌, ◌==◌, if◌then◌else◌, inl, inr, Option-cases,
}
use nyan_os.Paths.{
  slash, Outcome, path, unchanged, out_of_bounds, full_path, skip_slash, walk, bottom_up, rebuilt,
  resolve_path, end_name,
}
use nyan_os.Paths.Names.{
  AllNames, joined, shown, Canonical, rebuild-shown, bottom_up-bottom_up, bottom_up-AllNames,
  length-bottom_up, length-joined-bottom_up, length-shown,
}
use nyan_os.Paths.Reading.{Good, walk-Stacked, walk-Plain, walk-joined}

-- A path that starts with a slash.
abbrev pub Absolute : List ℕ → Type 0
Absolute p = get_or p 0 0 ≡ slash

full_path-Absolute : (cwd inp_path : List ℕ) → Absolute cwd → Absolute (full_path cwd inp_path)
unfolding full_path
full_path-Absolute [] inp_path a = absurd (ground arith)
full_path-Absolute (c ∷ cs) inp_path a = ground arith

path_injective : {p q : List ℕ} → path p ≡ path q → p ≡ q
path_injective {p} {q} e =
    ap (λ (o : Outcome). elim o as (λ _. List ℕ) [ path x ↦ x | unchanged ↦ p | out_of_bounds ↦ p ])
      e

-- A resolved path, and its length.
pub record Resolved (p : List ℕ) : Type 0 where
  pub canonical : Canonical p
  pub fits : length p < 256

rebuilt-Resolved :
    (cs p : List ℕ)
    → length cs < 255
    → rebuilt (walk cs (some (record { name = []; stack = [] }))) ≡ path p
    → Resolved p
unfolding rebuilt
rebuilt-Resolved cs p h e =
    elim (Option-cases (walk cs (some (record { name = []; stack = [] })))) [
      | inl over ↦ absurd (ground arith)
      | inr (stack, ok) ↦
          let g : Good 0 (record { name = []; stack = [] }) = record {
            plain = tt;
            all = tt;
            few = omega arith;
            bytes = omega arith;
          } in
          let s = walk-Stacked cs 0 _ stack g ok in
          let is : shown (bottom_up stack []) ≡ p =
            sym (rebuild-shown (bottom_up stack [])) ∙ path_injective (ap rebuilt (sym ok) ∙ e) in
          record {
            canonical = record {
              names = bottom_up stack [];
              all = bottom_up-AllNames stack [] s.all tt;
              few = omega (arith, s.few, length-bottom_up stack []);
              is = sym is;
            };
            fits =
                let n =
                  length-shown (bottom_up stack []) 255
                    (omega (arith, s.bytes, length-joined-bottom_up stack [])) (omega arith) in
                omega (arith, n, ap length is);
          }
    ]

-- A path is what comes out where nothing goes wrong before.
path_past :
    (over stack_room : Bool) (o : Outcome) (p : List ℕ)
    → (if over then out_of_bounds else if not stack_room then unchanged else o) ≡ path p
    → (over ≡ false) × (o ≡ path p)
path_past true stack_room o p e = absurd (ground arith)
path_past false true o p e = (refl, e)
path_past false false o p e = absurd (ground arith)

within : (tmp_room : Bool) (n : ℕ) → (not tmp_room || leb 256 n) ≡ false → n < 256
within true n e = ground arith
within false n e = absurd (ground arith)

length-skip_slash : (t : List ℕ) → Absolute t → length t < 256 → length (skip_slash t) < 255
length-skip_slash [] a h = omega arith
length-skip_slash (c ∷ cs) a h = ground arith

-- A path that `resolve_path` gives for an absolute working directory is a slash alone, or at most 32
-- names with a slash before each; no name is empty, `.` or `..`, holds a slash or has more than 31
-- bytes. With its NUL it fits into 256 bytes.
pub resolve_path-Resolved :
    (tmp_room stack_room : Bool) (cwd inp_path p : List ℕ)
    → Absolute cwd
    → resolve_path tmp_room stack_room cwd inp_path ≡ path p
    → Resolved p
unfolding resolve_path
resolve_path-Resolved tmp_room stack_room cwd inp_path p a e =
    let tmp = full_path cwd inp_path in
    let past = path_past (not tmp_room || leb 256 (length tmp)) stack_room _ p e in
    let fits : length tmp < 256 = within tmp_room (length tmp) past.0 in
    rebuilt-Resolved (skip_slash tmp) p
      (length-skip_slash tmp (full_path-Absolute cwd inp_path a) fits) past.1

walk-shown :
    (names : List (List ℕ))
    → AllNames names
    → length names ≤ 32
    → walk (skip_slash (shown names)) (some (record { name = []; stack = [] }))
      ≡ some (bottom_up names [])
unfolding walk end_name
walk-shown [] a h = refl
walk-shown (n ∷ ns) a h =
    walk-Plain n (joined ns) [] [] a.0.plain (omega (arith, a.0.fits))
    ∙ walk-joined ns n [] a.0 a.1 (omega arith)

-- A path that `resolve_path` gives for an absolute working directory is resolved to itself, from every
-- working directory, where `kmalloc` has room.
pub resolve_path-resolve_path :
    (tmp_room stack_room : Bool) (cwd inp_path p later : List ℕ)
    → Absolute cwd
    → resolve_path tmp_room stack_room cwd inp_path ≡ path p
    → resolve_path true true later p ≡ path p
unfolding resolve_path full_path rebuilt
resolve_path-resolve_path tmp_room stack_room cwd inp_path p later a e =
    let r = resolve_path-Resolved tmp_room stack_room cwd inp_path p a e in
    let c = r.canonical in
    let from_slash : (get_or p 0 0 == slash) ≡ true = starts c.names p c.is in
    let fits : leb 256 (length p) ≡ false = ground (arith, r.fits) in
    let w =
      ap (λ q. walk (skip_slash q) (some (record { name = []; stack = [] }))) c.is
      ∙ walk-shown c.names c.all c.few in
    let back : bottom_up (bottom_up c.names []) [] ≡ c.names =
      bottom_up-bottom_up c.names [] [] ∙ append-nil c.names in
    rw (from_slash, fits) (ap rebuilt w ∙ ap path (rebuild-shown _ ∙ ap shown back ∙ sym c.is))
  where
    starts : (names : List (List ℕ)) (q : List ℕ) → q ≡ shown names → (get_or q 0 0 == slash) ≡ true
    starts [] q e = rw e refl
    starts (n ∷ ns) q e = rw e refl
