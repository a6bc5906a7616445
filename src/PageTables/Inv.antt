-- ===== src/PageTables/Inv.antt =====
-- The tree of tables below a root: which frame is a table, and of which part of the address space.
use nyan_os.Base.{
  ℕ, zero, suc, ◌+◌, ◌*◌, ◌%◌, ◌<◌, ◌≡◌, ◌≢◌, refl, sym, ap, subst, ◌∙◌, true, Option, none, some,
  arith, ◌==◌, ◌&&◌, ==_iff, if◌then◌else◌, Bool-cases, bool_clash, option_clash, inl, inr,
}
use nyan_os.Pmm.{Pmm, page_size}
use nyan_os.Pmm.Bitmap.{IsValid, used}
use nyan_os.PageTables.{Machine, is_present, pte_get_addr, put_word}
use nyan_os.PageTables.Levels.{above, reach, entry, leaf, reach_down, reach_missing}

-- `some (m, k)` for a table with `m` levels below it that serves the pages `pn` with `above (suc m) pn ≡ k`.
abbrev pub Role : Type 0
Role = ℕ → Option (ℕ × ℕ)

abbrev pub InUse : Pmm → ℕ → Type 0
InUse p t = (i : ℕ) × (t ≡ i * page_size) × (i < p.total_pages) × (used p i ≡ true)

-- The frames in use include the first, whose address would read as a failure of the allocator, and the
-- tables. An entry of a table that is present leads to the table of its part.
pub record Inv (role : Role) (root : ℕ) (s : Machine) : Type 0 where
  pub valid : IsValid s.pmm
  pub zero : InUse s.pmm 0
  pub at_root : role root ≡ some (3, 0)
  pub in_use : (t m k : ℕ) → role t ≡ some (m, k) → InUse s.pmm t
  pub below :
      (t m k i : ℕ)
      → role t ≡ some (suc m, k)
      → i < 512
      → is_present (s.mem t i) ≡ true
      → role (pte_get_addr (s.mem t i)) ≡ some (m, k * 512 + i)

pub put_word_self : (mem : ℕ → ℕ → ℕ) (t i e : ℕ) → put_word mem t i e t i ≡ e
put_word_self mem t i e = ground arith

pub level-eq :
    {m m' k k' : ℕ} → Path (Option (ℕ × ℕ)) (some (m, k)) (some (m', k')) → (m ≡ m') × (k ≡ k')
level-eq {m = m} {m' = m'} {k = k} {k' = k'} e = (ap (fst_or m) e, ap (snd_or k) e)
  where
    fst_or : ℕ → Option (ℕ × ℕ) → ℕ
    fst_or d none = d
    fst_or d (some (m, k)) = m

    snd_or : ℕ → Option (ℕ × ℕ) → ℕ
    snd_or d none = d
    snd_or d (some (m, k)) = k

pub level_clash : {k k' m : ℕ} → Path (Option (ℕ × ℕ)) (some (0, k)) (some (suc m, k')) → ⊥
level_clash e = let levels = (level-eq e).0 in omega arith

some-eq : {a b : ℕ} → some a ≡ some b → a ≡ b
some-eq {a = a} e = ap (get_or_else a) e
  where
    get_or_else : ℕ → Option ℕ → ℕ
    get_or_else d none = d
    get_or_else d (some a) = a

module _ (role : Role) (root : ℕ) (s : Machine) (inv : Inv role root s) where
  -- The table below, for a page.
  pub child :
      (m t pn : ℕ)
      → role t ≡ some (suc m, above (suc (suc m)) pn)
      → is_present (s.mem t (above (suc m) pn % 512)) ≡ true
      → role (pte_get_addr (s.mem t (above (suc m) pn % 512))) ≡ some (m, above (suc m) pn)
  child m t pn r p =
      inv.below t m _ (above (suc m) pn % 512) r (omega arith) p
      ∙ ap (λ k. some (m, k)) (omega arith)

  -- The table for a page is the table of its part.
  pub reach-role :
      (m t pn pt : ℕ)
      → role t ≡ some (m, above (suc m) pn)
      → reach s.mem t m pn ≡ some pt
      → role pt ≡ some (0, above 1 pn)
  reach-role zero t pn pt r e = ap role (sym (some-eq e)) ∙ r
  reach-role (suc m) t pn pt r e =
      elim (Bool-cases (is_present (s.mem t (above (suc m) pn % 512)))) [
        | inl p ↦
            reach-role m (pte_get_addr (s.mem t (above (suc m) pn % 512))) pn pt (child m t pn r p)
              (sym (reach_down s.mem t m pn p) ∙ e)
        | inr a ↦ absurd (option_clash (sym (reach_missing s.mem t m pn a) ∙ e))
      ]

-- A word of a table of the last level is replaced.
module _ (role : Role) (root : ℕ) (s : Machine) (inv : Inv role root s) (pt kp j e : ℕ)
    (at_pt : role pt ≡ some (0, kp)) where
  written : ℕ → ℕ → ℕ
  written = put_word s.mem pt j e

  upper : (x m k i : ℕ) → role x ≡ some (suc m, k) → put_word s.mem pt j e x i ≡ s.mem x i
  upper x m k i r = elim (Bool-cases (x == pt)) [
    | inl here ↦ absurd (level_clash (sym at_pt ∙ ap role (sym ((==_iff x pt).0 here)) ∙ r))
    | inr other ↦ rw other refl
  ]

  reach-put_word :
      (m x pn : ℕ)
      → role x ≡ some (m, above (suc m) pn)
      → reach (put_word s.mem pt j e) x m pn ≡ reach s.mem x m pn
  reach-put_word zero x pn r = refl
  reach-put_word (suc m) x pn r =
      rw (upper x m _ (above (suc m) pn % 512) r)
        (elim (Bool-cases (is_present (s.mem x (above (suc m) pn % 512)))) [
          | inl p ↦ rw p (
              reach-put_word m (pte_get_addr (s.mem x (above (suc m) pn % 512))) pn
                (child role root s inv m x pn r p))
          | inr a ↦ rw a refl
        ])

  -- The tree of tables does not change.
  pub put_word-Inv : Inv role root (record s { mem = put_word s.mem pt j e })
  put_word-Inv = record {
    valid = inv.valid;
    zero = inv.zero;
    at_root = inv.at_root;
    in_use = inv.in_use;
    below = λ x m k i r h p.
        let same = upper x m k i r in
        subst (λ w. role (pte_get_addr w) ≡ some (m, k * 512 + i)) (sym same)
          (inv.below x m k i r h (ap is_present (sym same) ∙ p));
  }

-- The entry of a page that the walk reaches is replaced.
module _ (role : Role) (root : ℕ) (s : Machine) (inv : Inv role root s) (pn pt e : ℕ)
    (low : above 4 pn ≡ 0) (at_pt : reach s.mem root 3 pn ≡ some pt) where
  top : (pn' : ℕ) → above 4 pn' ≡ 0 → role root ≡ some (3, above 4 pn')
  top pn' h = inv.at_root ∙ ap (λ k. some (3, k)) (sym h)

  pub last : role pt ≡ some (0, above 1 pn)
  last = reach-role role root s inv 3 root pn pt (top pn low) at_pt

  same_reach :
      (pn' : ℕ)
      → above 4 pn' ≡ 0
      → reach (put_word s.mem pt (pn % 512) e) root 3 pn' ≡ reach s.mem root 3 pn'
  same_reach pn' h =
      reach-put_word role root s inv pt (above 1 pn) (pn % 512) e last 3 root pn' (top pn' h)

  pub leaf-put_word_self : leaf (put_word s.mem pt (pn % 512) e) root 3 pn ≡ e
  leaf-put_word_self =
      ap (entry (put_word s.mem pt (pn % 512) e) pn) (same_reach pn low ∙ at_pt)
      ∙ put_word_self s.mem pt (pn % 512) e

  other :
      (pn' : ℕ) (r : Option ℕ)
      → reach s.mem root 3 pn' ≡ r
      → above 4 pn' ≡ 0
      → pn' ≢ pn
      → entry (put_word s.mem pt (pn % 512) e) pn' r ≡ entry s.mem pn' r
  other pn' none q h n = refl
  other pn' (some x) q h n = elim (Bool-cases ((x == pt) && (pn' % 512 == pn % 512))) [
    | inl hit ↦
        let here : x ≡ pt = ground arith in
        let same : above 1 pn' ≡ above 1 pn =
          (level-eq (
            sym (reach-role role root s inv 3 root pn' x (top pn' h) q) ∙ ap role here ∙ last)).1 in
        absurd (n (ground arith))
    | inr miss ↦ rw miss refl
  ]

  pub leaf-put_word_ne :
      (pn' : ℕ)
      → above 4 pn' ≡ 0
      → pn' ≢ pn
      → leaf (put_word s.mem pt (pn % 512) e) root 3 pn' ≡ leaf s.mem root 3 pn'
  leaf-put_word_ne pn' h n =
      ap (entry (put_word s.mem pt (pn % 512) e) pn') (same_reach pn' h)
      ∙ other pn' (reach s.mem root 3 pn') refl h n

-- A root that is empty is a tree of one table.
abbrev pub only : ℕ → Role
only root t = if t == root then some (3, 0) else none

pub empty-Inv :
    (root : ℕ) (s : Machine)
    → IsValid s.pmm
    → InUse s.pmm 0
    → InUse s.pmm root
    → ((i : ℕ) → s.mem root i ≡ 0)
    → Inv (only root) root s
empty-Inv root s v z u h = record {
  valid = v;
  zero = z;
  at_root = rw ((==_iff root root).1 refl) refl;
  in_use = λ t m k r. subst (InUse s.pmm) (sym (is_root t m k r)) u;
  below = λ t m k i r low p.
      absurd
        (bool_clash (sym p ∙ ap is_present (ap (λ x. s.mem x i) (is_root t (suc m) k r) ∙ h i)));
}
  where
    is_root : (t m k : ℕ) → only root t ≡ some (m, k) → t ≡ root
    is_root t m k r = elim (Bool-cases (t == root)) [
      | inl here ↦ (==_iff t root).0 here
      | inr other ↦ absurd (option_clash (sym (rw other refl) ∙ r))
    ]
