-- ===== src/PageTables/Grow.antt =====
-- Tables are added to the tree, and what is mapped stays.
use nyan_os.Base.{
  ℕ, zero, suc, ◌+◌, ◌*◌, ◌%◌, ◌<◌, ◌≡◌, ◌≢◌, refl, sym, ap, ap₂, ◌∙◌, true, false, ◌&&◌, ◌||◌,
  Option, none, some, arith, ◌==◌, ==_iff, if◌then◌else◌, Bool-cases, bool_clash, inl, inr,
}
use nyan_os.Pmm.{Pmm, page_size}
use nyan_os.Pmm.Bitmap.{used}
use nyan_os.Pmm.Alloc.{Claimed}
use nyan_os.PageTables.{Machine, is_present, pte_get_addr, put_word, clear, table_entry}
use nyan_os.PageTables.Entries.{pte_get_addr-table_entry, is_present-table_entry}
use nyan_os.PageTables.Levels.{
  above, reach, entry, leaf, reach_down, reach_missing, leaf_down, leaf_missing,
}
use nyan_os.PageTables.Inv.{
  Role, InUse, Inv, child, reach-role, put_word_self, level-eq, level_clash,
}

pub record Grown (root : ℕ) (role : Role) (s : Machine) (role' : Role) (s' : Machine) : Type 0 where
  pub inv : Inv role' root s'
  pub kept : (t m k : ℕ) → role t ≡ some (m, k) → role' t ≡ some (m, k)
  pub stay :
      (t m k i : ℕ) → role t ≡ some (m, k) → is_present (s.mem t i) ≡ true → s'.mem t i ≡ s.mem t i
  pub same :
      (m t pn : ℕ) → role t ≡ some (m, above (suc m) pn) → leaf s'.mem t m pn ≡ leaf s.mem t m pn

pub Grown-refl : (root : ℕ) (role : Role) (s : Machine) → Inv role root s → Grown root role s role s
Grown-refl root role s inv = record {
  inv = inv;
  kept = λ t m k r. r;
  stay = λ t m k i r p. refl;
  same = λ m t pn r. refl;
}

pub Grown-trans :
    (root : ℕ) (role role' role'' : Role) (s s' s'' : Machine)
    → Grown root role s role' s'
    → Grown root role' s' role'' s''
    → Grown root role s role'' s''
Grown-trans root role role' role'' s s' s'' g h = record {
  inv = h.inv;
  kept = λ t m k r. h.kept t m k (g.kept t m k r);
  stay = λ t m k i r p.
      h.stay t m k i (g.kept t m k r) (ap is_present (g.stay t m k i r p) ∙ p) ∙ g.stay t m k i r p;
  same = λ m t pn r. h.same m t pn (g.kept t m _ r) ∙ g.same m t pn r;
}

-- The allocator only takes frames that are free.
InUse-Claimed : (p p' : Pmm) (i t : ℕ) → Claimed p p' i → InUse p t → InUse p' t
InUse-Claimed p p' i t c (j, at, low, taken) =
    (j, at, omega (arith, c.pages), c.used_lem j low ∙ ground (arith, taken))

-- A frame in use is not one that is free.
pub InUse-free : (p : Pmm) (f x : ℕ) → InUse p x → used p f ≡ false → x ≢ f * page_size
InUse-free p f x (f', at, low, taken) free here =
    let same : f' ≡ f = omega (arith, at, here) in bool_clash (sym taken ∙ ap (used p) same ∙ free)

-- A frame is claimed, and the memory changes in what is no table.
module _ (root : ℕ) (role : Role) (s s' : Machine) (f : ℕ) (inv : Inv role root s)
    (c : Claimed s.pmm s'.pmm f)
    (apart : (t m k i : ℕ) → role t ≡ some (m, k) → s'.mem t i ≡ s.mem t i) where
  pub reach_apart :
      (m t pn : ℕ) → role t ≡ some (m, above (suc m) pn) → reach s'.mem t m pn ≡ reach s.mem t m pn
  reach_apart zero t pn r = refl
  reach_apart (suc m) t pn r =
      let same = apart t (suc m) _ (above (suc m) pn % 512) r in
      elim (Bool-cases (is_present (s.mem t (above (suc m) pn % 512)))) [
        | inl p ↦
            reach_down s'.mem t m pn (ap is_present same ∙ p)
            ∙ ap (λ e. reach s'.mem (pte_get_addr e) m pn) same
            ∙ reach_apart m (pte_get_addr (s.mem t (above (suc m) pn % 512))) pn
                (child role root s inv m t pn r p)
            ∙ sym (reach_down s.mem t m pn p)
        | inr a ↦
            reach_missing s'.mem t m pn (ap is_present same ∙ a)
            ∙ sym (reach_missing s.mem t m pn a)
      ]

  leaf_apart :
      (m t pn : ℕ) → role t ≡ some (m, above (suc m) pn) → leaf s'.mem t m pn ≡ leaf s.mem t m pn
  leaf_apart m t pn r =
      ap (entry s'.mem pn) (reach_apart m t pn r) ∙ last_level (reach s.mem t m pn) refl
    where
      last_level : (q : Option ℕ) → reach s.mem t m pn ≡ q → entry s'.mem pn q ≡ entry s.mem pn q
      last_level none e = refl
      last_level (some pt) e = apart pt 0 _ (pn % 512) (reach-role role root s inv m t pn pt r e)

  pub Grown-apart : Grown root role s role s'
  Grown-apart = record {
    inv = record {
      valid = c.valid;
      zero = InUse-Claimed s.pmm s'.pmm f 0 c inv.zero;
      at_root = inv.at_root;
      in_use = λ t m k r. InUse-Claimed s.pmm s'.pmm f t c (inv.in_use t m k r);
      below = λ t m k i r h p.
          let same = apart t (suc m) k i r in
          ap (λ e. role (pte_get_addr e)) same
          ∙ inv.below t m k i r h (ap is_present (sym same) ∙ p);
    };
    kept = λ t m k r. r;
    stay = λ t m k i r p. apart t m k i r;
    same = leaf_apart;
  }

-- An empty table maps nothing.
leaf_empty : (mem : ℕ → ℕ → ℕ) (t m pn : ℕ) → ((i : ℕ) → mem t i ≡ 0) → leaf mem t m pn ≡ 0
leaf_empty mem t zero pn h = h (pn % 512)
leaf_empty mem t (suc m) pn h = leaf_missing mem t m pn (ap is_present (h (above (suc m) pn % 512)))

-- The table `u`, on a frame `f` that was free, below the entry `i` of the table `t`.
module _ (root : ℕ) (role : Role) (s : Machine) (inv : Inv role root s) (p' : Pmm) (f : ℕ)
    (low : f < s.pmm.total_pages) (free : used s.pmm f ≡ false) (claimed : Claimed s.pmm p' f)
    (m t k i : ℕ) (at_t : role t ≡ some (suc m, k)) (missing : is_present (s.mem t i) ≡ false) where
  abbrev pub u : ℕ
  u = f * page_size

  abbrev pub with_table : Role
  with_table x = if x == u then some (m, k * 512 + i) else role x

  abbrev pub added : Machine
  added = record { pmm = p'; mem = put_word (clear s.mem u) t i (table_entry u) }

  -- The new frame was no table.
  fresh : (x n j : ℕ) → role x ≡ some (n, j) → (x == u) ≡ false
  fresh x n j r = elim (Bool-cases (x == u)) [
    | inl here ↦ absurd (InUse-free s.pmm f x (inv.in_use x n j r) free ((==_iff x u).0 here))
    | inr other ↦ other
  ]

  with_table_old : (x n j : ℕ) → role x ≡ some (n, j) → with_table x ≡ some (n, j)
  with_table_old x n j r = rw (fresh x n j r) r

  with_table_ne : (x : ℕ) → (x == u) ≡ false → with_table x ≡ role x
  with_table_ne x other = rw other refl

  pub with_table_new : with_table u ≡ some (m, k * 512 + i)
  with_table_new = rw ((==_iff u u).1 refl) refl

  -- The new table is empty, the entry for it is written, and nothing else.
  added_new : (j : ℕ) → added.mem u j ≡ 0
  added_new j = rw (other, (==_iff u u).1 refl) refl
    where
      other : (u == t) ≡ false
      other = ground (arith, fresh t (suc m) k at_t)

  pub added_entry : added.mem t i ≡ table_entry u
  added_entry = put_word_self (clear s.mem u) t i (table_entry u)

  pub new_address : pte_get_addr (table_entry u) ≡ u
  new_address = pte_get_addr-table_entry u ∙ omega arith

  hit-eq : (x j : ℕ) → (x == t && j == i) ≡ true → (x ≡ t) × (j ≡ i)
  hit-eq x j h = ground arith

  hit_entry : (x j : ℕ) → (x == t && j == i) ≡ true → added.mem x j ≡ table_entry u
  hit_entry x j h = ap₂ added.mem (hit-eq x j h).0 (hit-eq x j h).1 ∙ added_entry

  hit_missing : (x j : ℕ) → (x == t && j == i) ≡ true → is_present (s.mem x j) ≡ false
  hit_missing x j h = ap is_present (ap₂ s.mem (hit-eq x j h).0 (hit-eq x j h).1) ∙ missing

  added_old :
      (x n c j : ℕ) → role x ≡ some (n, c) → (x == t && j == i) ≡ false → added.mem x j ≡ s.mem x j
  added_old x n c j r h = rw (h, fresh x n c r) refl

  below_old :
      (x n c j : ℕ)
      → role x ≡ some (suc n, c)
      → j < 512
      → is_present (added.mem x j) ≡ true
      → with_table (pte_get_addr (added.mem x j)) ≡ some (n, c * 512 + j)
  below_old x n c j r h p = elim (Bool-cases (x == t && j == i)) [
    | inl hit ↦
        let levels = level-eq (sym at_t ∙ ap role (sym (hit-eq x j hit).0) ∙ r) in
        ap (λ e. with_table (pte_get_addr e)) (hit_entry x j hit)
        ∙ ap with_table new_address
        ∙ with_table_new
        ∙ ap₂ (λ a b. some (a, b)) (omega (arith, levels.0))
            (omega (arith, levels.1, (hit-eq x j hit).1))
    | inr miss ↦
        let same : added.mem x j ≡ s.mem x j = added_old x (suc n) c j r miss in
        ap (λ e. with_table (pte_get_addr e)) same
        ∙ with_table_old _ n _ (inv.below x n c j r h (ap is_present (sym same) ∙ p))
  ]

  added-Inv : Inv with_table root added
  added-Inv = record {
    valid = claimed.valid;
    zero = InUse-Claimed s.pmm p' f 0 claimed inv.zero;
    at_root = with_table_old root 3 0 inv.at_root;
    in_use = in_use;
    below = below;
  }
    where
      in_use : (x n c : ℕ) → with_table x ≡ some (n, c) → InUse p' x
      in_use x n c r = elim (Bool-cases (x == u)) [
        | inl here ↦ (
          f,
          (==_iff x u).0 here,
          omega (arith, claimed.pages, low),
          claimed.used_lem f low ∙ ap (λ b. b || used s.pmm f) ((==_iff f f).1 refl),
        )
        | inr other ↦
            InUse-Claimed s.pmm p' f x claimed (inv.in_use x n c (sym (with_table_ne x other) ∙ r))
      ]

      below :
          (x n c j : ℕ)
          → with_table x ≡ some (suc n, c)
          → j < 512
          → is_present (added.mem x j) ≡ true
          → with_table (pte_get_addr (added.mem x j)) ≡ some (n, c * 512 + j)
      below x n c j r h p = elim (Bool-cases (x == u)) [
        | inl here ↦ absurd (
            bool_clash
              (sym p ∙ ap is_present (ap (λ y. added.mem y j) ((==_iff x u).0 here) ∙ added_new j)))
        | inr other ↦ below_old x n c j (sym (with_table_ne x other) ∙ r) h p
      ]

  not_last : (x c j : ℕ) → role x ≡ some (0, c) → (x == t && j == i) ≡ false
  not_last x c j r = elim (Bool-cases (x == t && j == i)) [
    | inl hit ↦ absurd (level_clash (sym r ∙ ap role (hit-eq x j hit).0 ∙ at_t))
    | inr miss ↦ miss
  ]

  leaf_hit :
      (n x pn : ℕ)
      → (x == t && above (suc n) pn % 512 == i) ≡ true
      → leaf added.mem x (suc n) pn ≡ leaf s.mem x (suc n) pn
  leaf_hit n x pn hit =
      let new = hit_entry x (above (suc n) pn % 512) hit in
      leaf_down added.mem x n pn (ap is_present new ∙ is_present-table_entry u)
      ∙ ap (λ e. leaf added.mem (pte_get_addr e) n pn) new
      ∙ ap (λ y. leaf added.mem y n pn) new_address
      ∙ leaf_empty added.mem u n pn added_new
      ∙ sym (leaf_missing s.mem x n pn (hit_missing x (above (suc n) pn % 512) hit))

  leaf_added :
      (n x pn : ℕ) → role x ≡ some (n, above (suc n) pn) → leaf added.mem x n pn ≡ leaf s.mem x n pn
  leaf_added zero x pn r = added_old x 0 _ (pn % 512) r (not_last x _ (pn % 512) r)
  leaf_added (suc n) x pn r = elim (Bool-cases (x == t && above (suc n) pn % 512 == i)) [
    | inl hit ↦ leaf_hit n x pn hit
    | inr miss ↦
        let same = added_old x (suc n) _ (above (suc n) pn % 512) r miss in
        elim (Bool-cases (is_present (s.mem x (above (suc n) pn % 512)))) [
          | inl p ↦
              leaf_down added.mem x n pn (ap is_present same ∙ p)
              ∙ ap (λ e. leaf added.mem (pte_get_addr e) n pn) same
              ∙ leaf_added n (pte_get_addr (s.mem x (above (suc n) pn % 512))) pn
                  (child role root s inv n x pn r p)
              ∙ sym (leaf_down s.mem x n pn p)
          | inr a ↦
              leaf_missing added.mem x n pn (ap is_present same ∙ a)
              ∙ sym (leaf_missing s.mem x n pn a)
        ]
  ]

  pub added-Grown : Grown root role s with_table added
  added-Grown = record {
    inv = added-Inv;
    kept = with_table_old;
    stay = λ x n c j r p. added_old x n c j r (elim (Bool-cases (x == t && j == i)) [
      | inl hit ↦ absurd (bool_clash (sym p ∙ hit_missing x j hit))
      | inr miss ↦ miss
    ]);
    same = λ n x pn r. leaf_added n x pn r;
  }
