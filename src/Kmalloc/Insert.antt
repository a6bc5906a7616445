-- ===== src/Kmalloc/Insert.antt =====
-- A block that is freed comes back into the list, merged with its neighbours.
use nyan_os.Base.{
  ℕ, ◌+◌, ◌^◌, ◌<◌, ◌≤◌, ◌≡◌, refl, ap, inl, inr, List, [], ◌∷◌, arith, ltb, ◌==◌, Bool-cases,
}
use nyan_os.Regions.{Region, ◌+64◌, covered, Chain, Apart, Chain-mono, Inserted}
use nyan_os.Kmalloc.{join_next, join_prev, insert_after, insert_block}

-- The merge with the next block, at a block below the rest of the list.
record Joined (b : Region) (rest : List Region) (out : Region × List Region) : Type 0 where
  same_start : out.0.addr ≡ b.addr
  grows : b.size ≤ out.0.size
  small : out.0.addr + out.0.size < 2 ^ 64
  chain : Chain (out.0.addr + out.0.size + 1) out.1
  same : (a : ℕ) → covered (out.0 ∷ out.1) a ≡ covered (b ∷ rest) a

join_next-Joined :
    (b : Region) (rest : List Region)
    → b.addr + b.size < 2 ^ 64
    → Chain (b.addr + b.size) rest
    → Joined b rest (join_next b rest)
unfolding join_next
join_next-Joined b [] h c = record {
  same_start = refl;
  grows = omega arith;
  small = h;
  chain = tt;
  same = λ a. refl;
}
join_next-Joined b (n ∷ ns) h c = elim (Bool-cases (b.addr +64 b.size == n.addr)) [
  | inl e ↦
      let touch : b.addr + b.size ≡ n.addr = ground arith in
      rw e (record {
        same_start = refl;
        grows = omega arith;
        small = omega arith;
        chain = Chain-mono (n.addr + n.size + 1) _ ns (omega arith) c.3;
        same = λ a. ground arith;
      })
  | inr e ↦
      let gap : b.addr + b.size < n.addr = ground arith in
      rw e (record {
        same_start = refl;
        grows = omega arith;
        small = h;
        chain = (omega arith, c.1, c.2, c.3);
        same = λ a. refl;
      })
]

-- The block between `prev` and the rest.
join_prev-Inserted :
    (lo : ℕ) (prev b : Region) (rest : List Region)
    → Chain lo (prev ∷ rest)
    → prev.addr + prev.size ≤ b.addr
    → 0 < b.size
    → b.addr + b.size < 2 ^ 64
    → Chain (b.addr + b.size) rest
    → Inserted lo b (prev ∷ rest) (join_prev prev (join_next b rest))
unfolding join_prev
join_prev-Inserted lo prev b rest c below pos small above =
    go (join_next b rest) (join_next-Joined b rest small above)
  where
    go :
        (q : Region × List Region)
        → Joined b rest q
        → Inserted lo b (prev ∷ rest) (join_prev prev q)
    go (b', rest') j = elim (Bool-cases (prev.addr +64 prev.size == b'.addr)) [
      | inl e ↦
          let touch : prev.addr + prev.size ≡ b'.addr = ground arith in
          rw e (record {
            chain = (
              c.0,
              omega arith,
              omega (arith, j.small),
              Chain-mono (b'.addr + b'.size + 1) _ rest' (omega (arith, j.small)) j.chain,
            );
            same = λ a. ground (arith, j.same a, j.small);
          })
      | inr e ↦
          let gap : prev.addr + prev.size < b'.addr = ground (arith, j.same_start) in
          rw e (record {
            chain = (c.0, c.1, c.2, (omega arith, omega (arith, j.grows), j.small, j.chain));
            same = λ a. ground (arith, j.same a);
          })
    ]

-- What a block that is apart from a chain has to one side of the head.
Apart-after :
    (b : Region) (lo : ℕ) (rest : List Region)
    → Apart b rest
    → Chain lo rest
    → b.addr < lo
    → 0 < b.size
    → Chain (b.addr + b.size) rest
Apart-after b lo [] h c low pos = tt
Apart-after b lo (r ∷ rs) h c low pos = (ground arith, c.1, c.2, c.3)

insert_after-Inserted :
    (lo : ℕ) (prev b : Region) (rest : List Region)
    → Chain lo (prev ∷ rest)
    → prev.addr ≤ b.addr
    → 0 < b.size
    → b.addr + b.size < 2 ^ 64
    → Apart b (prev ∷ rest)
    → Inserted lo b (prev ∷ rest) (insert_after prev b rest)
unfolding insert_after
insert_after-Inserted lo prev b [] c low pos small ap =
    join_prev-Inserted lo prev b [] c (ground arith) pos small tt
insert_after-Inserted lo prev b (n ∷ ns) c low pos small ap =
    elim (Bool-cases (ltb n.addr b.addr)) [
      | inl e ↦
          let rest =
            insert_after-Inserted (prev.addr + prev.size + 1) n b ns c.3 (ground arith) pos small
              ap.1 in
          rw e (record {
            chain = (c.0, c.1, c.2, rest.chain);
            same = λ a. ground (arith, rest.same a);
          })
      | inr e ↦ rw e (
          join_prev-Inserted lo prev b (n ∷ ns) c (ground arith) pos small
            (ground arith, c.3.1, c.3.2, c.3.3))
    ]

-- Inserting a block that is apart from a chain of free blocks gives a chain again, with every two
-- neighbours joined, that covers exactly the old addresses and those of the block.
pub insert_block-Inserted :
    (b : Region) (rest : List Region)
    → Chain 0 rest
    → 0 < b.size
    → b.addr + b.size < 2 ^ 64
    → Apart b rest
    → Inserted 0 b rest (insert_block b rest)
unfolding insert_block
insert_block-Inserted b [] c pos small ap = record {
  chain = (omega arith, pos, small, tt);
  same = λ a. refl;
}
insert_block-Inserted b (f ∷ fs) c pos small ap = elim (Bool-cases (ltb b.addr f.addr)) [
  | inl e ↦
      let j = join_next-Joined b (f ∷ fs) small (ground arith, c.1, c.2, c.3) in
      rw e (record {
        chain = (omega arith, omega (arith, j.grows), j.small, j.chain);
        same = λ a. j.same a;
      })
  | inr e ↦ rw e (insert_after-Inserted 0 f b fs c (ground arith) pos small ap)
]
