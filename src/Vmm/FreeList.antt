-- ===== src/Vmm/FreeList.antt =====
-- What is taken out of the free regions and what is put back.
use nyan_os.Base.{
  ℕ, ◌+◌, ◌-◌, ◌^◌, ◌<◌, ◌≤◌, ◌≡◌, ◌⊎◌, inl, inr, refl, ap, Bool, true, false, ◌||◌, List, [], ◌∷◌,
  arith, ltb, ◌==◌, Bool-cases, if_ind,
}
use nyan_os.Regions.{
  Region, region, ◌+64◌, inside, covered, Chain, Apart, Chain-mono, Chain-low, Inserted, roomy,
}
use nyan_os.Vmm.{
  find_free_addr, merge_next, new_region, add_between, add_after, add_region, vmm_add_free_region,
}

-- The addresses that a search takes, if it finds room.
pub data Taken (lo size : ℕ) (l : List Region) : ℕ × List Region → Type 0 where
  taken :
      (addr : ℕ) (out : List Region)
      → lo ≤ addr
      → addr + size < 2 ^ 64
      → Chain lo out
      → ((a : ℕ) → inside (region addr size) a ≡ true → covered out a ≡ false)
      → ((a : ℕ) → covered l a ≡ (inside (region addr size) a || covered out a))
      → Taken lo size l (addr, out)
  no_room : roomy size l ≡ false → Taken lo size l (0, l)

find_free_addr-front :
    (lo size : ℕ) (r : Region) (rs : List Region)
    → 0 < size
    → size < r.size
    → Chain lo (r ∷ rs)
    → Taken lo size (r ∷ rs) (r.addr, region (r.addr +64 size) (r.size - size) ∷ rs)
find_free_addr-front lo size r rs pos h c =
    let start : r.addr +64 size ≡ r.addr + size = omega arith in
    rw start (
      taken r.addr (region (r.addr + size) (r.size - size) ∷ rs) c.0 (omega arith)
        (omega arith, omega arith, omega arith, Chain-mono _ _ rs (omega arith) c.3)
        (λ a i. ground (arith, Chain-low (r.addr + r.size + 1) rs a c.3)) (λ a. ground arith))

later :
    (lo size : ℕ) (r : Region) (rs : List Region) (q : ℕ × List Region)
    → Chain lo (r ∷ rs)
    → r.size < size
    → Taken (r.addr + r.size + 1) size rs q
    → Taken lo size (r ∷ rs) (q.0, r ∷ q.1)
later lo size r rs q c h (taken addr out above small chain gone same) =
    taken addr (r ∷ out) (omega arith) small (c.0, c.1, c.2, chain)
      (λ a i. ground (arith, gone a i)) (λ a. ground (arith, same a))
later lo size r rs q c h (no_room n) = no_room (ground arith)

-- On a chain of free regions, the search for `size > 0` addresses gives some that were free and are not free any more, and changes no other;
-- it fails, and changes nothing, only where no region is large enough.
pub find_free_addr-Taken :
    (lo size : ℕ) (l : List Region)
    → 0 < size
    → Chain lo l
    → Taken lo size l (find_free_addr size l)
unfolding find_free_addr
find_free_addr-Taken lo size [] pos c = no_room refl
find_free_addr-Taken lo size (r ∷ rs) pos c =
    let rest = find_free_addr-Taken (r.addr + r.size + 1) size rs pos c.3 in
    if_ind (Taken lo size (r ∷ rs)) (ltb size r.size) _ _
      (λ big. find_free_addr-front lo size r rs pos (ground arith) c)
      λ not_big.
        if_ind (Taken lo size (r ∷ rs)) (r.size == size) _ _
          (λ just.
            taken r.addr rs c.0 (ground arith) (Chain-mono _ lo rs (omega arith) c.3)
              (λ a i. ground (arith, Chain-low (r.addr + r.size + 1) rs a c.3)) (λ a. ground arith))
          (λ differs. later lo size r rs (find_free_addr size rs) c (ground arith) rest)

-- A region at the front of a chain, joined with the next one.
merge_next-Inserted :
    (lo : ℕ) (b : Region) (rest : List Region)
    → lo ≤ b.addr
    → 0 < b.size
    → b.addr + b.size < 2 ^ 64
    → Chain (b.addr + b.size) rest
    → Inserted lo b rest (merge_next b rest)
unfolding merge_next
merge_next-Inserted lo b [] h pos small c = record { chain = (h, pos, small, tt); same = λ a. refl }
merge_next-Inserted lo b (n ∷ ns) h pos small c = elim (Bool-cases (b.addr +64 b.size == n.addr)) [
  | inl e ↦ rw e (record {
    chain = (h, ground arith, ground arith, Chain-mono _ _ ns (ground arith) c.3);
    same = λ a. ground arith;
  })
  | inr e ↦
      rw e (record { chain = (h, pos, small, (ground arith, c.1, c.2, c.3)); same = λ a. refl })
]

-- A region comes into the list; or, where it touches none below it and there is no memory for a
-- node, it is lost and the list stays.
unfoldable pub Added : Bool → ℕ → Region → List Region → List Region → Type 0
Added true lo b l out = Inserted lo b l out
Added false lo b l out = Inserted lo b l out ⊎ (out ≡ l)

of_Inserted :
    (node : Bool) (lo : ℕ) (b : Region) (l out : List Region)
    → Inserted lo b l out
    → Added node lo b l out
unfolding Added
of_Inserted true lo b l out i = i
of_Inserted false lo b l out i = inl i

new_region-Added :
    (node : Bool) (lo : ℕ) (b : Region) (rest : List Region)
    → lo ≤ b.addr
    → 0 < b.size
    → b.addr + b.size < 2 ^ 64
    → Chain (b.addr + b.size) rest
    → Added node lo b rest (new_region node b rest)
unfolding Added new_region
new_region-Added true lo b rest h pos small c = merge_next-Inserted lo b rest h pos small c
new_region-Added false lo b rest h pos small c = inr refl

-- Behind a region that stays as it is.
cons-Added :
    (node : Bool) (lo : ℕ) (b prev : Region) (l out : List Region)
    → Chain lo (prev ∷ l)
    → Added node (prev.addr + prev.size + 1) b l out
    → Added node lo b (prev ∷ l) (prev ∷ out)
unfolding Added
cons-Added true lo b prev l out c i = record {
  chain = (c.0, c.1, c.2, i.chain);
  same = λ a. ground (arith, i.same a);
}
cons-Added false lo b prev l out c (inl i) =
    inl (record { chain = (c.0, c.1, c.2, i.chain); same = λ a. ground (arith, i.same a) })
cons-Added false lo b prev l out c (inr e) = inr (ap (λ t. prev ∷ t) e)

add_between-Added :
    (node : Bool) (lo : ℕ) (prev b : Region) (rest : List Region)
    → Chain lo (prev ∷ rest)
    → prev.addr + prev.size ≤ b.addr
    → 0 < b.size
    → b.addr + b.size < 2 ^ 64
    → Chain (b.addr + b.size) rest
    → Added node lo b (prev ∷ rest) (add_between node prev b rest)
unfolding add_between
add_between-Added node lo prev b rest c below pos small above =
    if_ind (Added node lo b (prev ∷ rest)) (prev.addr +64 prev.size == b.addr) _ _
      (λ e.
        let grown = record prev { size = prev.size +64 b.size } in
        let touch : prev.addr + prev.size ≡ b.addr = ground arith in
        let up =
          merge_next-Inserted lo grown rest c.0 (omega arith) (omega arith)
            (Chain-mono _ _ rest (omega arith) above) in
        of_Inserted node lo b (prev ∷ rest) _
          (record { chain = up.chain; same = λ a. ground (arith, up.same a) }))
      (λ e.
        cons-Added node lo b prev rest _ c
          (new_region-Added node (prev.addr + prev.size + 1) b rest (ground arith) pos small above))

-- The regions above a region that is apart from all.
above_of_Apart :
    (b : Region) (lo : ℕ) (l : List Region)
    → Apart b l
    → Chain lo l
    → b.addr ≤ lo
    → 0 < b.size
    → Chain (b.addr + b.size) l
above_of_Apart b lo [] ap c low pos = tt
above_of_Apart b lo (r ∷ rs) ap c low pos = (ground arith, c.1, c.2, c.3)

add_after-Added :
    (node : Bool) (lo : ℕ) (prev b : Region) (rest : List Region)
    → Chain lo (prev ∷ rest)
    → prev.addr < b.addr
    → 0 < b.size
    → b.addr + b.size < 2 ^ 64
    → Apart b (prev ∷ rest)
    → Added node lo b (prev ∷ rest) (add_after node prev b rest)
unfolding add_after
add_after-Added node lo prev b [] c low pos small ap =
    add_between-Added node lo prev b [] c (ground arith) pos small tt
add_after-Added node lo prev b (n ∷ ns) c low pos small ap =
    let rest = add_after-Added node (prev.addr + prev.size + 1) n b ns c.3 in
    if_ind (Added node lo b (prev ∷ n ∷ ns)) (ltb n.addr b.addr) _ _
      (λ e. cons-Added node lo b prev (n ∷ ns) _ c (rest (ground arith) pos small ap.1))
      (λ e.
        add_between-Added node lo prev b (n ∷ ns) c (ground arith) pos small
          (ground arith, c.3.1, c.3.2, c.3.3))

-- A region that is apart from a chain of free ones, and not empty, comes into it, joined with its neighbours;
-- the list stays in order and covers exactly the addresses more. Only where no node is to be had may
-- the list stay as it was.
pub vmm_add_free_region-Added :
    (node : Bool) (lo addr size : ℕ) (l : List Region)
    → lo ≤ addr
    → 0 < size
    → addr + size < 2 ^ 64
    → Chain lo l
    → Apart (region addr size) l
    → Added node lo (region addr size) l (vmm_add_free_region node l addr size)
unfolding vmm_add_free_region add_region
vmm_add_free_region-Added node lo addr size [] h pos small c ap =
    if_ind (Added node lo (region addr size) []) (size == 0) _ _ (λ z. absurd (ground arith))
      (λ nz. new_region-Added node lo (region addr size) [] h pos small tt)
vmm_add_free_region-Added node lo addr size (f ∷ fs) h pos small c ap =
    let b = region addr size in
    if_ind (Added node lo b (f ∷ fs)) (size == 0) _ _ (λ z. absurd (ground arith))
      λ nz.
        if_ind (Added node lo b (f ∷ fs)) (ltb f.addr addr) _ _
          (λ e. add_after-Added node lo f b fs c (ground arith) pos small ap)
          (λ e. new_region-Added node lo b (f ∷ fs) h pos small (ground arith, c.1, c.2, c.3))
