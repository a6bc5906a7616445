-- ===== src/Vfs/Descend.antt =====
-- The walk along a path, as a descent through the names of the path.
use nyan_os.Vfs.Reading.{descend, Short, Short-drop, Short-shown, take_name-Taken}
use nyan_os.Base.{
  ℕ, zero, suc, ◌<◌, ◌≤◌, ◌≡◌, ◌≢◌, refl, sym, ap, ◌∙◌, Bool, false, Option, none, some, List, [],
  ◌∷◌, length, length-drop, drop, ◌==◌, arith, Bool-cases, inl, inr, subst,
}
use nyan_os.Paths.{slash, path, resolve_path}
use nyan_os.Paths.Resolve.{Absolute, resolve_path-Resolved}
use nyan_os.Paths.Reduce.{components}
use nyan_os.Vfs.{
  Mount, Tree, Found, endless, skip_slashes, take_name, put_front, enter_node, go_on, on_name,
  at_name, walk_nodes, from_mount, best_mount, vfs_navigate,
}

-- Slashes between names lead nowhere.
record Skipped (t : Tree) (cs out : List ℕ) : Type 0 where
  same : (node : ℕ) → descend t node (components [] cs) ≡ descend t node (components [] out)
  short : Short (components [] out)
  less : length out ≤ length cs
  at_head : (c : ℕ) (rest : List ℕ) → out ≡ c ∷ rest → (c == slash) ≡ false

head_is : {c d : ℕ} {cs ds : List ℕ} → c ∷ cs ≡ d ∷ ds → c ≡ d
head_is {c} e = ap (λ (xs : List ℕ). elim xs as (λ _. ℕ) [ [] ↦ c | y ∷ ys ↦ y ]) e

skip_slashes-Skipped :
    (t : Tree) (cs : List ℕ) → Short (components [] cs) → Skipped t cs (skip_slashes cs)
unfolding skip_slashes components descend Short
skip_slashes-Skipped t [] s = record {
  same = λ node. refl;
  short = s;
  less = omega arith;
  at_head = λ c rest e. absurd (ground arith);
}
skip_slashes-Skipped t (c ∷ cs) s = elim (Bool-cases (c == slash)) [
  | inl skip ↦
      let k = skip_slashes-Skipped t cs (rw skip at s).1 in
      rw skip (record {
        same = λ node. rw skip (k.same node);
        short = k.short;
        less = omega (arith, k.less);
        at_head = k.at_head;
      })
  | inr stays ↦ rw stays (record {
    same = λ node. rw stays refl;
    short = rw stays (rw stays at s);
    less = omega arith;
    at_head = λ d rest e. ap (λ x. x == slash) (sym (head_is e)) ∙ stays;
  })
]

go_on-same : (f g : ℕ → Found) (o : Option ℕ) → ((n : ℕ) → f n ≡ g n) → go_on f o ≡ go_on g o
go_on-same f g none h = refl
go_on-same f g (some n) h = h n

on_name-descend :
    (t : Tree) (walk : List ℕ → ℕ → Found) (node c : ℕ) (name rest : List ℕ) (left : List (List ℕ))
    → ((n : ℕ) → walk rest n ≡ descend t n left)
    → on_name (enter_node t node) walk (some (c ∷ name, rest)) ≡ descend t node ((c ∷ name) ∷ left)
unfolding descend
on_name-descend t walk node c name rest left h =
    let some_char : (length (c ∷ name) == 0) ≡ false = ground arith in
    rw some_char (go_on-same (walk rest) (λ n. descend t n left) (enter_node t node (c ∷ name)) h)

-- A round of the loop is one name of the descent.
at_name-descend :
    (t : Tree) (walk : List ℕ → ℕ → Found) (node : ℕ) (cs : List ℕ)
    → Short (components [] cs)
    → ((c : ℕ) (rest : List ℕ) → cs ≡ c ∷ rest → (c == slash) ≡ false)
    → ((rest : List ℕ) (n : ℕ)
        → length rest < length cs
        → Short (components [] rest)
        → walk rest n ≡ descend t n (components [] rest))
    → at_name t walk node cs ≡ descend t node (components [] cs)
unfolding components descend take_name at_name
at_name-descend t walk node [] s head ih = refl
at_name-descend t walk node (c ∷ cs) s head ih =
    let e = head c cs refl in
    let k = take_name-Taken t cs 126 (c ∷ []) (rw e at s) (omega arith) in
    let taken : take_name 127 (c ∷ cs) ≡ some (c ∷ k.name, k.rest) = rw e (ap (put_front c) k.is) in
    let below =
      on_name-descend t walk node c k.name k.rest k.left
        (λ n. ih k.rest n (omega (arith, k.less)) k.short ∙ k.on n) in
    let whole : components [] (c ∷ cs) ≡ (c ∷ k.name) ∷ k.left = rw e k.names in
    ap (on_name (enter_node t node) walk) taken ∙ below ∙ ap (descend t node) (sym whole)

walk_nodes-descend :
    (t : Tree) (fuel : ℕ) (cs : List ℕ) (node : ℕ)
    → Short (components [] cs)
    → length cs < fuel
    → walk_nodes t fuel cs node ≡ descend t node (components [] cs)
unfolding walk_nodes
walk_nodes-descend t zero cs node s h = absurd (omega arith)
walk_nodes-descend t (suc fuel) cs node s h =
    let k = skip_slashes-Skipped t cs s in
    at_name-descend t (walk_nodes t fuel) node (skip_slashes cs) k.short k.at_head
      (λ rest n less short. walk_nodes-descend t fuel rest n short (omega (arith, less, k.less)))
    ∙ sym (k.same node)

-- Where no name of a path has more than 127 bytes, the walk from the mount point ends, and is the
-- descent from its root by the names that stand behind the mount's path.
pub vfs_navigate-descend :
    (t : Tree) (mounts : List Mount) (filename : List ℕ) (m : Mount)
    → best_mount filename mounts none ≡ some m
    → m.root ≢ 0
    → Short (components [] filename)
    → vfs_navigate t mounts filename
      ≡ descend t m.root (components [] (drop (length m.path) filename))
unfolding vfs_navigate from_mount
vfs_navigate-descend t mounts filename m e ne s =
    let mounted : (m.root == 0) ≡ false = ground (arith, ne) in
    ap (from_mount t filename) e
    ∙ rw mounted (
        walk_nodes-descend t (suc (length filename)) (drop (length m.path) filename) m.root
          (Short-drop (length m.path) filename s)
          (omega (arith, length-drop (length m.path) filename)))

go_on-ends : (f : ℕ → Found) (o : Option ℕ) → ((n : ℕ) → f n ≢ endless) → go_on f o ≢ endless
go_on-ends f none h e = absurd (ground arith)
go_on-ends f (some n) h e = h n e

descend-ends : (t : Tree) (names : List (List ℕ)) (node : ℕ) → descend t node names ≢ endless
unfolding descend
descend-ends t [] node e = absurd (ground arith)
descend-ends t (name ∷ names) node e = elim (Bool-cases (length name == 0)) [
  | inl empty ↦ descend-ends t names node (rw empty at e)
  | inr some_char ↦
      go_on-ends (λ n. descend t n names) (enter_node t node name) (descend-ends t names)
        (rw some_char at e)
]

from_mount-ends :
    (t : Tree) (filename : List ℕ) (o : Option Mount)
    → Short (components [] filename)
    → from_mount t filename o ≢ endless
unfolding from_mount
from_mount-ends t filename none s e = absurd (ground arith)
from_mount-ends t filename (some m) s e = elim (Bool-cases (m.root == 0)) [
  | inl unmounted ↦ absurd (ground (arith, rw unmounted at e))
  | inr mounted ↦ descend-ends t (components [] (drop (length m.path) filename)) m.root (
      sym (
        walk_nodes-descend t (suc (length filename)) (drop (length m.path) filename) m.root
          (Short-drop (length m.path) filename s)
          (omega (arith, length-drop (length m.path) filename)))
      ∙ (rw mounted at e))
]

-- The walk along a path that `resolve_path` gives for an absolute working directory ends, whatever is
-- mounted and whatever the file systems say.
pub vfs_navigate-resolve_path :
    (t : Tree) (mounts : List Mount) (tmp_room stack_room : Bool) (cwd inp_path p : List ℕ)
    → Absolute cwd
    → resolve_path tmp_room stack_room cwd inp_path ≡ path p
    → vfs_navigate t mounts p ≢ endless
unfolding vfs_navigate
vfs_navigate-resolve_path t mounts tmp_room stack_room cwd inp_path p a e =
    let c = (resolve_path-Resolved tmp_room stack_room cwd inp_path p a e).canonical in
    from_mount-ends t p (best_mount p mounts none)
      (subst (λ q. Short (components [] q)) (sym c.is) (Short-shown c.names c.all))
