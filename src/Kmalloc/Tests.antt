-- ===== src/Kmalloc/Tests.antt =====
-- A heap of one page with a block taken out of it, and the theorems at its states.
use nyan_os.Base.{◌≡◌, refl, some, none, [], ◌∷◌, arith}
use nyan_os.Regions.{Inserted, region, Chain}
use nyan_os.Kmalloc.{Heap, insert_block, kfree_unlocked, block, kmalloc}
use nyan_os.Kmalloc.Insert.{insert_block-Inserted}
use nyan_os.Kmalloc.Answers.{Request, kmalloc-Request, kfree_unlocked-kmalloc}

abbrev no_heap : Heap
no_heap = record { free_list = []; header_size = λ i. 0 }

-- A page at 0x10_0000, and then 100 bytes, which are rounded up to 112 and a header.
one_block : (kmalloc (some 0x10_0000) no_heap 100).0 ≡ block 0x10_0010
unfolding kmalloc
one_block = refl

abbrev used_heap : Heap
used_heap = record {
  free_list = region 0x10_0080 0xf80 ∷ region 0x20_0000 0x40 ∷ [];
  header_size = λ i. 128;
}

used-Chain : Chain 0 used_heap.free_list
used-Chain = omega arith

kmalloc-Request_example : Request none used_heap 40 (kmalloc none used_heap 40)
kmalloc-Request_example = kmalloc-Request none used_heap 40 used-Chain tt (omega arith)

insert_block-Inserted_example :
    Inserted 0
      (region 0x10_0000 0x80)
      used_heap.free_list
      (insert_block (region 0x10_0000 0x80) used_heap.free_list)
insert_block-Inserted_example =
    insert_block-Inserted (region 0x10_0000 0x80) used_heap.free_list used-Chain (omega arith)
      (omega arith) (omega arith)

-- 40 bytes, which take 64 with their header, split off the first block.
block_split : (kmalloc none used_heap 40).0 ≡ block 0x10_0090
unfolding kmalloc
block_split = refl

kfree_unlocked-kmalloc_example :
    (kfree_unlocked (kmalloc none used_heap 40).1 0x10_0090).free_list ≡ used_heap.free_list
kfree_unlocked-kmalloc_example =
    kfree_unlocked-kmalloc used_heap 40 0x10_0090 used-Chain (omega arith) block_split
