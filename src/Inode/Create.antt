-- ===== src/Inode/Create.antt =====
-- What `yaf_new_inode` promises, and what it does when the inode bitmap is full.
use yaf.Base.{
  ℕ, ◌*◌, ◌≤◌, ◌<◌, ◌≡◌, ◌≢◌, ap, refl, true, false, arith, ◌==◌, le→leb, ==-refl, ne→==,
  if◌then◌else◌, replicate,
}
use yaf.Base.Word.{IsWord, mul64, neg32}
use yaf.Layout.{IsInfo, bits_per_block, inodes_per_block, bid_ibp_min, idxi2bid}
use yaf.Layout.Regions.{IsLayout}
use yaf.Machine.{Inode, Sb, Kernel, ok, err, Returns, done, panic}
use yaf.Machine.Bits.{IsBitops}
use yaf.Machine.Rules.{Returns-bind, Returns-panic}
use yaf.Bitmap.{get_free_inode, reserved_ino, reserved_dno, enoent}
use yaf.Bitmap.Used.{inode_used}
use yaf.Bitmap.Alloc.{get_free_inode-Allocated, get_free_inode-Exhausted}
use yaf.Bitmap.Cycle.{Allocated-le}
use yaf.Bitmap.Free.{put_inode-unreadable}
use yaf.Inode.{yaf_iget, new_inode, init_inode, install_ops, yaf_iblocks, einval}
use yaf.Inode.Persist.{yaf_iget-done}

-- Number `ino` was unused, is now the one that was marked, and its in-memory inode is that of an
-- empty file, marked dirty for write-back; other inodes and blocks are as before.
pub record Fresh (s : Sb) (ino : ℕ) (s' : Sb) : Type 0 where
  pub not_reserved : ino ≢ reserved_ino
  pub was_free : inode_used s ino ≡ false
  pub in_first_block : ino < bits_per_block
  pub marked : (m : ℕ) → IsWord m → inode_used s' m ≡ (if m == ino then true else inode_used s m)
  pub nlink : (s'.inode ino).i_nlink ≡ 1
  pub size : (s'.inode ino).i_size ≡ 0
  pub blocks : (s'.inode ino).i_block ≡ replicate yaf_iblocks reserved_dno
  pub dirty : s'.inode_dirty ino ≡ true
  pub others : (j : ℕ) → j ≢ ino → s'.inode j ≡ s.inode j
  pub same_info : s'.info ≡ s.info
  pub buffers : (b : ℕ) → b ≢ bid_ibp_min s.info → s'.buffer b ≡ s.buffer b

init_inode-empty :
    (k : Kernel) (i dir : Inode) (mode cur : ℕ)
    → ((init_inode k i dir mode cur).i_nlink ≡ 1)
      × ((init_inode k i dir mode cur).i_size ≡ 0)
      × ((init_inode k i dir mode cur).i_block ≡ replicate yaf_iblocks reserved_dno)
unfolding init_inode install_ops
init_inode-empty k i dir mode cur = ground arith

module _ {k : Kernel} (laws : IsBitops k) (s : Sb) (l : IsLayout s.info)
    (read : (c b : ℕ) → k.sb_bread c b ≡ true) where
  -- If all blocks can be read, there is memory, the first bitmap block has a clear bit below the
  -- number of inodes and RESERVED_INO is marked, then `yaf_new_inode` returns a number that was
  -- unused and is not RESERVED_INO, marks it and no other, and makes its in-memory inode that of an
  -- empty file, marked dirty; every other in-memory inode and all blocks but the bitmap's stay as
  -- they were.
  pub new_inode-Fresh :
      (dir mode n : ℕ)
      → n < bits_per_block
      → n < s.info.nr_i * inodes_per_block
      → inode_used s n ≡ false
      → inode_used s reserved_ino ≡ true
      → ((c i : ℕ) → k.iget_locked c i ≡ true)
      → Returns (λ r s'. (ino : ℕ) × (r ≡ ok ino) × Fresh s ino s') (new_inode k dir mode s)
  unfolding new_inode inode_used
  new_inode-Fresh dir mode n h hi free taken mem =
      Returns-bind _ (get_free_inode k s) _ (get_free_inode-Allocated laws s l n h free (read _ _))
        λ ino t al.
          let small = Allocated-le inode_used n al free in
          let ne : ino ≢ 0 = λ e. cc (al.was_free, ap (inode_used s) e, taken) in
          let fit : IsInfo t.info = rw al.same_info l.info in
          let room : ino < t.info.nr_i * inodes_per_block = rw al.same_info (omega arith) in
          rw (ne→== ino 0 ne, yaf_iget-done k t ino fit room (mem _ _) (read _ _))
            (
              ino,
              refl,
              record {
                not_reserved = ne;
                was_free = al.was_free;
                in_first_block = omega arith;
                marked = λ m w. al.marked m w;
                nlink = rw (==-refl ino) ((init_inode-empty k _ _ mode _).0);
                size = rw (==-refl ino) ((init_inode-empty k _ _ mode _).1);
                blocks = rw (==-refl ino) ((init_inode-empty k _ _ mode _).2);
                dirty = rw (==-refl ino);
                others = λ j nj. rw (ne→== j ino nj) (ap (λ (f : ℕ → Inode). f j) al.same_inodes);
                same_info = al.same_info;
                buffers = al.others;
              },
            )

-- `yaf_iget` refuses what `yaf_get_free_inode` returns for a full bitmap.
yaf_iget-einval :
    (k : Kernel) (s : Sb) (ino : ℕ)
    → IsInfo s.info
    → s.info.nr_i * inodes_per_block ≤ ino
    → yaf_iget k ino s ≡ done (err einval) s
unfolding yaf_iget
yaf_iget-einval k s ino w h =
    rw (le→leb (mul64 s.info.nr_i inodes_per_block) ino (omega (arith, w.i_word)))

module _ {k : Kernel} (laws : IsBitops k) (s : Sb) (l : IsLayout s.info) where
  -- If all bits of the first inode bitmap block are set, the file system has at most `2 ^ 32 - 2`
  -- inodes, the bitmap block can be read, and the block that would hold bit 4294967294 of the
  -- bitmap cannot, then `yaf_new_inode` panics instead of returning -ENOSPC.
  pub new_inode-full :
      (dir mode : ℕ)
      → s.info.nr_i * inodes_per_block ≤ neg32 enoent
      → ((n : ℕ) → n < bits_per_block → inode_used s n ≡ true)
      → k.sb_bread s.calls (bid_ibp_min s.info) ≡ true
      → ((c : ℕ) → k.sb_bread c (idxi2bid s.info (neg32 enoent)) ≡ false)
      → new_inode k dir mode s ≡ panic
  unfolding new_inode
  new_inode-full dir mode few full read unread =
      Returns-panic (get_free_inode k s) _ (get_free_inode-Exhausted laws s l full read) λ n t ex.
        let fit : IsInfo t.info = rw ex.same_info l.info in
        let beyond : t.info.nr_i * inodes_per_block ≤ n = rw (ex.same_info, ex.code) few in
        let ne : n ≢ 0 = omega (arith, ex.code) in
        let gone : k.sb_bread t.calls (idxi2bid t.info n) ≡ false =
          rw (ex.same_info, ex.code) (unread t.calls) in
        rw (ne→== n 0 ne, yaf_iget-einval k t n fit beyond, put_inode-unreadable k t n gone)
