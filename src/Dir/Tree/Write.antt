-- ===== src/Dir/Tree/Write.antt =====
-- `yaf_write_inode` of driver/super.c leaves a directory and the inodes of its names as they are.
use yaf.Base.{ℕ, ◌*◌, ◌≤◌, ◌<◌, ◌≡◌, ◌≢◌, ◌∙◌, ap, refl, arith, ne→==}
use yaf.Base.Word.{IsWord}
use yaf.Layout.{
  SbInfo, bits_per_block, inodes_per_block, idxi2bid, idxd2bid, ino2bid, bid_i_min, bid_d_min,
}
use yaf.Layout.Bounds.{bid_ibp_min-eq, bid_dbp_min-eq, bid_i_min-eq, bid_d_min-eq}
use yaf.Layout.Regions.{IsLayout}
use yaf.Machine.{Inode, Sb, Kernel, ok, Returns}
use yaf.Bitmap.{reserved_ino}
use yaf.Bitmap.Used.{data_used, inode_used, data_used-kept, inode_used-kept}
use yaf.Inode.{write_inode}
use yaf.Inode.Persist.{write_inode-done}
use yaf.Dir.Refine.{Dict}
use yaf.Dir.Same.{SameDir, SameDir-IsDir, SameDir-Refines}
use yaf.Dir.Tree.{Child, IsTree, Serves}
use yaf.File.Own.{Keeps-kept, IsOwn-kept}

-- The blocks of both bitmaps stand before the inode section.
bits_before :
    (i : SbInfo) (n : ℕ)
    → IsLayout i
    → IsWord n
    → (n < i.nr_ibp * bits_per_block → idxi2bid i n < bid_i_min i)
      × (n < i.nr_dbp * bits_per_block → idxd2bid i n < bid_i_min i)
unfolding idxi2bid idxd2bid
bits_before i n l w = (
  λ bit. omega (arith, bid_i_min-eq l.info, bid_ibp_min-eq i, l.fits),
  λ bit. omega (arith, bid_i_min-eq l.info, bid_dbp_min-eq l.info, l.fits),
)

-- At most block `p` of the inode section is stored.
record Stored (s : Sb) (p : ℕ) (u : Sb) : Type 0 where
  after_bitmaps : bid_i_min s.info ≤ p
  before_data : p < bid_d_min s.info
  info : u.info ≡ s.info
  inodes : u.inode ≡ s.inode
  kept : (b : ℕ) → b ≢ p → u.buffer b ≡ s.buffer b

module _ {m : Dict} {s u : Sb} {dir p : ℕ} (t : IsTree m s dir) (x : Stored s p u) where
  marks : (q : ℕ) → q < s.info.nr_d → data_used u q ≡ data_used s q
  marks q small =
      let word : IsWord q = omega (arith, t.layout.info.d_word) in
      let before = (bits_before s.info q t.layout word).1 (omega (arith, t.bits)) in
      data_used-kept s u q x.info
        (x.kept (idxd2bid s.info q) (omega (arith, before, x.after_bitmaps)))

  numbers :
      (n : ℕ) → n < s.info.nr_ibp * bits_per_block → IsWord n → inode_used u n ≡ inode_used s n
  numbers n bit word =
      let before = (bits_before s.info n t.layout word).0 bit in
      inode_used-kept s u n x.info
        (x.kept (idxi2bid s.info n) (omega (arith, before, x.after_bitmaps)))

  dir-SameDir : SameDir s dir u
  dir-SameDir = record {
    info = x.info;
    blocks = ap (λ (f : ℕ → Inode). (f dir).i_block) x.inodes;
    size = ap (λ (f : ℕ → Inode). (f dir).i_size) x.inodes;
    bytes = λ b le. x.kept b (omega (arith, x.before_data));
    marks = λ i dno lt at small used. marks dno small ∙ used;
  }

  same_inode : (i : ℕ) → u.inode i ≡ s.inode i
  same_inode i = ap (λ (f : ℕ → Inode). f i) x.inodes

  Child-same : (i : ℕ) → Child s dir i → Child u dir i
  Child-same i y = record {
    other = y.other;
    not_reserved = y.not_reserved;
    in_use = numbers i y.bit y.word ∙ y.in_use;
    bit = rw x.info y.bit;
    word = y.word;
    own =
        IsOwn-kept x.info (same_inode i)
          (λ q held. let (small, used) = y.own.backed q held in marks q small ∙ used) y.own;
    unshared = λ q dirs mine.
        y.unshared q (rw (same_inode dir) at dirs) (Keeps-kept s u i q (same_inode i) mine);
  }

  stored-IsTree : IsTree m u dir
  stored-IsTree = record {
    layout = rw x.info t.layout;
    bits = rw x.info t.bits;
    reserved = numbers reserved_ino (omega (arith, t.layout.has_ibp)) (omega arith) ∙ t.reserved;
    dir_used = numbers dir t.dir_bit t.dir_word ∙ t.dir_used;
    dir_bit = rw x.info t.dir_bit;
    dir_word = t.dir_word;
    is_dir = SameDir-IsDir t.layout.info t.is_dir dir-SameDir;
    refines = SameDir-Refines t.layout.info t.is_dir dir-SameDir t.refines;
    child = λ n i entry e. Child-same i (t.child n i entry e);
    apart = λ n o i j ne_ oe differ ei ej.
        let (ne, free) = t.apart n o i j ne_ oe differ ei ej in
        (
          ne,
          λ q hi_ hj.
              free q (Keeps-kept s u i q (same_inode i) hi_) (Keeps-kept s u j q (same_inode j) hj),
        );
  }

-- The write-back of an inode whose number is in range succeeds and changes none of this.
pub write_inode-IsTree :
    (k : Kernel) (m : Dict) (s : Sb) (dir ino : ℕ)
    → Serves k
    → IsTree m s dir
    → ino < s.info.nr_i * inodes_per_block
    → Returns (λ r u. (r ≡ ok tt) × IsTree m u dir) (write_inode k ino s)
unfolding ino2bid inode_used
write_inode-IsTree k m s dir ino serves t small =
    let p = ino2bid s.info ino in
    rw (write_inode-done k s ino t.layout.info (serves.read s.calls p)) (
      refl,
      stored-IsTree t (record {
        after_bitmaps = omega (arith, bid_i_min-eq t.layout.info, t.layout.fits);
        before_data =
            omega (arith, bid_i_min-eq t.layout.info, bid_d_min-eq t.layout.info, t.layout.fits);
        info = refl;
        inodes = refl;
        kept = λ b ne. rw (ne→== b p ne) refl;
      }),
    )
