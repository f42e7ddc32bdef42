-- ===== src/Mkfs/Image.antt =====
-- The disk that `main` of tool/mkfs.c leaves.
use yaf.Base.{
  ℕ, zero, suc, ◌+◌, ◌^◌, ◌%◌, ◌≤◌, ◌<◌, ◌≡◌, ◌≢◌, ◌∙◌, refl, arith, ◌==◌, if◌then◌else◌, ne→==,
  some, ==-refl,
}
use yaf.Base.Word.{IsWord, add64}
use yaf.Layout.{SbInfo, bid_ibp_min, bid_dbp_min, idxi2bid, idx2bkoff, ino2bid, ino2boff}
use yaf.Layout.Bounds.{bid_ibp_min-eq, bid_dbp_min-eq, bid_i_min-eq}
use yaf.Layout.Regions.{IsLayout}
use yaf.Machine.{update}
use yaf.Machine.Bytes.{write_words, read_words, read_words-write_words}
use yaf.Bitmap.{reserved_ino}
use yaf.Mkfs.{
  Disk, root_ino, first_byte, zero_blocks, superblock, superblock_info, write_superblock,
  write_inode_bitmap, write_data_bitmap, write_inode_blocks, root_words, mkfs,
}
use yaf.Mkfs.Sizes.{superblock_info-IsLayout}

pub zero_blocks-apart :
    (n : ℕ) (d : Disk) (bid b : ℕ) → bid + n < 2 ^ 64 → b < bid → zero_blocks d bid n b ≡ d b
unfolding zero_blocks
zero_blocks-apart zero d bid b h lt = refl
zero_blocks-apart (suc n) d bid b h lt =
    let next : add64 bid 1 ≡ bid + 1 = omega arith in
    rw
      (
        next,
        zero_blocks-apart n (update d bid (λ o. 0)) (bid + 1) b (omega arith) (omega arith),
        ne→== b bid (omega arith),
      )
      refl

abbrev pub marked : Disk → SbInfo → Disk
marked d i =
    let zeroed = zero_blocks d (bid_ibp_min i) i.nr_ibp in
    let bid = idxi2bid i reserved_ino in
    update zeroed bid (λ o. if o == idx2bkoff reserved_ino then 3 else zeroed bid o)

pub write_inode_bitmap-marked : (d : Disk) (i : SbInfo) → write_inode_bitmap d i ≡ some (marked d i)
unfolding write_inode_bitmap first_byte
write_inode_bitmap-marked d i = refl

module _ (i : SbInfo) (l : IsLayout i) (d : Disk) (uid gid : ℕ) where
  abbrev pub written : Disk
  written = write_inode_blocks (write_data_bitmap (marked (write_superblock d i) i) i) i uid gid

  -- The same, by the blocks that are written.
  pub written-steps :
      let zeroed = zero_blocks (marked (update d 0 (superblock i)) i) (bid_dbp_min i) i.nr_dbp in
      let bid = ino2bid i root_ino in
      update zeroed bid (write_words (zeroed bid) (ino2boff root_ino) (root_words uid gid))
      ≡ written
  unfolding write_inode_blocks write_data_bitmap write_superblock
  written-steps = refl

  not_super : (0 ≢ ino2bid i root_ino) × (0 ≢ idxi2bid i reserved_ino)
  unfolding ino2bid idxi2bid
  not_super = omega (arith, bid_i_min-eq l.info, bid_ibp_min-eq i, l.fits, l.info.ibp_word)

  written-super : written 0 ≡ superblock i
  unfolding write_inode_blocks write_data_bitmap write_superblock
  written-super =
      rw
        (
          ne→== 0 (ino2bid i root_ino) not_super.0,
          zero_blocks-apart i.nr_dbp (marked (write_superblock d i) i) (bid_dbp_min i) 0
              (omega (arith, bid_dbp_min-eq l.info, l.fits)) (omega (arith, bid_dbp_min-eq l.info)),
          ne→== 0 (idxi2bid i reserved_ino) not_super.1,
          zero_blocks-apart i.nr_ibp (write_superblock d i) (bid_ibp_min i) 0
              (omega (arith, bid_ibp_min-eq i, l.fits)) (omega (arith, bid_ibp_min-eq i)),
        )
        refl

  written-root :
      IsWord uid
      → IsWord gid
      → read_words (written (ino2bid i root_ino)) (ino2boff root_ino) 16 ≡ root_words uid gid
  unfolding write_inode_blocks root_words
  written-root u g =
      let same_uid : uid % 4294967296 ≡ uid = omega arith in
      let same_gid : gid % 4294967296 ≡ gid = omega arith in
      rw (==-refl (ino2bid i root_ino)) (
        read_words-write_words (root_words uid gid)
          (write_data_bitmap (marked (write_superblock d i) i) i (ino2bid i root_ino))
          (ino2boff root_ino)
        ∙ rw (same_uid, same_gid) refl)

pub mkfs-written :
    (d : Disk) (bnr uid gid : ℕ) (l : IsLayout (superblock_info bnr))
    → mkfs d bnr uid gid ≡ some (written (superblock_info bnr) l d uid gid)
unfolding mkfs
mkfs-written d bnr uid gid l =
    rw
      (
        write_inode_bitmap-marked (write_superblock d (superblock_info bnr)) (superblock_info bnr),
        mkfs,
      )
      refl

-- On a device of at least 64 blocks, whose number is a 32-bit number, `mkfs` succeeds. The first
-- block is then the superblock of the computed sizes, and the root inode of the caller's user and
-- group stands in the inode section where `yaf_iget` looks for inode 1.
pub mkfs-image :
    (d : Disk) (bnr uid gid : ℕ)
    → 64 ≤ bnr
    → IsWord bnr
    → IsWord uid
    → IsWord gid
    → (d' : Disk) × (mkfs d bnr uid gid ≡ some d')
      × (d' 0 ≡ superblock (superblock_info bnr))
      × (read_words (d' (ino2bid (superblock_info bnr) root_ino)) (ino2boff root_ino) 16
          ≡ root_words uid gid)
unfolding mkfs
mkfs-image d bnr uid gid lo w u g =
    let i = superblock_info bnr in
    let l = (superblock_info-IsLayout bnr lo w).0 in
    (
      written i l d uid gid,
      mkfs-written d bnr uid gid l,
      written-super i l d uid gid,
      written-root i l d uid gid u g,
    )
