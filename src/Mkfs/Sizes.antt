-- ===== src/Mkfs/Sizes.antt =====
-- The sizes that `write_superblock` of tool/mkfs.c computes.
use yaf.Base.{ℕ, ◌*◌, ◌/◌, ◌%◌, ◌+◌, ◌≤◌, ◌<◌, ◌≡◌, arith, refl}
use yaf.Base.Word.{IsWord, u32, sub64}
use yaf.Layout.{SbInfo, bits_per_block, inodes_per_block}
use yaf.Layout.Regions.{IsLayout, total_blocks}
use yaf.Mkfs.{superblock_info, idiv_ceil}

idiv_ceil-bounds_64 :
    (a : ℕ) → IsWord a → (a ≤ idiv_ceil a 64 * 64) × (idiv_ceil a 64 * 64 < a + 64)
idiv_ceil-bounds_64 a w = ground arith

idiv_ceil-bounds_32768 :
    (a : ℕ) → IsWord a → (a ≤ idiv_ceil a 32768 * 32768) × (idiv_ceil a 32768 * 32768 < a + 32768)
idiv_ceil-bounds_32768 a w = ground arith

-- The number of data blocks that is left of `a` blocks.
data_left :
    (a ni nb : ℕ)
    → IsWord a
    → 64 ≤ a
    → (a ≤ ni * 64) × (ni * 64 < a + 64)
    → (a ≤ nb * 32768) × (nb * 32768 < a + 32768)
    → u32 (sub64 (sub64 (sub64 (sub64 a 1) ni) nb) nb) + nb + nb + ni + 1 ≡ a
data_left a ni nb w lo i b = omega arith

sizes-IsLayout :
    (a ni nb nd : ℕ)
    → IsWord a
    → 64 ≤ a
    → (a ≤ ni * 64) × (ni * 64 < a + 64)
    → (a ≤ nb * 32768) × (nb * 32768 < a + 32768)
    → nd + nb + nb + ni + 1 ≡ a
    → a % 64 ≡ 0
    → (i : SbInfo) → i ≡ record { nr_ibp = nb; nr_dbp = nb; nr_i = ni; nr_d = nd }
    → IsLayout i
      × (total_blocks i ≡ a)
      × (i.nr_i * inodes_per_block ≡ a)
      × (i.nr_i * inodes_per_block ≤ i.nr_ibp * bits_per_block)
      × (i.nr_d ≤ i.nr_dbp * bits_per_block)
sizes-IsLayout a ni nb nd w lo hi hb left m i e = rw e (omega arith)

-- For a device of at least 64 blocks, whose number is a 32-bit number, the sizes make a layout: the
-- sections take the largest multiple of 64 blocks that the device has, there are as many inodes as
-- these blocks, the inode bitmap has a bit for every inode and the data bitmap one for every data
-- block.
pub superblock_info-IsLayout :
    (bnr : ℕ)
    → 64 ≤ bnr
    → IsWord bnr
    → IsLayout (superblock_info bnr)
      × (total_blocks (superblock_info bnr) ≡ bnr / 64 * 64)
      × ((superblock_info bnr).nr_i * inodes_per_block ≡ bnr / 64 * 64)
      × ((superblock_info bnr).nr_i * inodes_per_block
          ≤ (superblock_info bnr).nr_ibp * bits_per_block)
      × ((superblock_info bnr).nr_d ≤ (superblock_info bnr).nr_dbp * bits_per_block)
unfolding superblock_info
superblock_info-IsLayout bnr lo w =
    let word : bnr / 64 * 64 < 4294967296 = omega arith in
    let at_least : 64 ≤ bnr / 64 * 64 = omega arith in
    let same : u32 bnr ≡ bnr = omega arith in
    let a = idiv_ceil-bounds_64 (bnr / 64 * 64) word in
    let b = idiv_ceil-bounds_32768 (bnr / 64 * 64) word in
    sizes-IsLayout (bnr / 64 * 64) _ _ _ word at_least a b (data_left _ _ _ word at_least a b)
      (omega arith) (superblock_info bnr) (rw same refl)

-- There is a data block, and there are inodes behind the root.
pub superblock_info-data :
    (bnr : ℕ)
    → 64 ≤ bnr
    → IsWord bnr
    → (0 < (superblock_info bnr).nr_d) × (64 ≤ (superblock_info bnr).nr_i * inodes_per_block)
unfolding superblock_info
superblock_info-data bnr lo w =
    let word : bnr / 64 * 64 < 4294967296 = omega arith in
    let same : u32 bnr ≡ bnr = omega arith in
    let inodes = idiv_ceil-bounds_64 (bnr / 64 * 64) word in
    let bits = idiv_ceil-bounds_32768 (bnr / 64 * 64) word in
    let left =
      data_left (bnr / 64 * 64) (idiv_ceil (bnr / 64 * 64) 64) (idiv_ceil (bnr / 64 * 64) 32768)
        word (omega arith) inodes bits in
    rw same (omega (arith, inodes, bits, left), omega (arith, inodes))
