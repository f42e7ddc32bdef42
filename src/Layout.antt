-- ===== src/Layout.antt =====
-- The partition layout: include/super.h (`Yaf_Sb_Info`), include/fs.h (the `BID_*` functions) and
-- the conversions of include/bitmap.h and include/inode.h from numbers to blocks and offsets.
-- All of them are `unsigned long` arithmetic, whose wrap is written out.
pub mod Bounds
pub mod Regions
mod Tests
use yaf.Base.{ℕ, ◌+◌, ◌-◌, ◌*◌, ◌/◌, ◌%◌}
use yaf.Base.Word.{IsWord, add64, sub64, mul64, u32}

-- `Yaf_Sb_Info`, four `uint32_t`.
pub record SbInfo : Type 0 where
  pub nr_ibp : ℕ
  pub nr_dbp : ℕ
  pub nr_i : ℕ
  pub nr_d : ℕ

-- `YAF_BLOCK_SIZE`, `BITS_PER_BLOCK`, `sizeof(Yaf_Inode)`, `INODES_PER_BLOCK`.
abbrev pub block_size : ℕ
block_size = 4 * 1024

abbrev pub bits_per_byte : ℕ
bits_per_byte = 8

abbrev pub bits_per_block : ℕ
bits_per_block = block_size * bits_per_byte

abbrev pub sizeof_inode : ℕ
sizeof_inode = 64

abbrev pub inodes_per_block : ℕ
inodes_per_block = block_size / sizeof_inode

abbrev pub bid_min : ℕ
bid_min = 0

abbrev pub bid_sb_min : ℕ
bid_sb_min = bid_min

abbrev pub bid_sb_max : ℕ
bid_sb_max = sub64 (add64 bid_sb_min 1) 1

unfoldable pub bid_ibp_min : SbInfo → ℕ
bid_ibp_min i = add64 bid_sb_max 1

unfoldable pub bid_ibp_max : SbInfo → ℕ
unfolding bid_ibp_min
bid_ibp_max i = sub64 (add64 (bid_ibp_min i) i.nr_ibp) 1

unfoldable pub bid_dbp_min : SbInfo → ℕ
unfolding bid_ibp_max
bid_dbp_min i = add64 (bid_ibp_max i) 1

unfoldable pub bid_dbp_max : SbInfo → ℕ
unfolding bid_dbp_min
bid_dbp_max i = sub64 (add64 (bid_dbp_min i) i.nr_dbp) 1

unfoldable pub bid_i_min : SbInfo → ℕ
unfolding bid_dbp_max
bid_i_min i = add64 (bid_dbp_max i) 1

unfoldable pub bid_i_max : SbInfo → ℕ
unfolding bid_i_min
bid_i_max i = sub64 (add64 (bid_i_min i) i.nr_i) 1

unfoldable pub bid_d_min : SbInfo → ℕ
unfolding bid_i_max
bid_d_min i = add64 (bid_i_max i) 1

unfoldable pub bid_d_max : SbInfo → ℕ
unfolding bid_d_min
bid_d_max i = sub64 (add64 (bid_d_min i) i.nr_d) 1

-- `IDX2BEOFF`, `IDX2BKOFF`: bit within its byte, byte within its block.
unfoldable pub idx2beoff : ℕ → ℕ
idx2beoff idx = idx % bits_per_byte

unfoldable pub idx2bkoff : ℕ → ℕ
idx2bkoff idx = idx % bits_per_block / bits_per_byte

-- `IDXI2BID`, `IDXD2BID`: the block that holds a bit of the inode or the data bitmap.
unfoldable pub idxi2bid : SbInfo → ℕ → ℕ
idxi2bid i idx = add64 (bid_ibp_min i) (idx / bits_per_block)

unfoldable pub idxd2bid : SbInfo → ℕ → ℕ
idxd2bid i idx = add64 (bid_dbp_min i) (idx / bits_per_block)

-- `INO2BID`, `INO2BOFF`, `DNO2BID`.
unfoldable pub ino2bid : SbInfo → ℕ → ℕ
ino2bid i ino = add64 (bid_i_min i) (ino / inodes_per_block)

unfoldable pub ino2boff : ℕ → ℕ
ino2boff ino = ino % inodes_per_block * sizeof_inode

unfoldable pub dno2bid : SbInfo → ℕ → ℕ
dno2bid i dno = add64 (bid_d_min i) dno

-- Every field is a `uint32_t`.
pub record IsInfo (i : SbInfo) : Type 0 where
  pub ibp_word : IsWord i.nr_ibp
  pub dbp_word : IsWord i.nr_dbp
  pub i_word : IsWord i.nr_i
  pub d_word : IsWord i.nr_d
