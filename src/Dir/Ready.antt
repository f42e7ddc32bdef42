-- ===== src/Dir/Ready.antt =====
-- When the directory operations of driver/inode.c succeed.
use yaf.Base.{ℕ, ◌*◌, ◌≤◌, ◌<◌, ◌≡◌, true, false}
use yaf.Base.Word.{IsWord}
use yaf.Layout.{bits_per_block, inodes_per_block, bid_dbp_min}
use yaf.Layout.Regions.{IsLayout}
use yaf.Machine.{Sb, Kernel}
use yaf.Machine.Bits.{IsBitops}
use yaf.Bitmap.{reserved_ino}
use yaf.Bitmap.Used.{data_used, inode_used}

-- What the driver needs to make an entry and its inode: a kernel whose calls succeed, a layout with
-- enough bits, and a free inode number that a bit of the first bitmap block stands for. RESERVED_INO
-- and the directory are marked as used.
pub record Ready (k : Kernel) (s : Sb) (dir : ℕ) : Type 0 where
  pub laws : IsBitops k
  pub read : (c b : ℕ) → k.sb_bread c b ≡ true
  pub memory : (c i : ℕ) → k.iget_locked c i ≡ true
  pub layout : IsLayout s.info
  pub bits : s.info.nr_d ≤ s.info.nr_dbp * bits_per_block
  pub spare_ino : ℕ
  pub spare_bit : spare_ino < bits_per_block
  pub spare_in_range : spare_ino < s.info.nr_i * inodes_per_block
  pub spare_free : inode_used s spare_ino ≡ false
  pub reserved : inode_used s reserved_ino ≡ true
  pub dir_used : inode_used s dir ≡ true
  pub dir_bit : dir < s.info.nr_ibp * bits_per_block
  pub dir_word : IsWord dir

-- A released buffer stays in the cache.
abbrev pub Stays : Kernel → Type 0
Stays k = (c b : ℕ) → k.stays_cached c b ≡ true

-- A free data block that a bit of the first block of the data bitmap stands for, and the buffer of this
-- block stays in the cache when `yaf_get_free_dblock` has released it and then marks it.
pub record SpareBlock (k : Kernel) (s : Sb) : Type 0 where
  pub dno : ℕ
  pub bit : dno < bits_per_block
  pub in_range : dno < s.info.nr_d
  pub free : data_used s dno ≡ false
  pub stays : (c : ℕ) → k.stays_cached c (bid_dbp_min s.info) ≡ true
