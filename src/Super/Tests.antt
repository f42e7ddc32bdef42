-- ===== src/Super/Tests.antt =====
-- Tests of `mkfs` and of mounting, and their theorems at a device of 64 blocks.
use yaf.Base.{ℕ, [], ◌∷◌, ◌≡◌, ◌≤◌, ◌*◌, refl, arith, true, false, some}
use yaf.Layout.{bits_per_block, inodes_per_block, ino2bid, ino2boff}
use yaf.Layout.Regions.{IsLayout, total_blocks}
use yaf.Machine.{Sb, ok, Returns}
use yaf.Machine.Bytes.{read_words}
use yaf.Machine.Example.{plain, small, mounted}
use yaf.Inode.Codec.{persisted}
use yaf.Mkfs.{
  Disk, mkfs, first_byte, yaf_set_bit, root_ino, root_words, superblock, superblock_info,
}
use yaf.Mkfs.Sizes.{superblock_info-IsLayout}
use yaf.Mkfs.Image.{mkfs-image}
use yaf.Machine.{Cmd, Result, err, pure, ◌>>=◌}
use yaf.Machine.Example.{plain-IsBitops}
use yaf.Bitmap.Used.{inode_used}
use yaf.Dentry.{Name}
use yaf.Dir.{create_entry}
use yaf.Dir.View.{IsDir}
use yaf.Dir.Refine.{Refines, insert}
use yaf.Dir.Empty.{nothing}
use yaf.Super.First.{mkfs-create_entry}
use yaf.Super.{fill_super}
use yaf.Super.Mount.{mkfs-fill_super}

sizes_of_64 : superblock_info 64 ≡ small
unfolding superblock_info
sizes_of_64 = refl

-- On 63 blocks the number of data blocks wraps.
sizes_of_63 : (superblock_info 63).nr_d ≡ 4294967295
unfolding superblock_info
sizes_of_63 = refl

marked_bits : first_byte ≡ some 3
unfolding first_byte yaf_set_bit
marked_bits = refl

superblock_info-IsLayout_example :
    IsLayout (superblock_info 100)
    × (total_blocks (superblock_info 100) ≡ 64)
    × ((superblock_info 100).nr_i * inodes_per_block ≡ 64)
    × ((superblock_info 100).nr_i * inodes_per_block
        ≤ (superblock_info 100).nr_ibp * bits_per_block)
    × ((superblock_info 100).nr_d ≤ (superblock_info 100).nr_dbp * bits_per_block)
superblock_info-IsLayout_example = superblock_info-IsLayout 100 (omega arith) (omega arith)

abbrev blank : Disk
blank = λ bid. λ off. 0

abbrev disk_of_64 :
    (d' : Disk) × (mkfs blank 64 1000 100 ≡ some d')
    × (d' 0 ≡ superblock (superblock_info 64))
    × (read_words (d' (ino2bid (superblock_info 64) root_ino)) (ino2boff root_ino) 16
        ≡ root_words 1000 100)
disk_of_64 = mkfs-image blank 64 1000 100 (omega arith) (omega arith) (omega arith) (omega arith)

-- The buffers of a device that `mkfs` has written.
abbrev formatted : Sb
formatted = record mounted { buffer = disk_of_64.0 }

mkfs-fill_super_example :
    Returns
      (λ r s'.
        (r ≡ ok tt)
        × (s'.info ≡ superblock_info 64)
        × (s'.buffer ≡ formatted.buffer)
        × (persisted (s'.inode root_ino) ≡ root_words 1000 100))
      (fill_super plain true true formatted)
mkfs-fill_super_example =
    mkfs-fill_super plain (λ c b. refl) (λ c i. refl) blank 64 1000 100 formatted (omega arith)
      (omega arith) (omega arith) (omega arith) (disk_of_64.1)

abbrev first_name : Name
first_name = 97 ∷ 98 ∷ []

mkfs-create_entry_example :
    Returns
      (λ r u.
        (ino : ℕ) × (r ≡ ok ino)
        × (inode_used (record formatted { info = superblock_info 64 }) ino ≡ false)
        × (inode_used u ino ≡ true)
        × IsDir u root_ino
        × Refines (insert first_name ino nothing) u root_ino)
      ((do
        r ← fill_super plain true true
        elim r as (λ x. Cmd (Result ℕ)) [
          | err e ↦ pure (err e)
          | ok x ↦ create_entry plain root_ino first_name 0o100644
        ])
        formatted)
mkfs-create_entry_example =
    mkfs-create_entry plain plain-IsBitops (λ c b. refl) (λ c i. refl) blank 64 1000 100 formatted
      first_name 0o100644 (omega arith) (omega arith) (omega arith) (omega arith) (disk_of_64.1)
      (omega arith) (λ c b. refl)
