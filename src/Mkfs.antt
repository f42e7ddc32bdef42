-- ===== src/Mkfs.antt =====
-- `mkfs`, tool/mkfs.c: the functions that write the sections of the disk, whose blocks are a function
-- of their number. Mkfs.Tool has the system calls and their failures.
pub mod Image
pub mod Sizes
pub mod Sections
pub mod Bitmaps
pub mod Arguments
pub mod Tool
mod Tests
use Prim.Native.Nat.{bit_and, bit_or}
use yaf.Base.{
  ℕ, zero, suc, ◌+◌, ◌*◌, ◌/◌, ◌%◌, ◌^◌, Option, some, none, List, [], ◌∷◌, ◌==◌, ◌&&◌, Bool, leb,
  if◌then◌else◌, replicate,
}
use yaf.Base.Word.{u32, add64, sub64}
use yaf.Layout.{
  SbInfo, bits_per_block, inodes_per_block, bid_sb_min, bid_ibp_min, bid_dbp_min, idx2beoff,
  idx2bkoff, idxi2bid, ino2bid, ino2boff,
}
use yaf.Machine.{Block, update}
use yaf.Machine.Bytes.{put32, write_words}
use yaf.Bitmap.{reserved_ino, reserved_dno}
use yaf.Inode.{yaf_iblocks}

-- The blocks of a disk.
abbrev pub Disk : Type 0
Disk = ℕ → Block

abbrev pub root_ino : ℕ
root_ino = 1

-- `align_down` and `idiv_ceil` of `uint32_t`.
abbrev pub align_down : ℕ → ℕ → ℕ
align_down x a = x / a * a

abbrev pub idiv_ceil : ℕ → ℕ → ℕ
idiv_ceil a b = u32 (a / b + (if a % b == 0 then 0 else 1))

-- The sizes that `write_superblock` computes for a device of `bnr` blocks.
unfoldable pub superblock_info : ℕ → SbInfo
superblock_info bnr =
    let aligned = align_down (u32 bnr) inodes_per_block in
    let nr_ibp = idiv_ceil aligned bits_per_block in
    let nr_dbp = idiv_ceil aligned bits_per_block in
    let nr_i = idiv_ceil aligned inodes_per_block in
    record {
      nr_ibp = nr_ibp;
      nr_dbp = nr_dbp;
      nr_i = nr_i;
      nr_d = u32 (sub64 (sub64 (sub64 (sub64 aligned 1) nr_i) nr_ibp) nr_dbp);
    }

-- The magic string "yaf" and its terminating zero, at an offset of the superblock, and `n` times
-- from an offset on.
unfoldable pub put_magic : Block → ℕ → Block
put_magic b off o =
    if o == off
    then 121
    else if o == off + 1
    then 97
    else if o == off + 2
    then 102
    else if o == off + 3
    then 0
    else b o

unfoldable pub fill_magic : Block → ℕ → ℕ → Block
fill_magic b off zero = b
fill_magic b off (suc n) = fill_magic (put_magic b off) (off + 4) n

-- How often the magic string fits behind the sizes: `sizeof(ysb->magic) / sizeof(MAGIC)`.
abbrev pub magic_count : ℕ
magic_count = 1020

-- `Yaf_Superblock` with the given sizes.
unfoldable pub superblock : SbInfo → Block
superblock i =
    let b1 = put32 (λ o. 0) 0 i.nr_ibp in
    let b2 = put32 b1 4 i.nr_dbp in
    let b3 = put32 b2 8 i.nr_i in let b4 = put32 b3 12 i.nr_d in fill_magic b4 16 magic_count

unfoldable pub write_superblock : Disk → SbInfo → Disk
write_superblock d i = update d bid_sb_min (superblock i)

-- The loops that zero a bitmap section: `n` blocks from `bid` on.
unfoldable pub zero_blocks : Disk → (bid n : ℕ) → Disk
zero_blocks d bid zero = d
zero_blocks d bid (suc n) = zero_blocks (update d bid (λ o. 0)) (add64 bid 1) n

-- `yaf_set_bit` of include/bitmap.h: `none` is a failed assertion.
unfoldable pub yaf_set_bit : ℕ → ℕ → Option ℕ
yaf_set_bit byte off =
    if leb off 7 && bit_and byte (2 ^ off) == 0 then some (bit_or byte (2 ^ off)) else none

-- The byte of the reserved and the root inode in the inode bitmap.
unfoldable pub first_byte : Option ℕ
unfolding yaf_set_bit idx2beoff
first_byte = elim (yaf_set_bit 0 (idx2beoff reserved_ino)) [
  | none ↦ none
  | some byte ↦ yaf_set_bit byte (idx2beoff root_ino)
]

unfoldable pub write_inode_bitmap : Disk → SbInfo → Option Disk
unfolding first_byte
write_inode_bitmap d i =
    let zeroed = zero_blocks d (bid_ibp_min i) i.nr_ibp in
    let bid = idxi2bid i reserved_ino in
    elim first_byte [
      | none ↦ none
      | some byte ↦
          some (update zeroed bid (λ o. if o == idx2bkoff reserved_ino then byte else zeroed bid o))
    ]

unfoldable pub write_data_bitmap : Disk → SbInfo → Disk
write_data_bitmap d i = zero_blocks d (bid_dbp_min i) i.nr_dbp

-- `S_IFDIR | ACCESSPERMS`.
abbrev pub root_mode : ℕ
root_mode = 0o40777

-- The members of the root inode; `uid` and `gid` are what `geteuid` and `getegid` give.
unfoldable pub root_words : (uid gid : ℕ) → List ℕ
root_words uid gid = root_mode ∷ uid ∷ gid ∷ 1 ∷ 0 ∷ 0 ∷ 0 ∷ 0 ∷ replicate yaf_iblocks reserved_dno

unfoldable pub write_inode_blocks : Disk → SbInfo → (uid gid : ℕ) → Disk
write_inode_blocks d i uid gid =
    let bid = ino2bid i root_ino in
    update d bid (write_words (d bid) (ino2boff root_ino) (root_words uid gid))

-- `main`, for a device of `bnr` blocks.
unfoldable pub mkfs : Disk → (bnr uid gid : ℕ) → Option Disk
mkfs d bnr uid gid =
    let i = superblock_info bnr in
    elim (write_inode_bitmap (write_superblock d i) i) [
      | none ↦ none
      | some marked ↦ some (write_inode_blocks (write_data_bitmap marked i) i uid gid)
    ]
