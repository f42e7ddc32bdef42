-- ===== src/Mkfs/Tool.antt =====
-- The process `mkfs`, tool/mkfs.c: its system calls and what `main` does when they fail. The device is
-- a function from offsets to bytes. Mkfs.antt has the same sections as whole blocks of a disk.
pub mod Store
pub mod Calls
pub mod Steps
pub mod Written
pub mod Outcome
pub mod Main
mod Tests
use Prim.Native.Nat.{bit_and}
use yaf.Base.{
  ℕ, zero, suc, ◌+◌, ◌-◌, ◌*◌, ◌/◌, List, Bool, true, false, ◌&&◌, Option, some, none, ◌==◌, ltb,
  leb, if◌then◌else◌,
}
use yaf.Base.Word.{add64, mul64, neg64}
use yaf.Layout.{
  SbInfo, block_size, sizeof_inode, bits_per_block, inodes_per_block, idx2bkoff, ino2boff,
}
use yaf.Machine.{Result, ok, err}
use yaf.Machine.Bytes.{write_words}
use yaf.Bitmap.{reserved_ino}
use yaf.Inode.{eio}
use yaf.Mkfs.{root_ino, superblock_info, superblock, first_byte, root_words}
use yaf.Mkfs.Sections.{user_bid_sb_min, user_bid_ibp_min, user_bid_dbp_min, user_bid_i_min}
use yaf.Mkfs.Arguments.{Arg, Arguments, Parsed, Parser, Command, mkfs_parse_arguments}

-- The bytes of the device, the file offset, `errno`, and the number of calls of `lseek` and `write`
-- so far.
pub record Process : Type 0 where
  pub image : ℕ → ℕ
  pub pos : ℕ
  pub errno : ℕ
  pub calls : ℕ

-- The members of `struct stat` that `main` reads.
pub record Stat : Type 0 where
  pub st_mode : ℕ
  pub st_size : ℕ

-- The system: with which errno a call fails, by the number of the call and its arguments. `write`
-- gives the number of the bytes it has written. `blkgetsize64` is the `ioctl` of that name.
pub record Host : Type 0 where
  pub open_error : Arg → Option ℕ
  pub fstat : Result Stat
  pub blkgetsize64 : Result ℕ
  pub lseek_error : ℕ → ℕ → Option ℕ
  pub written : ℕ → ℕ → Result ℕ
  pub le32toh : ℕ → ℕ
  pub geteuid : ℕ
  pub getegid : ℕ

-- The `n` bytes from `pos` on are replaced.
unfoldable pub store : (ℕ → ℕ) → (pos : ℕ) → (ℕ → ℕ) → (n : ℕ) → ℕ → ℕ
store image pos bytes n a = if leb pos a && ltb a (pos + n) then bytes (a - pos) else image a

-- An end of main: what it returns and the process then, the exit of `argp_usage`, or an abort in a
-- failed assertion.
pub data Finish : Type 0 where
  returns : ℕ → Process → Finish
  exits : Finish
  aborts : Finish

module _ (h : Host) where
  -- `lseek(bfd, off, SEEK_SET)`: whether it succeeds.
  unfoldable pub lseek : ℕ → Process → Bool × Process
  lseek off s = elim (h.lseek_error s.calls off) [
    | none ↦ (true, record s { pos = off; calls = s.calls + 1 })
    | some e ↦ (false, record s { errno = e; calls = s.calls + 1 })
  ]

  -- `write` of `len` bytes.
  unfoldable pub write : (bytes : ℕ → ℕ) (len : ℕ) → Process → ℕ × Process
  write bytes len s = elim (h.written s.calls len) [
    | ok n ↦
        (n, record s { image = store s.image s.pos bytes n; pos = s.pos + n; calls = s.calls + 1 })
    | err e ↦ (neg64 1, record s { errno = e; calls = s.calls + 1 })
  ]

  -- The two calls and their error paths, as every section repeats them.
  unfoldable pub write_at : (off : ℕ) (bytes : ℕ → ℕ) (len : ℕ) → Process → ℕ × Process
  write_at off bytes len s =
      let found = lseek off s in
      let ret = write bytes len found.1 in
      if found.0
      then (if ret.0 == len then (0, ret.1) else (neg64 eio, ret.1))
      else (found.1.errno, found.1)

  -- `write_superblock`: on disk are the sizes in little-endian order. Those that it leaves in memory
  -- are the computed ones again.
  unfoldable pub write_superblock : SbInfo → Process → ℕ × Process
  write_superblock i = write_at (mul64 (user_bid_sb_min i) block_size) (superblock i) block_size

  -- The loop that zeroes a section from the block `bid` on, with the number of blocks left.
  unfoldable pub zero_section : (bid i left : ℕ) → Process → ℕ × Process
  zero_section bid i zero s = (0, s)
  zero_section bid i (suc left) s =
      let now = write_at (mul64 (add64 bid i) block_size) (λ o. 0) block_size s in
      let rest = zero_section bid (i + 1) left now.1 in if now.0 == 0 then rest else now

  -- The end of `write_inode_bitmap`, which marks the reserved inode and the root. A failed assertion
  -- of `yaf_set_bit` is `none`.
  unfoldable pub mark_first : SbInfo → Process → Option (ℕ × Process)
  mark_first i s =
      let bid = add64 (user_bid_ibp_min h.le32toh i) (reserved_ino / bits_per_block) in
      let found = lseek (add64 (mul64 bid block_size) (idx2bkoff reserved_ino)) s in
      if found.0
      then elim first_byte [
        | none ↦ none
        | some byte ↦
            let ret = write (λ o. byte) 1 found.1 in
            some (if ret.0 == 1 then (0, ret.1) else (neg64 eio, ret.1))
      ]
      else some (found.1.errno, found.1)

  unfoldable pub write_inode_bitmap : SbInfo → Process → Option (ℕ × Process)
  write_inode_bitmap i s =
      let zeroed = zero_section (user_bid_ibp_min h.le32toh i) 0 (h.le32toh i.nr_ibp) s in
      if zeroed.0 == 0 then mark_first i zeroed.1 else some zeroed

  unfoldable pub write_data_bitmap : SbInfo → Process → ℕ × Process
  write_data_bitmap i = zero_section (user_bid_dbp_min h.le32toh i) 0 (h.le32toh i.nr_dbp)

  unfoldable pub write_inode_blocks : SbInfo → Process → ℕ × Process
  write_inode_blocks i =
      let bid = add64 (user_bid_i_min h.le32toh i) (root_ino / inodes_per_block) in
      write_at (add64 (mul64 bid block_size) (ino2boff root_ino))
        (write_words (λ o. 0) 0 (root_words h.geteuid h.getegid)) sizeof_inode

  -- `write_data_blocks`: the root has no data.
  unfoldable pub write_data_blocks : Process → ℕ × Process
  write_data_blocks s = (0, s)

  -- `if (ret) { ret = errno; goto close_bfd; }`
  unfoldable pub checked : ℕ × Process → (Process → Finish) → Finish
  checked r next = let after = next r.1 in if r.0 == 0 then after else returns r.1.errno r.1

  -- The end of `main`, for a device of `bnr` blocks.
  unfoldable pub write_sections : (bnr : ℕ) → Process → Finish
  write_sections bnr s =
      let i = superblock_info bnr in
      checked (write_superblock i s) λ t. elim (write_inode_bitmap i t) [
        | none ↦ aborts
        | some r ↦ checked r λ u. checked (write_data_bitmap i u) λ v.
            checked (write_inode_blocks i v) λ w. checked (write_data_blocks w) λ x. returns 0 x
      ]

  -- The size of the device, in bytes.
  unfoldable pub device_size : Stat → Result ℕ
  device_size st = if bit_and st.st_mode 0o170000 == 0o060000 then h.blkgetsize64 else ok st.st_size

  -- `main`, once the arguments are parsed.
  unfoldable pub format : Arg → Process → Finish
  format device s = elim (h.open_error device) [
    | some e ↦ returns e (record s { errno = e })
    | none ↦ elim h.fstat [
      | err e ↦ returns e (record s { errno = e })
      | ok st ↦ elim (device_size st) [
        | err e ↦ returns e (record s { errno = e })
        | ok size ↦ write_sections (size / block_size) s
      ]
    ]
  ]

  unfoldable pub main : (Parser → List Arg → Arguments → Parsed) → List Arg → Process → Finish
  main argp_parse argv s = elim (mkfs_parse_arguments argp_parse argv) [
    | Command.usage ↦ exits
    | Command.aborted ↦ aborts
    | Command.ready device ↦ format device s
  ]
