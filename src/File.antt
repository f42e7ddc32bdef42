-- ===== src/File.antt =====
-- driver/file.c: the blocks of a file. `ino` stands for the in-memory inode.
pub mod Blocks
pub mod Grow
pub mod Write
pub mod Own
pub mod Extend
pub mod Extents
pub mod Resize
mod Tests
use yaf.Base.{
  ℕ, zero, suc, ◌+◌, ◌*◌, Bool, true, false, Option, none, some, List, [], ◌∷◌, ◌==◌, ◌&&◌, ◌^◌,
  leb, ltb, if◌then◌else◌, get_elem?, set,
}
use yaf.Base.Word.{add64}
use yaf.Layout.{dno2bid, block_size}
use yaf.Machine.{
  Inode, Kernel, Cmd, Result, ok, err, panic, out_of_fuel, pure, ◌>>=◌, ◌>>◌, get, set_inode,
  mark_inode_dirty, now,
}
use yaf.Bitmap.{get_free_dblock, reserved_dno}
use yaf.Inode.{yaf_iblocks, enospc}

abbrev pub efbig : ℕ
efbig = 27

-- `MAX_FILESIZE`.
abbrev pub max_filesize : ℕ
max_filesize = block_size * yaf_iblocks

-- The first loop of `yaf_get_block`: the index of the first entry that is RESERVED_DNO, or the
-- length of the array.
unfoldable pub count_used : List ℕ → ℕ
count_used [] = 0
count_used (b ∷ bs) = if b == reserved_dno then 0 else suc (count_used bs)

-- `map_bh` with the entry `iblock` of the array: the number of the mapped block.
pub map_block : ℕ → ℕ → Cmd (Result (Option ℕ))
map_block ino iblock s = elim (get_elem? (s.inode ino).i_block iblock) [
  | none ↦ panic
  | some dno ↦ pure (ok (some (dno2bid s.info dno))) s
]

-- `yii->i_block[dbnr] = dno`.
abbrev with_block : Inode → ℕ → ℕ → Inode
with_block i dbnr dno = record i { i_block = set i.i_block dbnr dno }

module _ (k : Kernel) where
  -- The second loop of `yaf_get_block`, from entry `dbnr` on; `false` if no block was free.
  pub fill_blocks : (ino iblock rounds dbnr : ℕ) → Cmd Bool
  fill_blocks ino iblock zero dbnr = λ _. out_of_fuel
  fill_blocks ino iblock (suc rounds) dbnr =
      let rest = fill_blocks ino iblock rounds (dbnr + 1) in
      if leb dbnr iblock
      then (do
        dno ← get_free_dblock k
        if dno == reserved_dno
            then mark_inode_dirty ino >> pure false
            else (do s ← get; set_inode ino (with_block (s.inode ino) dbnr dno); rest))
      else pure true

  -- `yaf_get_block`: `ok none` leaves the buffer unmapped. The loop has at most one round for each
  -- entry and one for the test that ends it.
  pub get_block : (ino iblock : ℕ) → (create : Bool) → Cmd (Result (Option ℕ))
  get_block ino iblock create = if leb yaf_iblocks iblock then pure (err efbig) else (do
    s ← get
    let dbnr = count_used (s.inode ino).i_block
    if leb dbnr iblock
        then if create
          then (do
            filled ← fill_blocks ino iblock (yaf_iblocks + 1) dbnr
            if filled then mark_inode_dirty ino >> map_block ino iblock else pure (err enospc))
          else pure (ok none)
        else map_block ino iblock)

  -- `yaf_write_begin`; `begin` is `block_write_begin` with `yaf_get_block`, and its result the
  -- errno or 0. `pos` is the bit pattern of a `loff_t`; the sum is one too, and the comparison is
  -- signed: a sum with the sign bit is negative and goes through.
  pub write_begin : (pos len : ℕ) → Cmd (Result (Unit {0})) → Cmd (Result (Unit {0}))
  write_begin pos len begin =
      let sum = add64 pos len in
      if ltb max_filesize sum && ltb sum (2 ^ 63) then pure (err enospc) else begin

  -- `yaf_write_end`; `end` is `generic_write_end`, and its result the bit pattern of an `int`,
  -- which C compares with `len` as an unsigned number.
  pub write_end : (ino len : ℕ) → Cmd ℕ → Cmd ℕ
  write_end ino len end = do
    copied ← end
    if ltb copied len then pure copied else (do
      cur ← now k
      s ← get
      set_inode ino (record (s.inode ino) { i_ctime = cur; i_mtime = cur })
      mark_inode_dirty ino
      pure copied)
