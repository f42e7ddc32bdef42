-- ===== src/Inode.antt =====
-- In-memory and on-disk inodes: include/inode.h, `yaf_iget` and `yaf_new_inode` of driver/inode.c,
-- `yaf_write_inode` of driver/super.c. An in-memory inode stands for its number: `iget_locked`
-- gives every caller the same one.
pub mod Codec
pub mod Persist
pub mod Create
mod Tests
use yaf.Base.{
  ℕ, zero, suc, ◌+◌, ◌*◌, ◌/◌, ◌%◌, ◌^◌, Bool, true, false, Option, none, some, List, [], ◌∷◌, ◌==◌,
  leb, if◌then◌else◌, replicate,
}
use yaf.Base.Word.{mul64, u32}
use yaf.Layout.{inodes_per_block, ino2bid, ino2boff}
use yaf.Machine.{
  Block, Inode, yaf_dir_ops, yaf_file_ops, Kernel, Cmd, Result, ok, err, pure, ◌>>=◌, ◌>>◌, get,
  set_buffer, set_inode, mark_buffer_dirty, mark_inode_dirty, bread, now, iget,
}
use yaf.Machine.Bytes.{get32, put32, read_words, write_words}
use yaf.Bitmap.{get_free_inode, put_inode, reserved_ino, reserved_dno}

-- `YAF_IBLOCKS`, and the errno values of the driver.
abbrev pub yaf_iblocks : ℕ
yaf_iblocks = 8

abbrev pub eio : ℕ
eio = 5

abbrev pub enomem : ℕ
enomem = 12

abbrev pub einval : ℕ
einval = 22

abbrev pub enospc : ℕ
enospc = 28

-- `S_ISDIR` and `S_ISREG`: the file type is in bits 12 to 15 of the mode.
unfoldable pub is_dir : ℕ → Bool
is_dir mode = mode / 2 ^ 12 % 16 == 4

unfoldable pub is_reg : ℕ → Bool
is_reg mode = mode / 2 ^ 12 % 16 == 8

-- The tables that `yaf_iget` and `yaf_new_inode` install by the inode's mode.
unfoldable pub install_ops : Inode → Inode
install_ops i =
    if is_dir i.i_mode
    then record i { i_fop = yaf_dir_ops }
    else if is_reg i.i_mode
    then record i { i_fop = yaf_file_ops; a_ops = true }
    else i

-- `Yaf_Inode` at offset `off` of a block, its members in the order of the structure, read into the
-- in-memory inode `i`. `i_mode` is a `umode_t` of 16 bits.
unfoldable pub load_inode : Block → ℕ → Inode → Inode
load_inode b off i = install_ops (record i {
  i_op = true;
  i_mode = get32 b off % 2 ^ 16;
  i_uid = get32 b (off + 4);
  i_gid = get32 b (off + 8);
  i_nlink = get32 b (off + 12);
  i_size = get32 b (off + 16);
  i_atime = get32 b (off + 20);
  i_mtime = get32 b (off + 24);
  i_ctime = get32 b (off + 28);
  i_block = read_words b (off + 32) yaf_iblocks;
})

-- The stores of `yaf_write_inode`, in its order.
unfoldable pub store_inode : Inode → Block → ℕ → Block
store_inode i b off =
    let b1 = put32 b off i.i_mode in
    let b2 = put32 b1 (off + 4) i.i_uid in
    let b3 = put32 b2 (off + 8) i.i_gid in
    let b4 = put32 b3 (off + 12) i.i_nlink in
    let b5 = put32 b4 (off + 20) i.i_atime in
    let b6 = put32 b5 (off + 24) i.i_mtime in
    let b7 = put32 b6 (off + 28) i.i_ctime in
    let b8 = put32 b7 (off + 16) i.i_size in write_words b8 (off + 32) i.i_block

module _ (k : Kernel) where
  -- `yaf_iget`. A failed read leaves the inode locked, which no later step here depends on.
  unfoldable pub yaf_iget : ℕ → Cmd (Result ℕ)
  yaf_iget ino = do
    s ← get
    if leb (mul64 s.info.nr_i inodes_per_block) ino then pure (err einval) else (do
      got ← iget k ino
      if got
          then (do
            bh ← bread k (ino2bid s.info ino)
            elim bh [
              | none ↦ pure (err eio)
              | some p ↦ (do
                t ← get
                set_inode ino (load_inode (t.buffer p) (ino2boff ino) (t.inode ino))
                pure (ok ino))
            ])
          else pure (err enomem))

  -- `yaf_write_inode`.
  pub write_inode : ℕ → Cmd (Result (Unit {0}))
  write_inode ino = do
    s ← get
    bh ← bread k (ino2bid s.info ino)
    elim bh [
      | none ↦ pure (err eio)
      | some p ↦ (do
        t ← get
        set_buffer p (store_inode (t.inode ino) (t.buffer p) (ino2boff ino))
        mark_buffer_dirty p
        pure (ok tt))
    ]

  -- The fields that `yaf_new_inode` overwrites, after `inode_init_owner`, at time `cur`.
  pub init_inode : Inode → Inode → ℕ → ℕ → Inode
  init_inode i dir mode cur = install_ops (record (k.inode_init_owner i dir mode) {
    i_nlink = 1;
    i_size = 0;
    i_atime = cur;
    i_mtime = cur;
    i_ctime = cur;
    i_block = replicate yaf_iblocks reserved_dno;
  })

  -- `yaf_new_inode` in the directory `dir`.
  pub new_inode : ℕ → ℕ → Cmd (Result ℕ)
  new_inode dir mode = do
    ino ← get_free_inode k
    if ino == reserved_ino then pure (err enospc) else (do
      r ← yaf_iget ino
      elim r [
        | err e ↦ put_inode k ino >> pure (err e)
        | ok i ↦ (do
          cur ← now k
          s ← get
          set_inode i (init_inode (s.inode i) (s.inode dir) mode cur)
          mark_inode_dirty i
          pure (ok i))
      ])
