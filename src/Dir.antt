-- ===== src/Dir.antt =====
-- The directory operations of driver/inode.c. `dir` and `ino` stand for in-memory inodes; a VFS
-- dentry is its name, and the inode that `d_inode` gives is an argument.
pub mod Apart
pub mod View
pub mod Refine
pub mod Insert
pub mod Ready
pub mod Fill
pub mod Grow
pub mod Append
pub mod Slots
pub mod Create
pub mod Same
pub mod Find
pub mod Lookup
pub mod Full
pub mod Empty
pub mod Remove
pub mod Release
pub mod Frame
pub mod Drop
pub mod Delete
pub mod Tree
pub mod Sample
mod Tests
mod MapTests
use Prim.Native.Nat.{bit_or}
use yaf.Base.{
  ℕ, zero, suc, ◌+◌, ◌*◌, ◌/◌, ◌%◌, Bool, true, false, Option, none, some, ◌==◌, ltb, leb,
  if◌then◌else◌, get_elem?, set, length,
}
use yaf.Base.Word.{neg64}
use yaf.Layout.{block_size, dno2bid}
use yaf.Machine.{
  Inode, Kernel, Cmd, Result, ok, err, panic, out_of_fuel, pure, ◌>>=◌, ◌>>◌, get, assert,
  set_buffer, set_inode, mark_buffer_dirty, mark_inode_dirty, bread, now,
}
use yaf.Machine.Bytes.{put32}
use yaf.Bitmap.{enoent, reserved_ino, reserved_dno, get_free_dblock, put_dblock, put_inode}
use yaf.Inode.{yaf_iblocks, eio, enospc, yaf_iget, new_inode}
use yaf.Dentry.{
  Name, dentry_size, dentry_name_len, dentrys_per_block, d_ino, is_unused, has_name, write_dentry,
  hit, miss, scan_dir,
}

abbrev pub enametoolong : ℕ
enametoolong = 36

abbrev pub enotempty : ℕ
enotempty = 39

-- `MAX_DENTRYS`.
abbrev pub max_dentrys : ℕ
max_dentrys = yaf_iblocks * dentrys_per_block

-- Rounds for a loop over the blocks of `size` bytes, and one for the test that ends it.
abbrev pub rounds_for : ℕ → ℕ
rounds_for size = size / block_size + 2

-- `inode_set_atime_to_ts`, `inode_set_mtime_to_ts` and `inode_set_ctime_to_ts` to one time.
abbrev pub touch : ℕ → Inode → Inode
touch cur i = record i { i_atime = cur; i_mtime = cur; i_ctime = cur }

-- `yii->i_block[index]`: out of bounds is a panic.
abbrev pub block_at : ℕ → ℕ → Cmd ℕ
block_at ino index s = elim (get_elem? (s.inode ino).i_block index) [
  | none ↦ panic
  | some dno ↦ pure dno s
]

module _ (k : Kernel) where
  -- `sb_bread` of the block of `dir` that holds the byte at `doff`.
  abbrev pub bread_at : ℕ → ℕ → Cmd (Option ℕ)
  bread_at dir doff = do
    dno ← block_at dir (doff / block_size)
    s ← get
    bread k (dno2bid s.info dno)

  -- The part of `yaf_get_free_dentry` that gives a full last block a successor; `false` if the disk
  -- is full.
  pub extend_dir : (dir doff : ℕ) → Cmd Bool
  extend_dir dir doff = do
    s ← get
    if (s.inode dir).i_size % block_size == 0
        then (do
          dno ← get_free_dblock k
          if dno == reserved_dno then pure false else (do
            old ← block_at dir (doff / block_size)
            assert (old == reserved_dno)
            t ← get
            set_inode dir (record (t.inode dir) {
              i_block = set (t.inode dir).i_block (doff / block_size) dno;
            })
            pure true))
        else pure true

  -- The end of `yaf_get_free_dentry`: the new entry at `doff` is written as unused.
  pub append_dentry : (dir doff : ℕ) → Cmd ℕ
  append_dentry dir doff = do
    bh ← bread_at dir doff
    elim bh [
      | none ↦ (λ _. panic)
      | some p ↦ (do
        s ← get
        set_buffer p (put32 (s.buffer p) (doff % block_size) reserved_ino)
        mark_buffer_dirty p
        cur ← now k
        t ← get
        set_inode dir (touch cur (record (t.inode dir) { i_size = doff + dentry_size }))
        mark_inode_dirty dir
        pure doff)
    ]

  -- `yaf_get_free_dentry`: the bit pattern of its `int64_t` result.
  unfoldable pub get_free_dentry : ℕ → Cmd ℕ
  get_free_dentry dir = do
    s ← get
    r ← scan_dir k is_unused dir (rounds_for (s.inode dir).i_size) 0
    elim r [
      | err e ↦ pure (neg64 e)
      | ok (hit doff) ↦ pure doff
      | ok (miss doff) ↦ (do
        t ← get
        if (t.inode dir).i_size / dentry_size == max_dentrys then pure (neg64 enospc) else (do
          extended ← extend_dir dir doff
          if extended then append_dentry dir doff else pure (neg64 enospc)))
    ]

  -- The end of `_yaf_create`, once the block `p` of the entry is read.
  pub fill_dentry : (dir p doff : ℕ) → Name → ℕ → Cmd (Result ℕ)
  fill_dentry dir p doff name mode = do
    r ← new_inode k dir mode
    elim r [
      | err e ↦ pure (err e)
      | ok ino ↦ (do
        s ← get
        set_buffer p (write_dentry (s.buffer p) (doff % block_size) ino name (length name))
        mark_buffer_dirty p
        cur ← now k
        t ← get
        set_inode dir
            (record (touch cur (t.inode dir)) { i_nlink = k.inc_nlink (t.inode dir).i_nlink })
        mark_inode_dirty dir
        pure (ok ino))
    ]

  -- `_yaf_create`; the result is the inode that the dentry is given. `doff` is a `uint64_t`, so the
  -- test for a negative offset is one of an unsigned number.
  unfoldable pub create_entry : ℕ → Name → ℕ → Cmd (Result ℕ)
  create_entry dir name mode =
      if ltb dentry_name_len (length name) then pure (err enametoolong) else (do
        doff ← get_free_dentry dir
        if ltb doff 0 then pure (err eio) else (do
          bh ← bread_at dir doff
          elim bh [ none ↦ pure (err eio) | some p ↦ fill_dentry dir p doff name mode ]))

  -- `yaf_mkdir` and `yaf_create`.
  pub mkdir : ℕ → Name → ℕ → Cmd (Result ℕ)
  mkdir dir name mode = create_entry dir name (bit_or mode 0o040000)

  pub create : ℕ → Name → ℕ → Cmd (Result ℕ)
  create dir name mode = create_entry dir name (bit_or mode 0o100000)

  -- `_yaf_lookup`: the offset of the entry.
  unfoldable pub lookup_offset : ℕ → Name → Cmd (Result ℕ)
  lookup_offset dir name =
      if ltb dentry_name_len (length name) then pure (err enametoolong) else (do
        s ← get
        r ← scan_dir k (has_name name) dir (rounds_for (s.inode dir).i_size) 0
        elim r [
          | err e ↦ pure (err e)
          | ok (hit doff) ↦ pure (ok doff)
          | ok (miss doff) ↦ pure (err enoent)
        ])

  -- The end of `yaf_lookup`: `d_add` gives the dentry this inode, or none.
  pub add_dentry : ℕ → Option ℕ → Cmd (Result (Option ℕ))
  add_dentry dir found = do
    cur ← now k
    s ← get
    set_inode dir (record (s.inode dir) { i_atime = cur })
    mark_inode_dirty dir
    pure (ok found)

  -- `yaf_lookup`: the inode that the dentry is given, or no inode.
  pub lookup : ℕ → Name → Cmd (Result (Option ℕ))
  lookup dir name = do
    r ← lookup_offset dir name
    elim r [
      | err e ↦ if e == enoent then add_dentry dir none else pure (err e)
      | ok doff ↦ (do
        bh ← bread_at dir doff
        elim bh [
          | none ↦ pure (err eio)
          | some p ↦ (do
            s ← get
            i ← yaf_iget k (d_ino (s.buffer p) (doff % block_size))
            elim i [ err e ↦ pure (err e) | ok ino ↦ add_dentry dir (some ino) ])
        ])
    ]

  -- The loop of `yaf_delete` over the blocks of the inode, from offset `doff` on.
  pub put_blocks : (ino rounds doff : ℕ) → Cmd (Unit {0})
  put_blocks ino zero doff = λ _. out_of_fuel
  put_blocks ino (suc rounds) doff = do
    s ← get
    if ltb doff (s.inode ino).i_size
        then (do
          dno ← block_at ino (doff / block_size)
          put_dblock k dno
          put_blocks ino rounds (doff + block_size))
        else pure tt

  -- The end of `yaf_delete`, once the entry is cleared and the directory updated.
  pub drop_inode : ℕ → Cmd (Result (Unit {0}))
  drop_inode ino = do
    s ← get
    let left = k.drop_nlink (s.inode ino).i_nlink
    set_inode ino (record (s.inode ino) { i_nlink = left })
    if ltb 1 left then mark_inode_dirty ino >> pure (ok tt) else (do
      put_blocks ino (rounds_for (s.inode ino).i_size) 0
      put_inode k ino
      mark_inode_dirty ino
      pure (ok tt))

  -- `yaf_delete` of the entry with a name, whose inode is `ino`.
  pub delete : ℕ → Name → ℕ → Cmd (Result (Unit {0}))
  delete dir name ino = do
    r ← lookup_offset dir name
    elim r [
      | err e ↦ (λ _. panic)
      | ok doff ↦ (do
        bh ← bread_at dir doff
        elim bh [
          | none ↦ pure (err eio)
          | some p ↦ (do
            s ← get
            set_buffer p (put32 (s.buffer p) (doff % block_size) reserved_ino)
            mark_buffer_dirty p
            cur ← now k
            t ← get
            set_inode dir
                (record (touch cur (t.inode dir)) { i_nlink = k.drop_nlink (t.inode dir).i_nlink })
            mark_inode_dirty dir
            drop_inode ino)
        ])
    ]

  -- `yaf_rmdir` and `yaf_unlink`.
  pub rmdir : ℕ → Name → ℕ → Cmd (Result (Unit {0}))
  rmdir dir name ino = do
    s ← get
    if ltb 1 (s.inode ino).i_nlink then pure (err enotempty) else delete dir name ino

  pub unlink : ℕ → Name → ℕ → Cmd (Result (Unit {0}))
  unlink dir name ino = delete dir name ino
