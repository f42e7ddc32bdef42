-- ===== src/Dentry.antt =====
-- Directory entries: `Yaf_Dentry` of include/inode.h, the names in them (`strncpy`, `strncmp`), and
-- the loop over the entries of a directory that `yaf_get_free_dentry` and `_yaf_lookup` of
-- driver/inode.c share.
pub mod Name
pub mod Scan
pub mod Entry
use yaf.Base.{
  ℕ, zero, suc, ◌+◌, ◌*◌, ◌/◌, Bool, true, false, Option, none, some, List, [], ◌∷◌, ◌==◌, ◌&&◌,
  not, ltb, if◌then◌else◌, get_elem?,
}
use yaf.Layout.{block_size, dno2bid}
use yaf.Machine.{Block, Kernel, Cmd, Result, ok, err, panic, out_of_fuel, pure, ◌>>=◌, get, bread}
use yaf.Machine.Bytes.{get32, put32}
use yaf.Bitmap.{reserved_ino}
use yaf.Inode.{eio}

abbrev pub dentry_size : ℕ
dentry_size = 32

-- `YAF_DENTRY_NAME_LEN`.
abbrev pub dentry_name_len : ℕ
dentry_name_len = 24

abbrev pub dentrys_per_block : ℕ
dentrys_per_block = block_size / dentry_size

-- A name, as the bytes before its terminating zero.
abbrev pub Name : Type 0
Name = List ℕ

-- `strncpy` of a name to the `n` bytes from `off` on: the rest is filled with zeros.
unfoldable pub strncpy : Block → ℕ → Name → ℕ → Block
strncpy b off name zero = b
strncpy b off [] (suc n) = strncpy (λ o. if o == off then 0 else b o) (off + 1) [] n
strncpy b off (c ∷ cs) (suc n) = strncpy (λ o. if o == off then c else b o) (off + 1) cs n

-- `!strncmp` of the `n` bytes from `off` on and a name.
unfoldable pub strneq : Block → ℕ → Name → ℕ → Bool
strneq b off name zero = true
strneq b off [] (suc n) = b off == 0
strneq b off (c ∷ cs) (suc n) = b off == c && strneq b (off + 1) cs n

-- `d_ino`, the first member of the entry at offset `off` of a block, and `d_name` behind
-- `d_name_len`.
abbrev pub d_ino : Block → ℕ → ℕ
d_ino b off = get32 b off

-- The entry at `off` is unused; it is used and has the given name.
unfoldable pub is_unused : Block → ℕ → Bool
is_unused b off = d_ino b off == reserved_ino

unfoldable pub has_name : Name → Block → ℕ → Bool
has_name name b off = not (d_ino b off == reserved_ino) && strneq b (off + 8) name dentry_name_len

-- The three stores of `_yaf_create` to its entry.
unfoldable pub write_dentry : Block → ℕ → ℕ → Name → ℕ → Block
write_dentry b off ino name len =
    strncpy (put32 (put32 b off ino) (off + 4) len) (off + 8) name dentry_name_len

-- Where a loop over entries stopped: at the offset of an entry that passed the test, or behind the
-- entries that it has seen.
pub data Stop : Type 0 where
  hit miss : ℕ → Stop

-- The inner loop over one block, with the number of entries left in the block, the index of the
-- entry and its offset in the directory.
unfoldable pub scan_entries : (Block → ℕ → Bool) → Block → ℕ → (left i doff : ℕ) → Stop
scan_entries test b size zero i doff = miss doff
scan_entries test b size (suc left) i doff =
    let rest = scan_entries test b size left (i + 1) (doff + dentry_size) in
    if ltb doff size then if test b (i * dentry_size) then hit doff else rest else miss doff

module _ (k : Kernel) (test : Block → ℕ → Bool) (dir : ℕ) where
  -- The outer loop, from offset `doff` on. Indexing `i_block` out of bounds is a panic.
  unfoldable pub scan_dir : (rounds doff : ℕ) → Cmd (Result Stop)
  scan_dir zero doff = λ _. out_of_fuel
  scan_dir (suc rounds) doff = do
    s ← get
    if ltb doff (s.inode dir).i_size
        then elim (get_elem? (s.inode dir).i_block (doff / block_size)) [
          | none ↦ (λ _. panic)
          | some dno ↦ (do
            bh ← bread k (dno2bid s.info dno)
            elim bh [
              | none ↦ pure (err eio)
              | some p ↦ (do
                t ← get
                elim (scan_entries test (t.buffer p) (t.inode dir).i_size dentrys_per_block 0
                    doff) [ hit d ↦ pure (ok (hit d)) | miss d ↦ scan_dir rounds d ])
            ])
        ]
        else pure (ok (miss doff))
