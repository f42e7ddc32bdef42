-- ===== src/Super.antt =====
-- Mounting: `yaf_fill_super` of driver/super.c. Whether `kzalloc` and `d_make_root` succeed are
-- arguments. The release of what was acquired (`iput`, `kfree`, `brelse`) changes no state here.
pub mod Magic
pub mod Mount
pub mod Total
pub mod First
pub mod Run
mod Tests
mod RunTests
use yaf.Base.{ℕ, zero, suc, ◌+◌, Bool, true, false, Option, some, none, ◌==◌, ◌&&◌, if◌then◌else◌}
use yaf.Layout.{SbInfo, bid_sb_min}
use yaf.Machine.{Block, Sb, Kernel, Cmd, Result, ok, err, done, pure, ◌>>=◌, ◌>>◌, get, bread}
use yaf.Machine.Bytes.{get32}
use yaf.Inode.{eio, einval, enomem, yaf_iget}
use yaf.Mkfs.{magic_count, root_ino}

-- `memcmp` of the four bytes from `off` on with "yaf" and its terminating zero.
unfoldable pub is_magic : Block → ℕ → Bool
is_magic b off = b off == 121 && b (off + 1) == 97 && b (off + 2) == 102 && b (off + 3) == 0

-- The loop over the magic strings, with the number of them that are left.
unfoldable pub check_magic : Block → ℕ → ℕ → Bool
check_magic b off zero = true
check_magic b off (suc n) =
    let rest = check_magic b (off + 4) n in if is_magic b off then rest else false

-- The four `le32_to_cpu` of the sizes.
unfoldable pub load_info : Block → SbInfo
load_info b = record { nr_ibp = get32 b 0; nr_dbp = get32 b 4; nr_i = get32 b 8; nr_d = get32 b 12 }

-- `sb->s_fs_info = ysi`.
abbrev set_info : SbInfo → Cmd (Unit {0})
set_info i s = done tt (record s { info = i })

module _ (k : Kernel) (kzalloc d_make_root : Bool) where
  -- The end of `yaf_fill_super`, once the magic string is checked.
  mount_root : SbInfo → Cmd (Result (Unit {0}))
  mount_root i =
      if kzalloc
      then (do
        set_info i
        r ← yaf_iget k root_ino
        elim r [
          | err e ↦ pure (err e)
          | ok root ↦ if d_make_root then pure (ok tt) else pure (err enomem)
        ])
      else pure (err enomem)

  -- `yaf_fill_super`.
  unfoldable pub fill_super : Cmd (Result (Unit {0}))
  unfolding mount_root
  fill_super = do
    bh ← bread k bid_sb_min
    elim bh [
      | none ↦ pure (err eio)
      | some p ↦ (do
        s ← get
        if check_magic (s.buffer p) 16 magic_count
            then mount_root (load_info (s.buffer p))
            else pure (err einval))
    ]
