-- ===== src/Super/Total.antt =====
-- The outcomes of `yaf_fill_super`.
use yaf.Base.{ℕ, ◌+◌, ◌*◌, ◌<◌, ◌⊎◌, ◌≡◌, true, false}
use yaf.Machine.{Block, Sb, Kernel, Result, ok, err}
use yaf.Inode.{eio, einval, enomem}
use yaf.Inode.Persist.{on_disk}
use yaf.Mkfs.{root_ino, magic_count}
use yaf.Super.{load_info}

-- The four bytes from `off` on are "yaf" and a zero.
abbrev pub Spelled : Block → ℕ → Type 0
Spelled b off = (b off ≡ 121) × (b (off + 1) ≡ 97) × (b (off + 2) ≡ 102) × (b (off + 3) ≡ 0)

-- The superblock of a state is accepted, and its sizes and the root inode are loaded.
abbrev pub Mounted : Sb → Sb → Type 0
Mounted s s' =
    ((j : ℕ) → j < magic_count → Spelled (s.buffer 0) (16 + j * 4))
    × (s'.info ≡ load_info (s.buffer 0))
    × (s'.inode root_ino
        ≡ on_disk (record s { info = load_info (s.buffer 0) }) root_ino (s.inode root_ino))

-- What `yaf_fill_super` leaves: a mounted file system; or -EIO and the sizes that were there before,
-- when the superblock cannot be read; or -EINVAL and these sizes, when one of the strings is wrong; or
-- the error of a later step, when all are right.
abbrev pub Outcome : Kernel → Sb → Result (Unit {0}) → Sb → Type 0
Outcome k s (ok u) s' = Mounted s s'
Outcome k s (err e) s' =
    ((k.sb_bread s.calls 0 ≡ false) × (e ≡ eio) × (s'.info ≡ s.info))
    ⊎ ((k.sb_bread s.calls 0 ≡ true)
        × ((j : ℕ) × (j < magic_count) × (Spelled (s.buffer 0) (16 + j * 4) → ⊥))
        × (e ≡ einval)
        × (s'.info ≡ s.info))
    ⊎ ((k.sb_bread s.calls 0 ≡ true)
        × ((j : ℕ) → j < magic_count → Spelled (s.buffer 0) (16 + j * 4))
        × ((e ≡ enomem) ⊎ (e ≡ einval) ⊎ (e ≡ eio)))

-- What `yaf_iget` leaves of the root inode.
abbrev RootOutcome : Sb → Result ℕ → Sb → Type 0
RootOutcome s (ok i) s' = s'.inode root_ino ≡ on_disk s root_ino (s.inode root_ino)
RootOutcome s (err e) s' = (e ≡ enomem) ⊎ (e ≡ einval) ⊎ (e ≡ eio)
