-- ===== src/Mkfs/Tests.antt =====
-- The section bounds on a big-endian host.
use yaf.Base.{ℕ, ◌+◌, ◌*◌, ◌/◌, ◌%◌, ◌^◌, ◌≡◌, refl}
use yaf.Layout.{SbInfo}
use yaf.Machine.Example.{small}
use yaf.Mkfs.Sections.{Converts, user_bounds, bounds, user_bounds-bounds}

abbrev swap32 : ℕ → ℕ
swap32 x =
    x % 2 ^ 8 * 2 ^ 24
    + x / 2 ^ 8 % 2 ^ 8 * 2 ^ 16
    + x / 2 ^ 16 % 2 ^ 8 * 2 ^ 8
    + x / 2 ^ 24 % 2 ^ 8

-- The sizes of `small` with their bytes in the order of the disk.
abbrev stored : SbInfo
stored = record { nr_ibp = 16777216; nr_dbp = 16777216; nr_i = 16777216; nr_d = 1006632960 }

stored-Converts : Converts swap32 stored small
stored-Converts = record { ibp = refl; dbp = refl; inodes = refl; data_blocks = refl }

user_bounds-bounds_example : user_bounds swap32 stored ≡ bounds small
user_bounds-bounds_example = user_bounds-bounds swap32 stored small stored-Converts
