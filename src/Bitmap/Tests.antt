-- ===== src/Bitmap/Tests.antt =====
-- Tests of the bitmap functions, and their theorems at a small file system.
use yaf.Base.{ℕ, ◌%◌, ◌≡◌, refl, true, false, arith, ◌<◌}
use yaf.Layout.{bits_per_block, idxi2bid, idxd2bid, bid_ibp_min, bid_dbp_min}
use yaf.Machine.{panic, Returns, ◌>>=◌}
use yaf.Machine.Bits.{test_bit, bit_of}
use yaf.Machine.Example.{
  plain, plain-IsBitops, write_bit, write_bit_of, test_bit-full, full, small, small-IsLayout,
  mounted,
}
use yaf.Bitmap.{get_free_bit, free_bit_from, get_free_inode, get_free_dblock, put_inode, put_dblock}
use yaf.Bitmap.Used.{inode_used, data_used, Allocated, Exhausted}
use yaf.Bitmap.Alloc.{
  get_free_inode-Allocated, get_free_dblock-Allocated, get_free_inode-Exhausted,
  get_free_dblock-Exhausted,
}
use yaf.Bitmap.Free.{Freed, put_inode-Freed, put_inode-panic, put_dblock-Freed}
use yaf.Bitmap.Cycle.{SameMarks, get_free_inode-put_inode}

-- Bits 0 and 1 are set: the first clear bit is 2.
scan_runs : (get_free_bit plain 8 (mounted.buffer 1)).0 ≡ 2
unfolding get_free_bit free_bit_from test_bit bit_of write_bit write_bit_of
scan_runs = refl

two_free : inode_used mounted 2 ≡ false
unfolding inode_used test_bit bit_of idxi2bid bid_ibp_min
two_free = refl

one_used : inode_used mounted 1 ≡ true
unfolding inode_used test_bit bit_of idxi2bid bid_ibp_min
one_used = refl

data_free : data_used mounted 0 ≡ false
unfolding data_used test_bit bit_of idxd2bid bid_dbp_min
data_free = refl

get_free_inode-Allocated_example :
    Returns (Allocated inode_used (bid_ibp_min small) mounted) (get_free_inode plain mounted)
get_free_inode-Allocated_example =
    get_free_inode-Allocated plain-IsBitops mounted small-IsLayout 2 (omega arith) two_free refl

get_free_dblock-Allocated_example :
    Returns (Allocated data_used (bid_dbp_min small) mounted) (get_free_dblock plain mounted)
get_free_dblock-Allocated_example =
    get_free_dblock-Allocated plain-IsBitops mounted small-IsLayout 0 (omega arith) data_free refl
      refl

inodes_full : (n : ℕ) → n < bits_per_block → inode_used full n ≡ true
unfolding inode_used
inodes_full n h = test_bit-full (n % bits_per_block)

data_full : (n : ℕ) → n < bits_per_block → data_used full n ≡ true
unfolding data_used
data_full n h = test_bit-full (n % bits_per_block)

get_free_inode-Exhausted_example : Returns (Exhausted inode_used full) (get_free_inode plain full)
get_free_inode-Exhausted_example =
    get_free_inode-Exhausted plain-IsBitops full small-IsLayout inodes_full refl

get_free_dblock-Exhausted_example : Returns (Exhausted data_used full) (get_free_dblock plain full)
get_free_dblock-Exhausted_example =
    get_free_dblock-Exhausted plain-IsBitops full small-IsLayout data_full refl

put_inode-Freed_example :
    Returns (λ _. Freed inode_used (idxi2bid small 1) mounted 1) (put_inode plain 1 mounted)
put_inode-Freed_example = put_inode-Freed plain-IsBitops mounted 1 (omega arith) one_used refl

put_inode-panic_example : put_inode plain 2 mounted ≡ panic
put_inode-panic_example = put_inode-panic plain-IsBitops mounted 2 two_free refl

put_dblock-Freed_example :
    Returns (λ _. Freed data_used (idxd2bid small 5) full 5) (put_dblock plain 5 full)
put_dblock-Freed_example =
    put_dblock-Freed plain-IsBitops full 5 small-IsLayout (omega arith) (data_full 5 (omega arith))
      refl

get_free_inode-put_inode_example :
    Returns (λ _. SameMarks inode_used mounted) ((get_free_inode plain >>= put_inode plain) mounted)
get_free_inode-put_inode_example =
    get_free_inode-put_inode plain-IsBitops mounted small-IsLayout 2 (omega arith) two_free
      λ c. refl
