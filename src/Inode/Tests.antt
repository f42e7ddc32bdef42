-- ===== src/Inode/Tests.antt =====
-- Tests of the inode functions, and their theorems at a small file system.
use yaf.Base.{ℕ, ◌%◌, ◌≡◌, ◌<◌, refl, true, false, arith}
use yaf.Base.Word.{neg32}
use yaf.Layout.{ino2bid, idxi2bid, bid_ibp_min, bits_per_block}
use yaf.Machine.{ok, Returns, panic, ◌>>=◌}
use yaf.Machine.Bits.{test_bit, bit_of}
use yaf.Machine.Bytes.{get32, put32, write_words}
use yaf.Machine.Example.{
  plain, plain-IsBitops, device, device-IsBitops, small, small-IsLayout, mounted, empty_dir, full,
  test_bit-full,
}
use yaf.Bitmap.{reserved_ino, enoent}
use yaf.Bitmap.Used.{inode_used}
use yaf.Inode.{store_inode, yaf_iget, write_inode, new_inode}
use yaf.Inode.Codec.{IsStorable, persisted}
use yaf.Inode.Persist.{on_disk, write_inode-yaf_iget, write_inode-other}
use yaf.Inode.Create.{Fresh, new_inode-Fresh, new_inode-full}

-- Inode 3 is stored at byte 192 of its block; its size is the fifth member.
stored_size : get32 (store_inode (record empty_dir { i_size = 4096 }) (λ n. 0) 192) 208 ≡ 4096
unfolding store_inode get32 put32 write_words
stored_size = refl

empty_dir-IsStorable : IsStorable empty_dir
empty_dir-IsStorable = omega arith

write_inode-yaf_iget_example :
    Returns
      (λ r s'. (r ≡ ok 1) × (persisted (s'.inode 1) ≡ persisted empty_dir))
      ((write_inode plain 1 >>= λ _. yaf_iget plain 1) mounted)
write_inode-yaf_iget_example =
    write_inode-yaf_iget plain mounted 1 (small-IsLayout.info) (omega arith) (λ c. refl)
      empty_dir-IsStorable λ c. refl

write_inode-other_example :
    Returns
      (λ r s'.
        (r ≡ ok tt)
        × (on_disk s' 2 empty_dir ≡ on_disk mounted 2 empty_dir)
        × (s'.buffer_dirty (ino2bid small 1) ≡ true))
      (write_inode plain 1 mounted)
write_inode-other_example =
    write_inode-other plain mounted 1 (small-IsLayout.info) (omega arith) (λ c. refl)
      empty_dir-IsStorable 2 empty_dir (omega arith) (omega arith)

two_free : inode_used mounted 2 ≡ false
unfolding inode_used test_bit bit_of idxi2bid bid_ibp_min
two_free = refl

zero_used : inode_used mounted reserved_ino ≡ true
unfolding inode_used test_bit bit_of idxi2bid bid_ibp_min
zero_used = refl

new_inode-Fresh_example :
    Returns
      (λ r s'. (ino : ℕ) × (r ≡ ok ino) × Fresh mounted ino s')
      (new_inode plain 1 0o100644 mounted)
new_inode-Fresh_example =
    new_inode-Fresh plain-IsBitops mounted small-IsLayout (λ c b. refl) 1 0o100644 2 (omega arith)
      (omega arith) two_free zero_used (λ c i. refl)

inodes_full : (n : ℕ) → n < bits_per_block → inode_used full n ≡ true
unfolding inode_used
inodes_full n h = test_bit-full (n % bits_per_block)

first_readable : device.sb_bread full.calls (bid_ibp_min small) ≡ true
unfolding bid_ibp_min
first_readable = refl

far_unreadable : (c : ℕ) → device.sb_bread c (idxi2bid small (neg32 enoent)) ≡ false
unfolding idxi2bid bid_ibp_min
far_unreadable c = refl

new_inode-full_example : new_inode device 1 0o100644 full ≡ panic
new_inode-full_example =
    new_inode-full device-IsBitops full small-IsLayout 1 0o100644 (omega arith) inodes_full
      first_readable far_unreadable
