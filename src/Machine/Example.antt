-- ===== src/Machine/Example.antt =====
-- A concrete kernel that has the documented behaviour, and a small mounted file system, for tests.
use yaf.Base.{
  ℕ, zero, suc, ◌+◌, ◌-◌, ◌*◌, ◌/◌, ◌%◌, ◌≡◌, ◌∙◌, ap, ◌<◌, refl, Bool, true, false, ◌==◌,
  if◌then◌else◌, arith, Bool-cases, inl, inr, ==→eq, replicate, ltb,
}
use yaf.Layout.{SbInfo}
use yaf.Layout.Regions.{IsLayout}
use yaf.Machine.{Block, Kernel, Sb, Inode, no_fops, update}
use yaf.Machine.Bits.{bit_of, test_bit, IsBitops}

unfoldable pub write_bit_of : ℕ → Bool → ℕ → ℕ
write_bit_of zero x v = v / 2 * 2 + (if x then 1 else 0)
write_bit_of (suc k) x v = v % 2 + 2 * write_bit_of k x (v / 2)

half_write : (v d : ℕ) → d < 2 → (v / 2 * 2 + d) / 2 ≡ v / 2
half_write v d h = omega arith

half_join : (v w : ℕ) → (v % 2 + 2 * w) / 2 ≡ w
half_join v w = omega arith

bit_of-write :
    (k j : ℕ) (x : Bool) (v : ℕ)
    → bit_of j (write_bit_of k x v) ≡ (if j == k then x else bit_of j v)
unfolding bit_of write_bit_of
bit_of-write zero zero true v = ground arith
bit_of-write zero zero false v = ground arith
bit_of-write zero (suc j) true v = ground (arith, ap (bit_of j) (half_write v 1 (omega arith)))
bit_of-write zero (suc j) false v = ground (arith, ap (bit_of j) (half_write v 0 (omega arith)))
bit_of-write (suc k) zero x v = ground arith
bit_of-write (suc k) (suc j) x v =
    ap (bit_of j) (half_join v (write_bit_of k x (v / 2)))
    ∙ bit_of-write k j x (v / 2)
    ∙ ground arith

unfoldable pub write_bit : ℕ → Bool → Block → Block
write_bit nr x b = update b (nr / 8) (write_bit_of (nr % 8) x (b (nr / 8)))

test_bit-write :
    (nr m : ℕ) (x : Bool) (b : Block)
    → test_bit m (write_bit nr x b) ≡ (if m == nr then x else test_bit m b)
unfolding test_bit write_bit
test_bit-write nr m x b = elim (Bool-cases ((m / 8) == (nr / 8))) [
  | inl e ↦
      let same : m / 8 ≡ nr / 8 = ==→eq _ _ e in
      let tests : ((m % 8) == (nr % 8)) ≡ (m == nr) = ground arith in
      rw e (bit_of-write (nr % 8) (m % 8) x (b (nr / 8)) ∙ rw (tests, same))
  | inr e ↦ let apart : (m == nr) ≡ false = ground arith in rw (e, apart)
]

-- Every block can be read, there is always memory, and the clock counts the calls.
abbrev pub plain : Kernel
plain = record {
  test_and_set_bit = λ nr b. (test_bit nr b, write_bit nr true b);
  test_and_clear_bit = λ nr b. (test_bit nr b, write_bit nr false b);
  sb_bread = λ n b. true;
  stays_cached = λ n b. true;
  iget_locked = λ n i. true;
  current_time = λ n. n;
  inc_nlink = λ n. n + 1;
  drop_nlink = λ n. n - 1;
  inode_init_owner = λ i dir mode. record i { i_mode = mode };
}

pub plain-IsBitops : IsBitops plain
plain-IsBitops = record {
  set_old = λ nr b. refl;
  set_new = λ nr m b. test_bit-write nr m true b;
  clear_old = λ nr b. refl;
  clear_new = λ nr m b. test_bit-write nr m false b;
}

-- The same kernel on a device of 64 blocks: no other block can be read.
abbrev pub device : Kernel
device = record plain { sb_bread = λ n b. ltb b 64 }

pub device-IsBitops : IsBitops device
device-IsBitops = record {
  set_old = λ nr b. refl;
  set_new = λ nr m b. test_bit-write nr m true b;
  clear_old = λ nr b. refl;
  clear_new = λ nr m b. test_bit-write nr m false b;
}

-- One block for each bitmap, one for the inodes, 60 for the data: what `mkfs` makes of 64 blocks.
abbrev pub small : SbInfo
small = record { nr_ibp = 1; nr_dbp = 1; nr_i = 1; nr_d = 60 }

pub small-IsLayout : IsLayout small
small-IsLayout = omega arith

-- A directory with no blocks.
abbrev pub empty_dir : Inode
empty_dir = record {
  i_mode = 0o40777;
  i_uid = 0;
  i_gid = 0;
  i_nlink = 1;
  i_size = 0;
  i_atime = 0;
  i_mtime = 0;
  i_ctime = 0;
  i_op = false;
  i_fop = no_fops;
  a_ops = false;
  i_block = replicate 8 0xffff_ffff;
}

-- The reserved and the root inode are marked, and nothing else.
abbrev pub mounted : Sb
mounted = record {
  info = small;
  buffer = λ bid. λ off. if bid == 1 then (if off == 0 then 3 else 0) else 0;
  buffer_dirty = λ bid. false;
  inode = λ ino. empty_dir;
  inode_dirty = λ ino. false;
  calls = 0;
}

-- Every byte of every block is 255, so every bit of both bitmaps is set.
abbrev pub full : Sb
full = record mounted { buffer = λ bid. λ off. 255 }

bit_of-255 : (k : ℕ) → k < 8 → bit_of k 255 ≡ true
unfolding bit_of
bit_of-255 zero h = refl
bit_of-255 (suc zero) h = refl
bit_of-255 (suc (suc zero)) h = refl
bit_of-255 (suc (suc (suc zero))) h = refl
bit_of-255 (suc (suc (suc (suc zero)))) h = refl
bit_of-255 (suc (suc (suc (suc (suc zero))))) h = refl
bit_of-255 (suc (suc (suc (suc (suc (suc zero)))))) h = refl
bit_of-255 (suc (suc (suc (suc (suc (suc (suc zero))))))) h = refl
bit_of-255 (suc (suc (suc (suc (suc (suc (suc (suc k)))))))) h = absurd (omega arith)

pub test_bit-full : (nr : ℕ) → test_bit nr (λ off. 255) ≡ true
unfolding test_bit
test_bit-full nr = bit_of-255 (nr % 8) (omega arith)
