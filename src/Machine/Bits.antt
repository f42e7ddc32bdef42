-- ===== src/Machine/Bits.antt =====
-- Bitmaps as include/bitmap.h draws them (bit `nr` is bit `nr % 8` of byte `nr / 8`, least
-- significant first), and the documented behaviour of the kernel's atomic bit operations.
use yaf.Base.{ℕ, zero, suc, ◌/◌, ◌%◌, ◌≡◌, Bool, true, false, ◌==◌, if◌then◌else◌}
use yaf.Machine.{Block, Kernel}

-- Bit `k` of a byte.
unfoldable pub bit_of : ℕ → ℕ → Bool
bit_of zero v = v % 2 == 1
bit_of (suc k) v = bit_of k (v / 2)

unfoldable pub test_bit : ℕ → Block → Bool
test_bit nr b = bit_of (nr % 8) (b (nr / 8))

-- What the driver relies on: each operation returns the bit's old value, writes that bit and keeps
-- every other.
pub record IsBitops (k : Kernel) : Type 0 where
  pub set_old : (nr : ℕ) (b : Block) → (k.test_and_set_bit nr b).0 ≡ test_bit nr b
  pub set_new :
      (nr m : ℕ) (b : Block)
      → test_bit m (k.test_and_set_bit nr b).1 ≡ (if m == nr then true else test_bit m b)
  pub clear_old : (nr : ℕ) (b : Block) → (k.test_and_clear_bit nr b).0 ≡ test_bit nr b
  pub clear_new :
      (nr m : ℕ) (b : Block)
      → test_bit m (k.test_and_clear_bit nr b).1 ≡ (if m == nr then false else test_bit m b)
