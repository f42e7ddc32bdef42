-- ===== src/Bitmap/Used.antt =====
-- Which inode numbers and data block numbers the bitmaps of driver/bitmap.c mark, and what an
-- allocation does to the marks.
use yaf.Base.{
  ℕ, ◌+◌, ◌/◌, ◌%◌, ◌<◌, ◌≡◌, ◌≢◌, ◌∙◌, sym, ap, Bool, true, false, arith, ◌==◌, if◌then◌else◌,
}
use yaf.Base.Word.{IsWord, neg32, add64}
use yaf.Layout.{bits_per_block, bid_ibp_min, bid_dbp_min, idxi2bid, idxd2bid}
use yaf.Layout.Bounds.{bid_ibp_min-eq, bid_dbp_min-eq}
use yaf.Layout.Regions.{IsLayout}
use yaf.Machine.{Sb}
use yaf.Machine.Bits.{test_bit}
use yaf.Bitmap.{enoent}

-- Whether an inode number or a data block number is marked in its bitmap.
unfoldable pub inode_used : Sb → ℕ → Bool
inode_used s n = test_bit (n % bits_per_block) (s.buffer (idxi2bid s.info n))

unfoldable pub data_used : Sb → ℕ → Bool
data_used s n = test_bit (n % bits_per_block) (s.buffer (idxd2bid s.info n))

-- Number `n` was the least clear one; afterwards it is marked, every other mark is as before, and
-- of all buffers at most `bid` has changed, which is marked dirty; the layout and the in-memory
-- inodes are as before.
pub record Allocated (used : Sb → ℕ → Bool) (bid : ℕ) (s : Sb) (n : ℕ) (s' : Sb) : Type 0 where
  pub was_free : used s n ≡ false
  pub least : (m : ℕ) → m < n → used s m ≡ true
  pub marked : (m : ℕ) → IsWord m → used s' m ≡ (if m == n then true else used s m)
  pub others : (b : ℕ) → b ≢ bid → s'.buffer b ≡ s.buffer b
  pub dirtied : s'.buffer_dirty bid ≡ true
  pub same_info : s'.info ≡ s.info
  pub same_inodes : s'.inode ≡ s.inode

-- The result is the bit pattern of -ENOENT, no mark and no layout has changed.
pub record Exhausted (used : Sb → ℕ → Bool) (s : Sb) (n : ℕ) (s' : Sb) : Type 0 where
  pub code : n ≡ neg32 enoent
  pub kept : (m : ℕ) → IsWord m → used s' m ≡ used s m
  pub same_info : s'.info ≡ s.info

-- A bit of the bitmap that begins at block `min`.
abbrev pub bit_at : ℕ → Sb → ℕ → Bool
bit_at min s n = test_bit (n % bits_per_block) (s.buffer (min + n / bits_per_block))

-- The two bitmaps, as views of `bit_at`.
pub inode_used-eq : (s : Sb) (m : ℕ) → IsWord m → inode_used s m ≡ bit_at (bid_ibp_min s.info) s m
unfolding inode_used idxi2bid
inode_used-eq s m w =
    let there : add64 (bid_ibp_min s.info) (m / bits_per_block)
        ≡ bid_ibp_min s.info + m / bits_per_block =
      omega (arith, bid_ibp_min-eq s.info) in
    rw there

pub data_used-eq :
    (s : Sb)
    → IsLayout s.info
    → (m : ℕ) → IsWord m
    → data_used s m ≡ bit_at (bid_dbp_min s.info) s m
unfolding data_used idxd2bid
data_used-eq s l m w =
    let there : add64 (bid_dbp_min s.info) (m / bits_per_block)
        ≡ bid_dbp_min s.info + m / bits_per_block =
      omega (arith, bid_dbp_min-eq l.info, l.fits) in
    rw there

-- A mark stays while its block and the layout stay.
module _ (s s' : Sb) (n : ℕ) (info : s'.info ≡ s.info) where
  pub data_used-kept :
      s'.buffer (idxd2bid s.info n) ≡ s.buffer (idxd2bid s.info n) → data_used s' n ≡ data_used s n
  unfolding data_used
  data_used-kept same =
      ap (λ i. test_bit (n % bits_per_block) (s'.buffer (idxd2bid i n))) info
      ∙ ap (test_bit (n % bits_per_block)) same

  pub inode_used-kept :
      s'.buffer (idxi2bid s.info n) ≡ s.buffer (idxi2bid s.info n)
      → inode_used s' n ≡ inode_used s n
  unfolding inode_used
  inode_used-kept same =
      ap (λ i. test_bit (n % bits_per_block) (s'.buffer (idxi2bid i n))) info
      ∙ ap (test_bit (n % bits_per_block)) same

-- A statement about `bit_at` is one about a view of it.
module _ {used : Sb → ℕ → Bool} (bid : ℕ) {s s' : Sb} {n : ℕ}
    (before : (m : ℕ) → IsWord m → used s m ≡ bit_at bid s m)
    (after : (m : ℕ) → IsWord m → used s' m ≡ bit_at bid s' m) where
  pub Allocated-view : IsWord n × Allocated (bit_at bid) bid s n s' → Allocated used bid s n s'
  Allocated-view (w, a) = record {
    was_free = before n w ∙ a.was_free;
    least = λ m h. before m (omega arith) ∙ a.least m h;
    marked = λ m wm. after m wm ∙ a.marked m wm ∙ rw (before m wm);
    others = a.others;
    dirtied = a.dirtied;
    same_info = a.same_info;
    same_inodes = a.same_inodes;
  }

  pub Exhausted-view : Exhausted (bit_at bid) s n s' → Exhausted used s n s'
  Exhausted-view e = record {
    code = e.code;
    kept = λ m wm. after m wm ∙ e.kept m wm ∙ sym (before m wm);
    same_info = e.same_info;
  }
