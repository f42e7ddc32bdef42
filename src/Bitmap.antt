-- ===== src/Bitmap.antt =====
-- driver/bitmap.c: allocation in the inode bitmap and in the data bitmap.
pub mod Scan
pub mod Used
pub mod First
pub mod Scanned
pub mod Alloc
pub mod Free
pub mod Cycle
mod Tests
use yaf.Base.{ℕ, zero, suc, ◌+◌, ◌%◌, false, Option, none, some, leb, if◌then◌else◌}
use yaf.Base.Word.{u32, add64, sub64, mul64, neg32}
use yaf.Layout.{
  bits_per_block, bid_ibp_min, bid_ibp_max, bid_dbp_min, bid_dbp_max, idxi2bid, idxd2bid,
}
use yaf.Machine.{
  Block, Kernel, Cmd, out_of_fuel, pure, ◌>>=◌, ◌>>◌, get, assert, set_buffer, mark_buffer_dirty,
  bread,
}

abbrev pub enoent : ℕ
enoent = 2

-- `RESERVED_INO`, and `RESERVED_DNO`, which is -1, as the callers compare it with a `uint32_t`.
abbrev pub reserved_ino : ℕ
reserved_ino = 0

abbrev pub reserved_dno : ℕ
reserved_dno = neg32 1

module _ (k : Kernel) where
  -- The loop of `yaf_get_free_bit` from bit `nr` on, with the number of bits left.
  pub free_bit_from : ℕ → ℕ → Block → ℕ × Block
  free_bit_from zero nr b = (neg32 enoent, b)
  free_bit_from (suc left) nr b =
      let (old, b') = k.test_and_set_bit nr b in
      let rest = free_bit_from left (nr + 1) b' in if old then rest else (nr, b')

  -- `yaf_get_free_bit`: the bit pattern of the `int32_t` result, and the changed memory.
  pub get_free_bit : ℕ → Block → ℕ × Block
  unfolding free_bit_from
  get_free_bit bits b = free_bit_from bits 0 b

  -- `yaf_put_bit`: `none` is the failed assertion.
  pub put_bit : ℕ → Block → Option Block
  put_bit nr b = let (old, b') = k.test_and_clear_bit nr b in if old then some b' else none

  -- `brelse` followed by `mark_buffer_dirty`, as `yaf_get_free_dblock` has them. The kernel keeps a
  -- dirty buffer. A clean one may leave the cache in between: then the mark is lost, and the next
  -- read finds the bytes that the block had before.
  unfoldable pub mark_released : Block → ℕ → Cmd (Unit {0})
  mark_released before p = do
    s ← get
    if k.stays_cached s.calls p
        then mark_buffer_dirty p
        else if s.buffer_dirty p
        then pure tt
        else set_buffer p before

  -- The body of the loops below on a buffer `p` that was read. The result of `yaf_get_free_bit` is
  -- stored in a `uint32_t`, and then compared with 0; `mark` are the calls that mark the buffer,
  -- whose bytes were those of its first argument, and release it, `rest` the further rounds.
  take_bit : (mark : Block → ℕ → Cmd (Unit {0})) (min bid p : ℕ) → Cmd ℕ → Cmd ℕ
  take_bit mark min bid p rest = do
    s ← get
    let found = get_free_bit bits_per_block (s.buffer p)
    set_buffer p found.1
    if leb 0 found.0
        then (do
          mark (s.buffer p) p
          pure (u32 (add64 found.0 (mul64 (sub64 bid min) bits_per_block))))
        else rest

  -- The loop that `yaf_get_free_inode` and `yaf_get_free_dblock` share, from block `bid` on: `min`
  -- and `max` are the bounds of the bitmap section, `full` is the result when the loop ends.
  find_free : (mark : Block → ℕ → Cmd (Unit {0})) (min max full rounds bid : ℕ) → Cmd ℕ
  find_free mark min max full zero bid = λ _. out_of_fuel
  find_free mark min max full (suc rounds) bid =
      let rest = find_free mark min max full rounds (u32 (bid + 1)) in
      if leb bid max
      then (do
        bh ← bread k bid
        elim bh [ none ↦ pure reserved_ino | some p ↦ take_bit mark min bid p rest ])
      else pure full

  -- `yaf_get_free_inode`, which marks the buffer and then releases it. One round for each bitmap
  -- block, and one for the test that ends the loop.
  pub get_free_inode : Cmd ℕ
  get_free_inode = do
    s ← get
    find_free (λ before. mark_buffer_dirty) (bid_ibp_min s.info) (bid_ibp_max s.info) reserved_ino
        (s.info.nr_ibp + 1) (u32 (bid_ibp_min s.info))

  -- `yaf_get_free_dblock`, which releases the buffer and then marks it.
  pub get_free_dblock : Cmd ℕ
  get_free_dblock = do
    s ← get
    find_free mark_released (bid_dbp_min s.info) (bid_dbp_max s.info) reserved_dno
        (s.info.nr_dbp + 1) (u32 (bid_dbp_min s.info))

  -- `yaf_put_bit` on a buffer, between the read and `mark_buffer_dirty`: a panic if the bit is
  -- clear.
  clear_in : ℕ → ℕ → Cmd (Unit {0})
  clear_in p nr s = elim (put_bit nr (s.buffer p)) [
    | none ↦ assert false s
    | some b' ↦ set_buffer p b' s
  ]

  -- `yaf_put_inode`.
  pub put_inode : ℕ → Cmd (Unit {0})
  unfolding clear_in
  put_inode ino = do
    s ← get
    bh ← bread k (idxi2bid s.info ino)
    elim bh [
      | none ↦ assert false
      | some p ↦ (do clear_in p (ino % bits_per_block); mark_buffer_dirty p)
    ]

  -- `yaf_put_dblock`.
  pub put_dblock : ℕ → Cmd (Unit {0})
  unfolding clear_in
  put_dblock dno = do
    s ← get
    bh ← bread k (idxd2bid s.info dno)
    elim bh [
      | none ↦ assert false
      | some p ↦ (do clear_in p (dno % bits_per_block); mark_buffer_dirty p)
    ]
