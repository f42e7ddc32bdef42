-- ===== src/Bitmap/First.antt =====
-- The two allocators of driver/bitmap.c stop at the first block of their bitmap.
use yaf.Base.{refl, ℕ, zero, suc, ◌+◌, ◌<◌, ◌≤◌, ◌≡◌, ap, true, arith, le→leb}
use yaf.Base.Word.{IsWord, u32}
use yaf.Layout.{bits_per_block, bid_ibp_min, bid_dbp_min}
use yaf.Layout.Bounds.{bid_ibp_min-eq, bid_ibp_max-eq, bid_dbp_min-eq, bid_dbp_max-eq}
use yaf.Layout.Regions.{IsLayout}
use yaf.Machine.{Block, Kernel, Sb, Cmd, done, update, mark_buffer_dirty}
use yaf.Machine.Bits.{IsBitops}
use yaf.Bitmap.{
  get_free_bit, mark_released, find_free, take_bit, get_free_inode, get_free_dblock, reserved_dno,
}
use yaf.Bitmap.Scan.{get_free_bit-first_clear}

-- The state after the first bitmap block, `min`, was read, scanned and marked dirty.
abbrev pub scanned : Kernel → ℕ → Sb → Sb
scanned k min s = record s {
  buffer = update s.buffer min (get_free_bit k bits_per_block (s.buffer min)).1;
  buffer_dirty = update s.buffer_dirty min true;
  calls = s.calls + 1;
}

module _ {k : Kernel} (laws : IsBitops k) where
  pub get_free_bit-lt : (b : Block) → (get_free_bit k bits_per_block b).0 < reserved_dno
  get_free_bit-lt b = ground (arith, get_free_bit-first_clear laws bits_per_block b 0)

  -- The loop never goes beyond its first block.
  find_free-first :
      (mark : Block → ℕ → Cmd (Unit {0})) (min max full rounds : ℕ) (s t : Sb)
      → mark (s.buffer min) min (record (scanned k min s) { buffer_dirty = s.buffer_dirty })
        ≡ done tt t
      → min ≤ max
      → IsWord min
      → 0 < rounds
      → k.sb_bread s.calls min ≡ true
      → find_free k mark min max full rounds min s
        ≡ done (get_free_bit k bits_per_block (s.buffer min)).0 t
  unfolding find_free take_bit
  find_free-first mark min max full zero s t marks h w r ok = absurd (omega arith)
  find_free-first mark min max full (suc rounds) s t marks h w r ok =
      let r : ℕ = (get_free_bit k bits_per_block (s.buffer min)).0 in
      rw (le→leb min max h, ok, le→leb 0 r (omega arith), marks)
        (ap (λ n. done n t) (omega (arith, get_free_bit-lt (s.buffer min))))

  module _ (s : Sb) (l : IsLayout s.info) where
    pub get_free_inode-first :
        k.sb_bread s.calls (bid_ibp_min s.info) ≡ true
        → get_free_inode k s
          ≡ done
              (get_free_bit k bits_per_block (s.buffer (bid_ibp_min s.info))).0
              (scanned k (bid_ibp_min s.info) s)
    unfolding get_free_inode
    get_free_inode-first ok =
        let start : u32 (bid_ibp_min s.info) ≡ bid_ibp_min s.info =
          omega (arith, bid_ibp_min-eq s.info) in
        rw start (
          find_free-first (λ before. mark_buffer_dirty) _ _ _ _ s _ refl
            (omega (arith, bid_ibp_min-eq s.info, bid_ibp_max-eq l.info, l.has_ibp))
            (omega (arith, bid_ibp_min-eq s.info)) (omega arith) ok)

    -- The mark of the released buffer of the data bitmap ends in `t`.
    abbrev pub Marks : Sb → Type 0
    Marks t =
        mark_released k (s.buffer (bid_dbp_min s.info)) (bid_dbp_min s.info)
          (record (scanned k (bid_dbp_min s.info) s) { buffer_dirty = s.buffer_dirty })
        ≡ done tt t

    pub scanned-Marks :
        k.stays_cached (s.calls + 1) (bid_dbp_min s.info) ≡ true
        → Marks (scanned k (bid_dbp_min s.info) s)
    unfolding mark_released
    scanned-Marks there = rw there refl

    pub get_free_dblock-first :
        (t : Sb)
        → Marks t
        → k.sb_bread s.calls (bid_dbp_min s.info) ≡ true
        → get_free_dblock k s
          ≡ done (get_free_bit k bits_per_block (s.buffer (bid_dbp_min s.info))).0 t
    unfolding get_free_dblock
    get_free_dblock-first t marks ok =
        let start : u32 (bid_dbp_min s.info) ≡ bid_dbp_min s.info =
          omega (arith, bid_dbp_min-eq l.info, l.fits) in
        rw start (
          find_free-first (mark_released k) _ _ _ _ s t marks
            (omega (arith, bid_dbp_min-eq l.info, bid_dbp_max-eq l.info, l.has_dbp))
            (omega (arith, bid_dbp_min-eq l.info, l.fits)) (omega arith) ok)
