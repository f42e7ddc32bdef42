-- ===== src/Bitmap/Alloc.antt =====
-- What `yaf_get_free_inode` and `yaf_get_free_dblock` promise, and where they fail.
use yaf.Base.{
  ◌%◌, ◌==◌, ==→eq, ap, inl, inr, Bool-cases, refl, ◌+◌, ℕ, ◌<◌, ◌≡◌, ◌∙◌, sym, true, false, arith,
}
use yaf.Layout.{bits_per_block, bid_ibp_min, bid_dbp_min, idxd2bid}
use yaf.Layout.Regions.{IsLayout}
use yaf.Machine.{Block, Kernel, Sb, Returns, update}
use yaf.Machine.Bits.{IsBitops, test_bit}
use yaf.Bitmap.{get_free_inode, get_free_dblock, mark_released}
use yaf.Bitmap.Used.{
  inode_used, data_used, Allocated, Exhausted, inode_used-eq, data_used-eq, Allocated-view,
  Exhausted-view,
}
use yaf.Bitmap.First.{scanned, get_free_inode-first, get_free_dblock-first, scanned-Marks}
use yaf.Bitmap.Scanned.{scanned-Allocated, scanned-Exhausted}

update_back : (f : ℕ → Block) (n : ℕ) (b : Block) (m : ℕ) → update (update f n b) n (f n) m ≡ f m
update_back f n b m = elim (Bool-cases (m == n)) [
  | inl same ↦ rw (same, ==→eq m n same)
  | inr other ↦ rw other refl
]

module _ {k : Kernel} (laws : IsBitops k) (s : Sb) (l : IsLayout s.info) where
  abbrev imin : ℕ
  imin = bid_ibp_min s.info

  abbrev dmin : ℕ
  dmin = bid_dbp_min s.info

  -- If the first block of the inode bitmap can be read and has a clear bit, then
  -- `yaf_get_free_inode` returns the least unused inode number and marks it; every other mark and
  -- every other block stay as they are, and the bitmap block is marked dirty.
  pub get_free_inode-Allocated :
      (n : ℕ)
      → n < bits_per_block
      → inode_used s n ≡ false
      → k.sb_bread s.calls (bid_ibp_min s.info) ≡ true
      → Returns (Allocated inode_used (bid_ibp_min s.info) s) (get_free_inode k s)
  get_free_inode-Allocated n h free ok = rw (get_free_inode-first laws s l ok) (
      Allocated-view imin (inode_used-eq s) (inode_used-eq (scanned k imin s))
        (scanned-Allocated laws imin s n h (sym (inode_used-eq s n (omega arith)) ∙ free)))

  -- If the first block of the data bitmap can be read and has a clear bit, and its buffer, which
  -- `yaf_get_free_dblock` releases before it marks it, stays in the cache until it is marked, then
  -- `yaf_get_free_dblock` returns the least unused data block number and marks it; every other mark
  -- and every other block stay as they are, and the bitmap block is marked dirty.
  pub get_free_dblock-Allocated :
      (n : ℕ)
      → n < bits_per_block
      → data_used s n ≡ false
      → k.sb_bread s.calls (bid_dbp_min s.info) ≡ true
      → k.stays_cached (s.calls + 1) (bid_dbp_min s.info) ≡ true
      → Returns (Allocated data_used (bid_dbp_min s.info) s) (get_free_dblock k s)
  get_free_dblock-Allocated n h free ok there =
      rw (get_free_dblock-first laws s l (scanned k dmin s) (scanned-Marks laws s l there) ok) (
        Allocated-view dmin (data_used-eq s l) (data_used-eq (scanned k dmin s) l)
          (scanned-Allocated laws dmin s n h (sym (data_used-eq s l n (omega arith)) ∙ free)))

  -- If the first block of the inode bitmap can be read and all its bits are set, then
  -- `yaf_get_free_inode` returns 4294967294, which is -ENOENT and not RESERVED_INO, whatever the
  -- other blocks of the bitmap hold; no mark changes.
  pub get_free_inode-Exhausted :
      ((n : ℕ) → n < bits_per_block → inode_used s n ≡ true)
      → k.sb_bread s.calls (bid_ibp_min s.info) ≡ true
      → Returns (Exhausted inode_used s) (get_free_inode k s)
  get_free_inode-Exhausted full ok = rw (get_free_inode-first laws s l ok) (
      Exhausted-view imin (inode_used-eq s) (inode_used-eq (scanned k imin s))
        (scanned-Exhausted laws imin s λ n h. sym (inode_used-eq s n (omega arith)) ∙ full n h))

  -- If the first block of the data bitmap can be read and all its bits are set, then
  -- `yaf_get_free_dblock` returns 4294967294, which is -ENOENT and not RESERVED_DNO, whatever the
  -- other blocks of the bitmap hold; no mark changes.
  pub get_free_dblock-Exhausted :
      ((n : ℕ) → n < bits_per_block → data_used s n ≡ true)
      → k.sb_bread s.calls (bid_dbp_min s.info) ≡ true
      → Returns (Exhausted data_used s) (get_free_dblock k s)
  unfolding data_used mark_released
  get_free_dblock-Exhausted full ok =
      let here : Exhausted data_used s _ (scanned k dmin s) =
        Exhausted-view dmin (data_used-eq s l) (data_used-eq (scanned k dmin s) l) (
          scanned-Exhausted laws dmin s λ n h. sym (data_used-eq s l n (omega arith)) ∙ full n h) in
      elim (Bool-cases (k.stays_cached (s.calls + 1) dmin)) [
        | inl there ↦
            rw (get_free_dblock-first laws s l (scanned k dmin s) (scanned-Marks laws s l there) ok)
              here
        | inr gone ↦ elim (Bool-cases (s.buffer_dirty dmin)) [
          | inl dirty ↦
              let t : Sb = record (scanned k dmin s) { buffer_dirty = s.buffer_dirty } in
              rw (get_free_dblock-first laws s l t (rw (gone, dirty) refl) ok)
                (record { code = here.code; kept = here.kept; same_info = here.same_info })
          | inr clean ↦
              let t : Sb = record (scanned k dmin s) {
                buffer = update (scanned k dmin s).buffer dmin (s.buffer dmin);
                buffer_dirty = s.buffer_dirty;
              } in
              rw (get_free_dblock-first laws s l t (rw (gone, clean) refl) ok) (record {
                code = here.code;
                kept = λ m w.
                    ap (test_bit (m % bits_per_block))
                      (update_back s.buffer dmin _ (idxd2bid s.info m));
                same_info = refl;
              })
        ]
      ]
