-- ===== src/Bitmap/Free.antt =====
-- What `yaf_put_inode` and `yaf_put_dblock` promise, and what follows an allocation.
use yaf.Base.{
  ℕ, ◌+◌, ◌%◌, ◌≡◌, ◌≢◌, ◌∙◌, sym, ap, refl, Bool, true, false, arith, Bool-cases, inl, inr,
  ==-refl, ne→==, ==→eq, ◌==◌, if◌then◌else◌,
}
use yaf.Base.Word.{IsWord}
use yaf.Layout.{SbInfo, bits_per_block, idxi2bid, idxd2bid}
use yaf.Layout.Bounds.{bid_ibp_min-eq, bid_dbp_min-eq}
use yaf.Layout.Regions.{IsLayout}
use yaf.Machine.{Kernel, Sb, Returns, done, panic, update}
use yaf.Machine.Bits.{test_bit, IsBitops}
use yaf.Bitmap.{put_inode, put_dblock, clear_in, put_bit}
use yaf.Bitmap.Used.{inode_used, data_used}

-- The mark of `n` is cleared, every other mark is as before, and of all buffers at most `bid` has
-- changed, which is marked dirty; the layout and the in-memory inodes are as before.
pub record Freed (used : Sb → ℕ → Bool) (bid : ℕ) (s : Sb) (n : ℕ) (s' : Sb) : Type 0 where
  pub marked : (m : ℕ) → IsWord m → used s' m ≡ (if m == n then false else used s m)
  pub others : (b : ℕ) → b ≢ bid → s'.buffer b ≡ s.buffer b
  pub dirtied : s'.buffer_dirty bid ≡ true
  pub same_info : s'.info ≡ s.info
  pub same_inodes : s'.inode ≡ s.inode

-- Two numbers with the same bit and block are one.
idxi2bid-injective :
    (i : SbInfo) (m n : ℕ)
    → IsWord m
    → IsWord n
    → idxi2bid i m ≡ idxi2bid i n
    → m % bits_per_block ≡ n % bits_per_block
    → m ≡ n
unfolding idxi2bid
idxi2bid-injective i m n wm wn e f = omega (arith, bid_ibp_min-eq i)

idxd2bid-injective :
    (i : SbInfo) (m n : ℕ)
    → IsLayout i
    → IsWord m
    → IsWord n
    → idxd2bid i m ≡ idxd2bid i n
    → m % bits_per_block ≡ n % bits_per_block
    → m ≡ n
unfolding idxd2bid
idxd2bid-injective i m n l wm wn e f = omega (arith, bid_dbp_min-eq l.info, l.fits)

pub put_inode-unreadable :
    (k : Kernel) (s : Sb) (ino : ℕ)
    → k.sb_bread s.calls (idxi2bid s.info ino) ≡ false
    → put_inode k ino s ≡ panic
unfolding put_inode
put_inode-unreadable k s ino unread = rw unread

module _ {k : Kernel} (laws : IsBitops k) (p nr : ℕ) (s : Sb) where
  clear_in-set :
      test_bit nr (s.buffer p) ≡ true
      → clear_in k p nr s
        ≡ done tt (record s { buffer = update s.buffer p (k.test_and_clear_bit nr (s.buffer p)).1 })
  unfolding clear_in put_bit
  clear_in-set used = ground (arith, laws.clear_old nr (s.buffer p))

  clear_in-clear : test_bit nr (s.buffer p) ≡ false → clear_in k p nr s ≡ panic
  unfolding clear_in put_bit
  clear_in-clear free = ground (arith, laws.clear_old nr (s.buffer p))

-- The state after the bit of a number in block `p` was cleared.
abbrev cleared : Kernel → ℕ → ℕ → Sb → Sb
cleared k p nr s = record s {
  buffer = update s.buffer p (k.test_and_clear_bit nr (s.buffer p)).1;
  buffer_dirty = update s.buffer_dirty p true;
  calls = s.calls + 1;
}

module _ {k : Kernel} (laws : IsBitops k) (s : Sb) where
  put_inode-done :
      (n : ℕ)
      → inode_used s n ≡ true
      → k.sb_bread s.calls (idxi2bid s.info n) ≡ true
      → put_inode k n s ≡ done tt (cleared k (idxi2bid s.info n) (n % bits_per_block) s)
  unfolding put_inode inode_used
  put_inode-done n used ok = rw (
    ok,
    clear_in-set laws (idxi2bid s.info n) (n % bits_per_block) (record s { calls = s.calls + 1 })
        used,
  )

  -- If the bitmap block of an inode number can be read and the number is not marked, then the
  -- assertion in `yaf_put_bit` stops `yaf_put_inode`.
  pub put_inode-panic :
      (n : ℕ)
      → inode_used s n ≡ false
      → k.sb_bread s.calls (idxi2bid s.info n) ≡ true
      → put_inode k n s ≡ panic
  unfolding put_inode inode_used
  put_inode-panic n free ok = rw (
    ok,
    clear_in-clear laws (idxi2bid s.info n) (n % bits_per_block) (record s { calls = s.calls + 1 })
        free,
  )

  put_dblock-done :
      (n : ℕ)
      → data_used s n ≡ true
      → k.sb_bread s.calls (idxd2bid s.info n) ≡ true
      → put_dblock k n s ≡ done tt (cleared k (idxd2bid s.info n) (n % bits_per_block) s)
  unfolding put_dblock data_used
  put_dblock-done n used ok = rw (
    ok,
    clear_in-set laws (idxd2bid s.info n) (n % bits_per_block) (record s { calls = s.calls + 1 })
        used,
  )

  -- The same for `yaf_put_dblock` and a data block number.
  pub put_dblock-panic :
      (n : ℕ)
      → data_used s n ≡ false
      → k.sb_bread s.calls (idxd2bid s.info n) ≡ true
      → put_dblock k n s ≡ panic
  unfolding put_dblock data_used
  put_dblock-panic n free ok = rw (
    ok,
    clear_in-clear laws (idxd2bid s.info n) (n % bits_per_block) (record s { calls = s.calls + 1 })
        free,
  )

  test_bit-cleared :
      (p n q m : ℕ)
      → (p ≡ q → m % bits_per_block ≡ n % bits_per_block → m ≡ n)
      → (m ≡ n → p ≡ q)
      → test_bit (m % bits_per_block) ((cleared k p (n % bits_per_block) s).buffer q)
        ≡ (if m == n then false else test_bit (m % bits_per_block) (s.buffer q))
  test_bit-cleared p n q m inj same = elim (Bool-cases (q == p)) [
    | inl e ↦
        let here = ==→eq q p e in
        let new = laws.clear_new (n % bits_per_block) (m % bits_per_block) (s.buffer p) in
        let tests : ((m % bits_per_block) == (n % bits_per_block)) ≡ (m == n) =
          ground (arith, inj (sym here), ap (λ (x : ℕ). x % bits_per_block)) in
        rw e (new ∙ rw (tests, here))
    | inr e ↦ let apart : (m == n) ≡ false = ground (arith, same) in rw (e, apart)
  ]

  -- If the bitmap block of an inode number can be read and the number is marked, then
  -- `yaf_put_inode` clears that mark and no other, changes no other block and no inode, and
  -- marks the bitmap block dirty.
  pub put_inode-Freed :
      (n : ℕ)
      → IsWord n
      → inode_used s n ≡ true
      → k.sb_bread s.calls (idxi2bid s.info n) ≡ true
      → Returns (λ _. Freed inode_used (idxi2bid s.info n) s n) (put_inode k n s)
  unfolding inode_used
  put_inode-Freed n w used ok = rw (put_inode-done n used ok) (record {
    marked = λ m wm.
        test_bit-cleared (idxi2bid s.info n) n (idxi2bid s.info m) m
          (λ e. idxi2bid-injective s.info m n wm w (sym e)) (λ e. rw e);
    others = λ b ne. rw (ne→== b (idxi2bid s.info n) ne);
    dirtied = rw (==-refl (idxi2bid s.info n));
    same_info = refl;
    same_inodes = refl;
  })

  -- If the bitmap block of a data block number can be read and the number is marked, then
  -- `yaf_put_dblock` clears that mark and no other, changes no other block and no inode, and
  -- marks the bitmap block dirty.
  pub put_dblock-Freed :
      (n : ℕ)
      → IsLayout s.info
      → IsWord n
      → data_used s n ≡ true
      → k.sb_bread s.calls (idxd2bid s.info n) ≡ true
      → Returns (λ _. Freed data_used (idxd2bid s.info n) s n) (put_dblock k n s)
  unfolding data_used
  put_dblock-Freed n l w used ok = rw (put_dblock-done n used ok) (record {
    marked = λ m wm.
        test_bit-cleared (idxd2bid s.info n) n (idxd2bid s.info m) m
          (λ e. idxd2bid-injective s.info m n l wm w (sym e)) (λ e. rw e);
    others = λ b ne. rw (ne→== b (idxd2bid s.info n) ne);
    dirtied = rw (==-refl (idxd2bid s.info n));
    same_info = refl;
    same_inodes = refl;
  })
