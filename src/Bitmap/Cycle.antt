-- ===== src/Bitmap/Cycle.antt =====
-- Allocation followed by release.
use yaf.Base.{ℕ, ◌<◌, ◌≤◌, ◌≡◌, Bool, true, false, arith, Bool-cases, inl, inr, ltb, ltb→lt, ltb→ge}
use yaf.Base.Word.{IsWord}
use yaf.Layout.{SbInfo, bits_per_block, idxi2bid, idxd2bid, bid_ibp_min, bid_dbp_min}
use yaf.Layout.Bounds.{bid_ibp_min-eq, bid_dbp_min-eq}
use yaf.Layout.Regions.{IsLayout}
use yaf.Machine.{Kernel, Sb, Returns, ◌>>=◌}
use yaf.Machine.Bits.{IsBitops}
use yaf.Machine.Rules.{Returns-bind, Returns-mono}
use yaf.Bitmap.{put_inode, get_free_inode}
use yaf.Bitmap.Used.{inode_used, Allocated}
use yaf.Bitmap.Alloc.{get_free_inode-Allocated}
use yaf.Bitmap.Free.{Freed, put_inode-Freed}

-- The least free number is not above any free one.
pub Allocated-le :
    (used : Sb → ℕ → Bool) {bid a : ℕ} {s s' : Sb} (n : ℕ)
    → Allocated used bid s a s'
    → used s n ≡ false
    → a ≤ n
Allocated-le used {a} n al free = elim (Bool-cases (ltb n a)) [
  | inl lt ↦ absurd (cc (free, al.least n (ltb→lt _ _ lt)))
  | inr ge ↦ ltb→ge _ _ ge
]

pub idxi2bid-first : (i : SbInfo) (n : ℕ) → n < bits_per_block → idxi2bid i n ≡ bid_ibp_min i
unfolding idxi2bid
idxi2bid-first i n h = omega (arith, bid_ibp_min-eq i)

pub idxd2bid-first :
    (i : SbInfo) (n : ℕ) → IsLayout i → n < bits_per_block → idxd2bid i n ≡ bid_dbp_min i
unfolding idxd2bid
idxd2bid-first i n l h = omega (arith, bid_dbp_min-eq l.info, l.fits)

-- The marks of `s'` are those of `s`.
abbrev pub SameMarks : (Sb → ℕ → Bool) → Sb → Sb → Type 0
SameMarks used s s' = (m : ℕ) → IsWord m → used s' m ≡ used s m

SameMarks-cycle :
    (used : Sb → ℕ → Bool) {bid bid' a : ℕ} {s t u : Sb}
    → Allocated used bid s a t
    → Freed used bid' t a u
    → SameMarks used s u
SameMarks-cycle used al fr m w = ground (arith, fr.marked m w, al.marked m w, al.was_free)

module _ {k : Kernel} (laws : IsBitops k) (s : Sb) (l : IsLayout s.info) where
  -- If the first block of the inode bitmap has a clear bit and can be read at every call, then
  -- `yaf_put_inode` of the number that `yaf_get_free_inode` returns succeeds, and restores every
  -- mark of the inode bitmap.
  pub get_free_inode-put_inode :
      (n : ℕ)
      → n < bits_per_block
      → inode_used s n ≡ false
      → ((c : ℕ) → k.sb_bread c (bid_ibp_min s.info) ≡ true)
      → Returns (λ _. SameMarks inode_used s) ((get_free_inode k >>= put_inode k) s)
  get_free_inode-put_inode n h free ok =
      Returns-bind (λ _. SameMarks inode_used s) (get_free_inode k s) (put_inode k)
        (get_free_inode-Allocated laws s l n h free (ok s.calls))
        λ a t al.
          let small : a < bits_per_block = omega (arith, Allocated-le inode_used n al free) in
          let taken : inode_used t a ≡ true = ground (arith, al.marked a) in
          let here = idxi2bid-first t.info a small in
          Returns-mono (λ _. SameMarks inode_used s) (put_inode k a t)
            (put_inode-Freed laws t a (omega arith) taken (rw (here, al.same_info) (ok t.calls)))
            λ _ u fr. SameMarks-cycle inode_used al fr
