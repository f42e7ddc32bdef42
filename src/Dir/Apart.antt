-- ===== src/Dir/Apart.antt =====
-- The blocks of the data section, where directories have their entries, lie apart from both bitmaps.
use yaf.Base.{ℕ, ◌*◌, ◌≤◌, ◌<◌, ◌≡◌, ◌≢◌, arith}
use yaf.Layout.{
  SbInfo, IsInfo, dno2bid, bid_d_min, bid_ibp_min, bid_dbp_min, idxd2bid, idxi2bid, bits_per_block,
}
use yaf.Layout.Bounds.{bid_d_min-eq, bid_ibp_min-eq, bid_dbp_min-eq}
use yaf.Layout.Regions.{IsLayout}
use yaf.Base.Word.{IsWord}

pub dno2bid-injective :
    (i : SbInfo) (a b : ℕ) → IsInfo i → a < i.nr_d → b < i.nr_d → dno2bid i a ≡ dno2bid i b → a ≡ b
unfolding dno2bid
dno2bid-injective i a b w ha hb e =
    omega (arith, bid_d_min-eq w, w.d_word, w.ibp_word, w.dbp_word, w.i_word)

pub dno2bid-le : (i : SbInfo) (a : ℕ) → IsInfo i → a < i.nr_d → bid_d_min i ≤ dno2bid i a
unfolding dno2bid
dno2bid-le i a w ha = omega (arith, bid_d_min-eq w, w.d_word, w.ibp_word, w.dbp_word, w.i_word)

-- The blocks of the directories lie apart from both bitmaps, if the data bitmap is large enough for
-- the data blocks.
pub dno2bid-apart :
    (i : SbInfo) (dno n : ℕ)
    → IsLayout i
    → dno < i.nr_d
    → n < i.nr_dbp * bits_per_block
    → IsWord n
    → (dno2bid i dno ≢ bid_ibp_min i)
      × (dno2bid i dno ≢ idxd2bid i n)
      × (idxd2bid i n ≢ bid_ibp_min i)
unfolding dno2bid idxd2bid
dno2bid-apart i dno n l small bit word =
    omega (arith, bid_d_min-eq l.info, bid_ibp_min-eq i, bid_dbp_min-eq l.info, l.fits, l.has_ibp)

-- The bits of the inode bitmap lie apart from the first block of the data bitmap and from the data
-- section.
pub idxi2bid-apart :
    (i : SbInfo) (dno n : ℕ)
    → IsLayout i
    → dno < i.nr_d
    → n < i.nr_ibp * bits_per_block
    → IsWord n
    → (idxi2bid i n ≢ dno2bid i dno) × (idxi2bid i n ≢ bid_dbp_min i)
unfolding dno2bid idxi2bid
idxi2bid-apart i dno n l small bit word =
    omega (arith, bid_d_min-eq l.info, bid_ibp_min-eq i, bid_dbp_min-eq l.info, l.fits, l.has_dbp)

pub dno2bid-ne_dbp_min :
    (i : SbInfo) (dno : ℕ) → IsLayout i → dno < i.nr_d → dno2bid i dno ≢ bid_dbp_min i
unfolding dno2bid
dno2bid-ne_dbp_min i dno l small =
    omega (arith, bid_d_min-eq l.info, bid_dbp_min-eq l.info, l.fits, l.has_dbp)
