-- ===== src/Dir/Drop.antt =====
-- The end of `yaf_delete` of driver/inode.c: the link count, and with the last link the blocks and the
-- number of the inode.
use yaf.Base.{
  ℕ, ◌*◌, ◌≤◌, ◌<◌, ◌≡◌, ◌≢◌, ◌∙◌, sym, ap, inl, inr, refl, true, false, arith, Bool-cases, ==-refl,
  ne→==, ltb,
}
use yaf.Base.Word.{IsWord}
use yaf.Layout.{SbInfo, bits_per_block, idxd2bid, idxi2bid, bid_d_min}
use yaf.Layout.Bounds.{bid_d_min-eq, bid_ibp_min-eq, bid_dbp_min-eq}
use yaf.Layout.Regions.{IsLayout}
use yaf.Machine.{Inode, Sb, Kernel, Result, ok, Returns, update, pure, mark_inode_dirty, ◌>>◌}
use yaf.Machine.Bits.{IsBitops}
use yaf.Machine.Rules.{Returns-bind, Returns-mono, update_self, update_ne}
use yaf.Bitmap.{put_inode}
use yaf.Bitmap.Used.{data_used, inode_used, data_used-kept, inode_used-kept}
use yaf.Bitmap.Free.{Freed, put_inode-Freed}
use yaf.Dir.{put_blocks, rounds_for, drop_inode}
use yaf.Dir.Release.{Owned, Holds, Released, put_blocks-Released}

-- The bits of the inode bitmap stand before those of the data bitmap, and these before the data.
bitmaps_apart :
    (i : SbInfo) (ino q : ℕ)
    → IsLayout i
    → ino < i.nr_ibp * bits_per_block
    → IsWord ino
    → q < i.nr_dbp * bits_per_block
    → IsWord q
    → (idxi2bid i ino < idxd2bid i q) × (idxd2bid i q < bid_d_min i)
unfolding idxi2bid idxd2bid
bitmaps_apart i ino q l bi wi bq wq =
    omega (arith, bid_d_min-eq l.info, bid_ibp_min-eq i, bid_dbp_min-eq l.info, l.fits)

-- What `yaf_delete` does once the entry is cleared, when `left` links are left: the inode number and
-- the blocks of the inode are free unless a link is left, the other blocks and numbers stay marked, and
-- the data blocks, the other inodes and the layout are as before.
pub record Dropped (s : Sb) (ino left : ℕ) (u : Sb) : Type 0 where
  pub same_info : u.info ≡ s.info
  pub other_inodes : (n : ℕ) → n ≢ ino → u.inode n ≡ s.inode n
  pub bytes : (b : ℕ) → bid_d_min s.info ≤ b → u.buffer b ≡ s.buffer b
  pub number : inode_used u ino ≡ ltb 1 left
  pub own_blocks : (q : ℕ) → Holds s ino 0 q → data_used u q ≡ ltb 1 left
  pub other_blocks :
      (q : ℕ)
      → q < s.info.nr_d
      → (Holds s ino 0 q → ⊥)
      → data_used s q ≡ true
      → data_used u q ≡ true
  pub other_numbers :
      (n : ℕ)
      → n ≢ ino
      → n < s.info.nr_ibp * bits_per_block
      → IsWord n
      → inode_used s n ≡ true
      → inode_used u n ≡ true

-- The inode can be given back: it is marked, and its blocks are its own.
pub record Droppable (k : Kernel) (s : Sb) (ino : ℕ) : Type 0 where
  pub laws : IsBitops k
  pub read : (c b : ℕ) → k.sb_bread c b ≡ true
  pub layout : IsLayout s.info
  pub bits : s.info.nr_d ≤ s.info.nr_dbp * bits_per_block
  pub owned : Owned s ino 0
  pub in_use : inode_used s ino ≡ true
  pub bit : ino < s.info.nr_ibp * bits_per_block
  pub word : IsWord ino

module _ {k : Kernel} {s : Sb} {ino : ℕ} (d : Droppable k s ino) where
  before_bit :
      (n : ℕ)
      → n < s.info.nr_ibp * bits_per_block
      → IsWord n
      → (q : ℕ) → q < s.info.nr_d
      → (idxi2bid s.info n < idxd2bid s.info q) × (idxd2bid s.info q < bid_d_min s.info)
  before_bit n bit wn q lq =
      bitmaps_apart s.info n q d.layout bit wn (omega (arith, d.bits))
        (omega (arith, d.layout.info.d_word))

  before :
      (q : ℕ)
      → q < s.info.nr_d
      → (idxi2bid s.info ino < idxd2bid s.info q) × (idxd2bid s.info q < bid_d_min s.info)
  before q lq = before_bit ino d.bit d.word q lq

  inode_before : idxi2bid s.info ino < bid_d_min s.info
  inode_before = omega (
    arith,
    bitmaps_apart s.info ino 0 d.layout d.bit d.word (omega (arith, d.layout.has_dbp))
        (omega arith),
  )

  Holds-small : (q : ℕ) → Holds s ino 0 q → (q < s.info.nr_d) × (data_used s q ≡ true)
  Holds-small q (i, lo, hi, at) =
      let (q', at', small, used) = d.owned.backed i lo hi in
      let same : q' ≡ q = cc (at, at') in (omega (arith, same), rw same at used)

  -- After the blocks, the number is given back.
  Released-Dropped :
      (left : ℕ) (t u : Sb)
      → ltb 1 left ≡ false
      → Released s ino 0 t
      → Freed inode_used (idxi2bid t.info ino) t ino u
      → Dropped s ino left u
  Released-Dropped left t u last r f = record {
    same_info = f.same_info ∙ r.same_info;
    other_inodes = λ n ne. ap (λ (x : ℕ → Inode). x n) (f.same_inodes ∙ r.same_inodes);
    bytes = λ b le.
        f.others b (rw r.same_info (omega (arith, inode_before)))
        ∙ r.bytes b (λ q lq. omega (arith, before q lq));
    number = f.marked ino d.word ∙ rw (==-refl ino, last) refl;
    own_blocks = λ q held. mark q (Holds-small q held).0 ∙ r.freed q held ∙ sym last;
    other_blocks = λ q lq not_held used. mark q lq ∙ r.kept q lq not_held used;
    other_numbers = λ n ne bit wn used.
        f.marked n wn
        ∙ rw (ne→== n ino ne) (
            inode_used-kept s t n r.same_info
              (r.bytes (idxi2bid s.info n) (λ q lq. omega (arith, before_bit n bit wn q lq)))
            ∙ used);
  }
    where
      mark : (q : ℕ) → q < s.info.nr_d → data_used u q ≡ data_used t q
      mark q lq =
          data_used-kept t u q f.same_info
            (f.others (idxd2bid t.info q) (rw r.same_info (omega (arith, before q lq))))

-- A change of an inode's link count alone.
abbrev relinked : ℕ → ℕ → Sb → Sb
relinked ino left s = record s {
  inode = update s.inode ino (record (s.inode ino) { i_nlink = left });
}

relinked-inode :
    (ino left : ℕ) (s : Sb)
    → (relinked ino left s).inode ino ≡ record (s.inode ino) { i_nlink = left }
relinked-inode ino left s = update_self s.inode ino (record (s.inode ino) { i_nlink = left })

relinked-Droppable :
    {k : Kernel} {s : Sb} {ino : ℕ} (left : ℕ)
    → Droppable k s ino
    → Droppable k (relinked ino left s) ino
unfolding data_used inode_used
relinked-Droppable {s = s} {ino = ino} left d = record {
  laws = d.laws;
  read = d.read;
  layout = d.layout;
  bits = d.bits;
  owned = record {
    backed = rw (relinked-inode ino left s) d.owned.backed;
    distinct = rw (relinked-inode ino left s) d.owned.distinct;
  };
  in_use = d.in_use;
  bit = d.bit;
  word = d.word;
}

relinked-Dropped :
    {s u : Sb} (ino left n : ℕ) → Dropped (relinked ino left s) ino n u → Dropped s ino n u
unfolding data_used inode_used
relinked-Dropped {s = s} ino left n d = record {
  same_info = d.same_info;
  other_inodes = λ m ne. d.other_inodes m ne ∙ update_ne s.inode ino m _ ne;
  bytes = d.bytes;
  number = d.number;
  own_blocks = rw (relinked-inode ino left s) at d.own_blocks;
  other_blocks = rw (relinked-inode ino left s) at d.other_blocks;
  other_numbers = d.other_numbers;
}

Dropped-dirty :
    {s u : Sb} {ino left : ℕ}
    → Dropped s ino left u
    → Dropped s ino left (record u { inode_dirty = update u.inode_dirty ino true })
unfolding data_used inode_used
Dropped-dirty x = record {
  same_info = x.same_info;
  other_inodes = x.other_inodes;
  bytes = x.bytes;
  number = x.number;
  own_blocks = x.own_blocks;
  other_blocks = x.other_blocks;
  other_numbers = x.other_numbers;
}

Dropped-linked :
    {k : Kernel} {s : Sb} {ino : ℕ} (left : ℕ)
    → Droppable k s ino
    → ltb 1 left ≡ true
    → Dropped s ino left s
Dropped-linked left d more = record {
  same_info = refl;
  other_inodes = λ n ne. refl;
  bytes = λ b le. refl;
  number = d.in_use ∙ sym more;
  own_blocks = λ q held. (Holds-small d q held).1 ∙ sym more;
  other_blocks = λ q lq not_held used. used;
  other_numbers = λ n ne bit wn used. used;
}

abbrev pub Gone : Sb → (ino left : ℕ) → Result (Unit {0}) → Sb → Type 0
Gone s ino left r u = (r ≡ ok tt) × Dropped s ino left u

module _ {k : Kernel} {s : Sb} {ino : ℕ} (d : Droppable k s ino) where
  -- No link is left.
  give_back :
      (left size : ℕ)
      → ltb 1 left ≡ false
      → (s.inode ino).i_size ≡ size
      → Returns (Gone s ino left) (
          (do
            put_blocks k ino (rounds_for size) 0
            put_inode k ino
            mark_inode_dirty ino
            pure (ok tt))
            s)
  give_back left size last same =
      Returns-bind _ (put_blocks k ino (rounds_for size) 0 s) _
        (put_blocks-Released d.laws d.read ino (rounds_for size) 0 s d.layout d.owned refl
          (inr (omega arith)) (omega arith))
        λ x t r.
          Returns-bind _ (put_inode k ino t) _
            (put_inode-Freed d.laws t ino d.word (still r) (d.read t.calls (idxi2bid t.info ino)))
            λ y u f. (refl, Dropped-dirty (Released-Dropped d left t u last r f))
    where
      still : {t : Sb} → Released s ino 0 t → inode_used t ino ≡ true
      still {t} r =
          inode_used-kept s t ino r.same_info
            (r.bytes (idxi2bid s.info ino) (λ q lq. omega (arith, before d q lq)))
          ∙ d.in_use

pub drop_inode-Dropped :
    (k : Kernel) (s : Sb) (ino : ℕ)
    → Droppable k s ino
    → Returns (Gone s ino (k.drop_nlink (s.inode ino).i_nlink)) (drop_inode k ino s)
unfolding drop_inode
drop_inode-Dropped k s ino d =
    let left : ℕ = k.drop_nlink (s.inode ino).i_nlink in
    elim (Bool-cases (ltb 1 left)) [
      | inl more ↦ rw more (
        refl,
        Dropped-dirty
            (relinked-Dropped ino left left (Dropped-linked left (relinked-Droppable left d) more)),
      )
      | inr last ↦ rw last (
          Returns-mono {P = Gone (relinked ino left s) ino left} _ _
            (give_back (relinked-Droppable left d) left (s.inode ino).i_size last
              (ap (λ (i : Inode). i.i_size) (relinked-inode ino left s)))
            λ r u (e, x). (e, relinked-Dropped ino left left x))
    ]
