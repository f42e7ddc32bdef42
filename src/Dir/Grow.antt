-- ===== src/Dir/Grow.antt =====
-- A directory without a free entry grows by one: the end of `yaf_get_free_dentry`.
use yaf.Base.{
  ℕ, ◌+◌, ◌*◌, ◌/◌, ◌%◌, ◌≤◌, ◌<◌, ◌≡◌, ◌≢◌, ◌⊎◌, ◌∙◌, sym, ap, inl, inr, refl, true, false, ◌==◌,
  arith, ==-refl, ne→==, ==→eq, get_elem?, set, some, length, true-false, Bool-cases,
  get_elem?-set_self, get_elem?-set_ne, length-set,
}
use yaf.Layout.{block_size, bid_dbp_min}
use yaf.Machine.{Inode, Sb, Kernel, Returns, update, done}
use yaf.Machine.Rules.{Returns-bind}
use yaf.Bitmap.{reserved_dno, get_free_dblock}
use yaf.Bitmap.Used.{data_used, data_used-kept, Allocated}
use yaf.Bitmap.Alloc.{get_free_dblock-Allocated}
use yaf.Bitmap.Cycle.{Allocated-le}
use yaf.Inode.{yaf_iblocks}
use yaf.Dentry.{dentry_size}
use yaf.Dir.{extend_dir, block_at}
use yaf.Dir.Ready.{Ready, SpareBlock}
use yaf.Dir.View.{HasBlocks}

-- Block `dno` of the data section is the one for the byte behind the directory's last, and no other
-- byte's.
pub record Extended (s : Sb) (dir dno : ℕ) (t : Sb) : Type 0 where
  pub same_info : t.info ≡ s.info
  pub same_size : (t.inode dir).i_size ≡ (s.inode dir).i_size
  pub eight : length (t.inode dir).i_block ≡ yaf_iblocks
  pub at : get_elem? (t.inode dir).i_block ((s.inode dir).i_size / block_size) ≡ some dno
  pub small : dno < s.info.nr_d
  pub used : data_used t dno ≡ true
  pub old :
      (i : ℕ)
      → (i * block_size < (s.inode dir).i_size)
        ⊎ ((s.inode dir).i_size + dentry_size ≤ i * block_size)
      → get_elem? (t.inode dir).i_block i ≡ get_elem? (s.inode dir).i_block i
  pub only :
      (i : ℕ)
      → i * block_size < (s.inode dir).i_size
      → get_elem? (s.inode dir).i_block i ≡ some dno
      → i ≡ (s.inode dir).i_size / block_size
  pub marks : (n : ℕ) → n < s.info.nr_d → data_used s n ≡ true → data_used t n ≡ true
  pub buffers : (b : ℕ) → b ≢ bid_dbp_min s.info → t.buffer b ≡ s.buffer b
  pub others : (n : ℕ) → n ≢ dir → t.inode n ≡ s.inode n
  pub origin :
      (data_used s dno ≡ false)
      ⊎ (((s.inode dir).i_size / block_size * block_size < (s.inode dir).i_size)
          × (get_elem? (s.inode dir).i_block ((s.inode dir).i_size / block_size) ≡ some dno))

pub block_at-some :
    (n i : ℕ) (s : Sb) (dno : ℕ)
    → get_elem? (s.inode n).i_block i ≡ some dno
    → block_at n i s ≡ done dno s
block_at-some n i s dno at = rw (at, block_at) refl

module _ {k : Kernel} {s : Sb} {dir : ℕ} (ready : Ready k s dir) (spare : SpareBlock k s)
    (h : HasBlocks s dir) (room : (s.inode dir).i_size < block_size * yaf_iblocks) where
  -- A block that is not full is the one for the next byte.
  not_full : (s.inode dir).i_size % block_size ≢ 0 → (dno : ℕ) × Extended s dir dno s
  not_full part =
      let (dno, at, small, used) = h.backed ((s.inode dir).i_size / block_size) (omega arith) in
      (
        dno,
        record {
          same_info = refl;
          same_size = refl;
          eight = h.eight;
          at = at;
          small = small;
          used = used;
          old = λ i ne. refl;
          only =
              λ i lt e. h.distinct i ((s.inode dir).i_size / block_size) dno lt (omega arith) e at;
          marks = λ n lt u. u;
          buffers = λ b ne. refl;
          others = λ n ne. refl;
          origin = inr (omega arith, at);
        },
      )

  -- The directory after a new block `dno` is put in its array.
  abbrev extended : ℕ → Sb → Sb
  extended dno t = record t {
    inode = update t.inode dir (record (t.inode dir) {
      i_block = set (t.inode dir).i_block ((s.inode dir).i_size / block_size) dno;
    });
  }

  new_block :
      (dno : ℕ) (t : Sb)
      → (s.inode dir).i_size % block_size ≡ 0
      → Allocated data_used (bid_dbp_min s.info) s dno t
      → Extended s dir dno (extended dno t)
  new_block dno t full al = record {
    same_info = al.same_info;
    same_size = rw (==-refl dir) (ap (λ (x : Inode). x.i_size) inodes);
    eight = rw (==-refl dir) (
        length-set (t.inode dir).i_block _ dno
        ∙ ap (λ (x : Inode). length x.i_block) inodes
        ∙ h.eight);
    at = rw (==-refl dir) (
        get_elem?-set_self (t.inode dir).i_block _ dno
          (omega (arith, ap (λ (x : Inode). length x.i_block) inodes, h.eight)));
    small = omega (arith, le, spare.in_range);
    used = kept dno ∙ al.marked dno (omega (arith, le, spare.bit)) ∙ rw (==-refl dno);
    old = λ i ne. rw (==-refl dir) (
        get_elem?-set_ne (t.inode dir).i_block dno (omega arith)
        ∙ ap (λ (x : Inode). get_elem? x.i_block i) inodes);
    only = λ i lt e. absurd (true-false (sym (already i lt e) ∙ al.was_free));
    marks = λ n lt u.
        kept n ∙ al.marked n (omega (arith, ready.layout.info.d_word)) ∙ ground (arith, u);
    buffers = al.others;
    others = λ n ne. rw (ne→== n dir ne) (ap (λ (x : ℕ → Inode). x n) al.same_inodes);
    origin = inl al.was_free;
  }
    where
      inodes : t.inode dir ≡ s.inode dir
      inodes = ap (λ (x : ℕ → Inode). x dir) al.same_inodes

      le : dno ≤ spare.dno
      le = Allocated-le data_used spare.dno al spare.free

      kept : (n : ℕ) → data_used (extended dno t) n ≡ data_used t n
      kept n = data_used-kept t (extended dno t) n refl refl

      already :
          (i : ℕ)
          → i * block_size < (s.inode dir).i_size
          → get_elem? (s.inode dir).i_block i ≡ some dno
          → data_used s dno ≡ true
      already i lt e =
          let (dno', at, small, used) = h.backed i lt in
          let same : dno' ≡ dno = cc (at, e) in ap (data_used s) (sym same) ∙ used

  pub extend_dir-Extended :
      Returns
        (λ b t. (b ≡ true) × ((dno : ℕ) × Extended s dir dno t))
        (extend_dir k dir (s.inode dir).i_size s)
  unfolding extend_dir
  extend_dir-Extended = elim (Bool-cases ((s.inode dir).i_size % block_size == 0)) [
    | inr part ↦ rw part (refl, not_full (ground arith))
    | inl full ↦ rw full (
        Returns-bind _ (get_free_dblock k s) _
          (get_free_dblock-Allocated ready.laws s ready.layout spare.dno spare.bit spare.free
            (ready.read _ _) (spare.stays _))
          λ dno t al.
            let small : dno ≤ spare.dno = Allocated-le data_used spare.dno al spare.free in
            rw
              (
                ne→== dno reserved_dno (omega (arith, spare.bit)),
                block_at-some dir ((s.inode dir).i_size / block_size) t reserved_dno (
                    ap
                      (λ (x : ℕ → Inode).
                        get_elem? (x dir).i_block ((s.inode dir).i_size / block_size))
                      al.same_inodes
                    ∙ h.spare ((s.inode dir).i_size / block_size) (ground arith) (omega arith)),
              )
              (refl, (dno, new_block dno t (==→eq _ _ full) al)))
  ]
