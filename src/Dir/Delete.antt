-- ===== src/Dir/Delete.antt =====
-- `yaf_delete` of driver/inode.c removes a name from the abstract directory, and gives back the
-- inode and its blocks with the last link.
use yaf.Base.{
  ℕ, ◌*◌, ◌/◌, ◌%◌, ◌<◌, ◌≡◌, ◌≢◌, ◌∙◌, sym, ap, refl, true, arith, ==-refl, ne→==, some, none,
  get_elem?, ltb, true-false,
}
use yaf.Base.Word.{IsWord}
use yaf.Layout.{IsInfo, bits_per_block, block_size, dno2bid, idxd2bid, idxi2bid}
use yaf.Machine.{
  Block, Inode, Sb, Kernel, Cmd, Result, ok, err, Returns, update, panic, pure, get, now,
  set_buffer, set_inode, mark_buffer_dirty, mark_inode_dirty, ◌>>=◌, ◌>>◌,
}
use yaf.Machine.Bytes.{put32, put32-Outside}
use yaf.Machine.Rules.{Returns-bind, Returns-mono, update_self, update_ne}
use yaf.Bitmap.{reserved_ino}
use yaf.Bitmap.Used.{data_used, inode_used, data_used-kept, inode_used-kept}
use yaf.Inode.{eio}
use yaf.Dentry.{Name, dentry_size, has_name}
use yaf.Dentry.Scan.{passes, after_calls}
use yaf.Dir.{lookup_offset, bread_at, touch, drop_inode, delete}
use yaf.Dir.Apart.{dno2bid-apart, idxi2bid-apart}
use yaf.Dir.View.{IsDir, IsEntryName, Rewrote}
use yaf.Dir.Refine.{Dict, Refines, remove, passes-inv, binds-has_name}
use yaf.Dir.Remove.{remove-Refines, remove-IsDir}
use yaf.Dir.Release.{Holds}
use yaf.Dir.Lookup.{FirstNamed, lookup_offset-FirstNamed}
use yaf.Dir.Grow.{block_at-some}
use yaf.Dir.Same.{SameDir, SameDir-IsDir, SameDir-Refines}
use yaf.Dir.Drop.{Dropped, Droppable, Gone, drop_inode-Dropped}

-- The inode of a name can be deleted: it is not the directory, and shares no block with it.
pub record Deletable (k : Kernel) (s : Sb) (dir ino : ℕ) : Type 0 where
  pub droppable : Droppable k s ino
  pub other : ino ≢ dir
  pub unshared : (q : ℕ) → Holds s dir 0 q → Holds s ino 0 q → ⊥

-- What the deletion leaves of the rest of the file system: the other inodes, the marks of blocks that
-- the inode does not hold, and the marks of the other numbers. The directory has no new block.
pub record Cleared (s : Sb) (dir ino : ℕ) (u : Sb) : Type 0 where
  pub same_info : u.info ≡ s.info
  pub other_inodes : (n : ℕ) → n ≢ dir → n ≢ ino → u.inode n ≡ s.inode n
  pub data_marks :
      (q : ℕ)
      → q < s.info.nr_d
      → (Holds s ino 0 q → ⊥)
      → data_used s q ≡ true
      → data_used u q ≡ true
  pub number_marks :
      (n : ℕ)
      → n ≢ ino
      → n < s.info.nr_ibp * bits_per_block
      → IsWord n
      → inode_used s n ≡ true
      → inode_used u n ≡ true
  pub held : (q : ℕ) → Holds u dir 0 q → Holds s dir 0 q

-- The name is gone, and the inode number and the blocks of the inode are free unless a link is left.
abbrev pub Removed : Kernel → Sb → (dir ino : ℕ) → Dict → Name → Result (Unit {0}) → Sb → Type 0
Removed k s dir ino m name r u =
    (r ≡ ok tt)
    × IsDir u dir
    × Refines (remove name m) u dir
    × (inode_used u ino ≡ ltb 1 (k.drop_nlink (s.inode ino).i_nlink))
    × ((q : ℕ) → Holds s ino 0 q → data_used u q ≡ ltb 1 (k.drop_nlink (s.inode ino).i_nlink))
    × Cleared s dir ino u

-- The state `t` in which the entry at `e`, in block `dno`, is cleared.
module _ {k : Kernel} {s : Sb} {dir ino : ℕ} (x : Deletable k s dir ino) (h : IsDir s dir)
    {m : Dict} (refines : Refines m s dir) (name : Name) (n : IsEntryName name) (e dno : ℕ)
    (le : e < (s.inode dir).i_size) (me : e % dentry_size ≡ 0)
    (named : passes s dir (has_name name) e ≡ true)
    (at : get_elem? (s.inode dir).i_block (e / block_size) ≡ some dno) (t : Sb)
    (info : t.info ≡ s.info)
    (buffer : t.buffer
      ≡ update s.buffer
          (dno2bid s.info dno)
          (put32 (s.buffer (dno2bid s.info dno)) (e % block_size) reserved_ino))
    (blocks : (t.inode dir).i_block ≡ (s.inode dir).i_block)
    (size : (t.inode dir).i_size ≡ (s.inode dir).i_size)
    (others : (n : ℕ) → n ≢ dir → t.inode n ≡ s.inode n) where
  same_ino : t.inode ino ≡ s.inode ino
  same_ino = others ino x.other

  d : Droppable k s ino
  d = x.droppable

  w : IsInfo s.info
  w = d.layout.info

  abbrev p : ℕ
  p = dno2bid s.info dno

  small : dno < s.info.nr_d
  small =
      let (dno', at', lt, used) = h.blocks.backed (e / block_size) (omega arith) in
      let one : dno' ≡ dno = cc (at, at') in omega (arith, one)

  kept : (b : ℕ) → b ≢ p → t.buffer b ≡ s.buffer b
  kept b ne = ap (λ (f : ℕ → Block). f b) buffer ∙ rw (ne→== b p ne) refl

  far : (q : ℕ) → q < s.info.nr_d → idxd2bid s.info q ≢ p
  far q lq same =
      (dno2bid-apart s.info dno q d.layout small (omega (arith, d.bits))
          (omega (arith, w.d_word))).1
        (sym same)

  marks : (q : ℕ) → q < s.info.nr_d → data_used t q ≡ data_used s q
  marks q lq = data_used-kept s t q info (kept (idxd2bid s.info q) (far q lq))

  numbers :
      (q : ℕ) → q < s.info.nr_ibp * bits_per_block → IsWord q → inode_used t q ≡ inode_used s q
  numbers q bit wq =
      inode_used-kept s t q info
        (kept (idxi2bid s.info q) (idxi2bid-apart s.info dno q d.layout small bit wq).0)

  rewrote : Rewrote s dir e dno (put32 (s.buffer p) (e % block_size) reserved_ino) t
  rewrote = record {
    at = at;
    same_info = info;
    same_blocks = blocks;
    same_size = size;
    here = ap (λ (f : ℕ → Block). f p) buffer ∙ rw (==-refl p) refl;
    around =
        λ o out. put32-Outside (s.buffer p) (e % block_size) reserved_ino o (omega (arith, out));
    others = λ b lo ne. kept b ne;
  }

  is_dir : IsDir t dir
  is_dir =
      remove-IsDir (s.buffer p) name m w h rewrote le me named n refines
        (λ q lq used. marks q lq ∙ used)

  gone : Refines (remove name m) t dir
  gone = remove-Refines (s.buffer p) name m w h rewrote le me named n refines

  droppable : Droppable k t ino
  droppable = record {
    laws = d.laws;
    read = d.read;
    layout = rw info d.layout;
    bits = rw info d.bits;
    owned = record {
      backed = λ i lo hi.
          let (q, there, lq, used) = d.owned.backed i lo (rw same_ino at hi) in
          (q, rw same_ino there, rw info lq, marks q lq ∙ used);
      distinct = rw same_ino d.owned.distinct;
    };
    in_use = numbers ino d.bit d.word ∙ d.in_use;
    bit = rw info d.bit;
    word = d.word;
  }

  same : {u : Sb} → Dropped t ino (k.drop_nlink (t.inode ino).i_nlink) u → SameDir t dir u
  same y = record {
    info = y.same_info;
    blocks = ap (λ (i : Inode). i.i_block) (y.other_inodes dir (λ q. x.other (sym q)));
    size = ap (λ (i : Inode). i.i_size) (y.other_inodes dir (λ q. x.other (sym q)));
    bytes = y.bytes;
    marks = λ i q lt there lq used.
        y.other_blocks q lq
          (λ held.
            x.unshared q
              (i, omega arith, omega (arith, size), sym (ap (λ bs. get_elem? bs i) blocks) ∙ there)
              (rw same_ino at held))
          used;
  }

  cleared : {u : Sb} → Dropped t ino (k.drop_nlink (t.inode ino).i_nlink) u → Cleared s dir ino u
  cleared y = record {
    same_info = y.same_info ∙ info;
    other_inodes = λ q nd ni. y.other_inodes q ni ∙ others q nd;
    data_marks = λ q lq free used.
        y.other_blocks q (rw info lq) (λ held. free (rw same_ino at held)) (marks q lq ∙ used);
    number_marks =
        λ q ne bit wq used. y.other_numbers q ne (rw info bit) wq (numbers q bit wq ∙ used);
    held = λ q now. rw ((same y).blocks, (same y).size, blocks, size) at now;
  }

  cleared-Removed : Returns (Removed k s dir ino m name) (drop_inode k ino t)
  cleared-Removed =
      Returns-mono {P = Gone t ino (k.drop_nlink (t.inode ino).i_nlink)} _ _
        (drop_inode-Dropped k t ino droppable)
        λ r u (done, y). (
          done,
          SameDir-IsDir (rw info w) is_dir (same y),
          SameDir-Refines (rw info w) is_dir (same y) gone,
          y.number ∙ ap (λ (i : Inode). ltb 1 (k.drop_nlink i.i_nlink)) same_ino,
          λ q held.
              y.own_blocks q (rw same_ino held)
              ∙ ap (λ (i : Inode). ltb 1 (k.drop_nlink i.i_nlink)) same_ino,
          cleared y,
        )

-- In a well-formed directory that implements a map, with a device that can be read: `yaf_delete` of a
-- name of the map, whose inode is marked, has blocks of its own and shares none with the directory,
-- returns and removes that name and no other, and the directory stays well-formed. The inode number
-- and the inode's blocks are free afterwards, unless `drop_nlink` leaves more than one link. The other
-- inodes are as before, and the other numbers and blocks stay marked.
pub delete-Removed :
    (k : Kernel) (s : Sb) (dir ino : ℕ) (m : Dict) (name : Name)
    → Deletable k s dir ino
    → IsDir s dir
    → Refines m s dir
    → IsEntryName name
    → m name ≡ some ino
    → Returns (Removed k s dir ino m name) (delete k dir name ino s)
unfolding delete
delete-Removed k s dir ino m name x h refines n there =
    Returns-bind _ (lookup_offset k dir name s) _
      (lookup_offset-FirstNamed k dir s name x.droppable.read
        (omega (arith, h.blocks.eight, h.blocks.sized)) n.1)
      λ a t first. ending a t first
  where
    ending :
        (a : Result ℕ) (t : Sb)
        → FirstNamed s dir name a × ((c : ℕ) × (t ≡ after_calls s c))
        → Returns (Removed k s dir ino m name) (
            (elim a as (λ y. Cmd (Result (Unit {0}))) [
              | err e ↦ (λ _. panic)
              | ok doff ↦ (do
                bh ← bread_at k dir doff
                elim bh as (λ y. Cmd (Result (Unit {0}))) [
                  | none ↦ pure (err eio)
                  | some p ↦ (do
                    u ← get
                    set_buffer p (put32 (u.buffer p) (doff % block_size) reserved_ino)
                    mark_buffer_dirty p
                    cur ← now k
                    v ← get
                    set_inode dir (record (touch cur (v.inode dir)) {
                      i_nlink = k.drop_nlink (v.inode dir).i_nlink;
                    })
                    mark_inode_dirty dir
                    drop_inode k ino)
                ])
            ])
              t)
    ending (err e) t ((code, fails), same) =
        let (at, le, me, p) = (refines name n ino).1 there in
        absurd
          (true-false (sym (binds-has_name s dir name ino at p) ∙ fails at (omega arith) le me))
    ending (ok e) t ((lt, md, named, before), (c, same)) =
        let (dno, at, here) = passes-inv s dir (has_name name) e named in
        rw
          (
            same,
            block_at-some dir (e / block_size) (after_calls s c) dno at,
            x.droppable.read c (dno2bid s.info dno),
          )
          (cleared-Removed x h refines name n e dno lt md named at _ refl refl
            (ap (λ (i : Inode). i.i_block) (update_self s.inode dir _))
            (ap (λ (i : Inode). i.i_size) (update_self s.inode dir _))
            (λ q ne. update_ne s.inode dir q _ ne))
