-- ===== src/Dir/Tree/Create.antt =====
-- `_yaf_create` of driver/inode.c keeps the inodes of a directory's names apart.
use yaf.Base.{ℕ, ◌*◌, ◌<◌, ◌≡◌, ◌≢◌, ◌∙◌, sym, ap, inl, inr, true, arith, true-false, none}
use yaf.Layout.{bits_per_block}
use yaf.Machine.{Sb, Kernel, ok, Returns}
use yaf.Machine.Rules.{Returns-mono}
use yaf.Bitmap.{reserved_ino}
use yaf.Bitmap.Used.{inode_used}
use yaf.Dentry.{Name}
use yaf.Dir.{create_entry}
use yaf.Dir.Ready.{Ready}
use yaf.Dir.View.{IsEntryName}
use yaf.Dir.Refine.{Dict, insert}
use yaf.Dir.Slots.{HasRoom}
use yaf.Dir.Fill.{Created}
use yaf.Dir.Create.{create_entry-Created}
use yaf.Dir.Tree.{Child, Apart, IsTree, Serves, SpareInode, insert-cases}
use yaf.File.Own.{Keeps-kept, IsOwn-kept, Keeps-empty, IsOwn-empty}

module _ {m : Dict} {s u : Sb} {dir : ℕ} (t : IsTree m s dir) {name : Name} {ino : ℕ}
    (c : Created m s dir name ino u) where
  -- A number that was marked is not the new one.
  differs : (i : ℕ) → inode_used s i ≡ true → i ≢ ino
  differs i used e = true-false (sym used ∙ ap (inode_used s) e ∙ c.was_free)

  new_bit : ino < s.info.nr_ibp * bits_per_block
  new_bit = omega (arith, c.in_first_block, t.layout.has_ibp)

  Child-new : Child u dir ino
  Child-new = record {
    other = c.not_dir;
    not_reserved = λ e. differs reserved_ino t.reserved (sym e);
    in_use = c.in_use;
    bit = rw c.frame.same_info new_bit;
    word = omega (arith, c.in_first_block);
    own = IsOwn-empty u ino c.empty c.no_blocks;
    unshared = λ q held mine. Keeps-empty u ino q c.no_blocks mine;
  }

  -- An inode of the map is as before.
  same_inode : (i : ℕ) → Child s dir i → u.inode i ≡ s.inode i
  same_inode i x = c.frame.other_inodes i x.other (differs i x.in_use)

  Child-kept : (i : ℕ) → Child s dir i → Child u dir i
  Child-kept i x = record {
    other = x.other;
    not_reserved = x.not_reserved;
    in_use = c.frame.number_marks i x.bit x.word x.in_use;
    bit = rw c.frame.same_info x.bit;
    word = x.word;
    own =
        IsOwn-kept c.frame.same_info (same_inode i x)
          (λ q held. let (small, used) = x.own.backed q held in c.frame.data_marks q small used)
          x.own;
    unshared = λ q dirs mine.
        let before = Keeps-kept s u i q (same_inode i x) mine in
        let (small, used) = x.own.backed q before in
        elim (c.frame.held q small dirs) [
          | inl held ↦ x.unshared q held before
          | inr free ↦ true-false (sym used ∙ free)
        ];
  }

  Apart-new : (j : ℕ) → Child s dir j → Apart u ino j × Apart u j ino
  Apart-new j y = (
    (λ e. differs j y.in_use (sym e), λ q mine its. Keeps-empty u ino q c.no_blocks mine),
    (differs j y.in_use, λ q its mine. Keeps-empty u ino q c.no_blocks mine),
  )

  Apart-kept : (i j : ℕ) → Child s dir i → Child s dir j → Apart s i j → Apart u i j
  Apart-kept i j x y (ne, free) = (
    ne,
    λ q hi hj.
        free q (Keeps-kept s u i q (same_inode i x) hi) (Keeps-kept s u j q (same_inode j y) hj),
  )

  Created-IsTree : IsTree (insert name ino m) u dir
  Created-IsTree = record {
    layout = rw c.frame.same_info t.layout;
    bits = rw c.frame.same_info t.bits;
    reserved =
        c.frame.number_marks reserved_ino (omega (arith, t.layout.has_ibp)) (omega arith)
          t.reserved;
    dir_used = c.frame.number_marks dir t.dir_bit t.dir_word t.dir_used;
    dir_bit = rw c.frame.same_info t.dir_bit;
    dir_word = t.dir_word;
    is_dir = c.is_dir;
    refines = c.refines;
    child = λ n i entry e. elim (insert-cases name n ino i m e) [
      | inl (_, new) ↦ rw new Child-new
      | inr old ↦ Child-kept i (t.child n i entry old)
    ];
    apart = λ n o i j ne_ oe differ ei ej. elim (insert-cases name n ino i m ei) [
      | inl (nn, new) ↦ elim (insert-cases name o ino j m ej) [
        | inl (on, _) ↦ absurd (differ (nn ∙ sym on))
        | inr old ↦ rw new (Apart-new j (t.child o j oe old)).0
      ]
      | inr old ↦ elim (insert-cases name o ino j m ej) [
        | inl (_, new) ↦ rw new (Apart-new i (t.child n i ne_ old)).1
        | inr old' ↦
            Apart-kept i j (t.child n i ne_ old) (t.child o j oe old')
              (t.apart n o i j ne_ oe differ old old')
      ]
    ];
  }

-- In a directory whose names have inodes of their own, with a kernel whose calls succeed, a free inode
-- number that a bit of the first block of the inode bitmap stands for, and room in the directory, an
-- unused entry or, below the largest size, a free block whose bit is in the first block of the data
-- bitmap, the buffer of which stays in the cache from its release in `yaf_get_free_dblock` to its mark:
-- `_yaf_create` of a name that fits and is not there returns the
-- number of an inode, and the directory implements the map with the name inserted, where again no two
-- names and not the directory share an inode or a block.
pub create_entry-IsTree :
    (k : Kernel) (m : Dict) (s : Sb) (dir : ℕ) (name : Name) (mode : ℕ)
    → Serves k
    → IsTree m s dir
    → SpareInode s
    → HasRoom k s dir
    → IsEntryName name
    → m name ≡ none
    → Returns
        (λ r u. (ino : ℕ) × (r ≡ ok ino) × IsTree (insert name ino m) u dir)
        (create_entry k dir name mode s)
create_entry-IsTree k m s dir name mode serves t spare room n gone =
    Returns-mono {P = λ r u. (ino : ℕ) × (r ≡ ok ino) × Created m s dir name ino u} _ _
      (create_entry-Created ready t.is_dir m t.refines name mode n gone room)
      λ r u (ino, e, c). (ino, e, Created-IsTree t c)
  where
    ready : Ready k s dir
    ready = record {
      laws = serves.laws;
      read = serves.read;
      memory = serves.memory;
      layout = t.layout;
      bits = t.bits;
      spare_ino = spare.ino;
      spare_bit = spare.bit;
      spare_in_range = spare.in_range;
      spare_free = spare.free;
      reserved = t.reserved;
      dir_used = t.dir_used;
      dir_bit = t.dir_bit;
      dir_word = t.dir_word;
    }
