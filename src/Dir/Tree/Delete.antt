-- ===== src/Dir/Tree/Delete.antt =====
-- `yaf_delete` of driver/inode.c keeps the inodes of a directory's names apart.
use yaf.Base.{ℕ, ◌≡◌, sym, arith, some}
use yaf.Machine.{Sb, Kernel, ok, Returns}
use yaf.Machine.Rules.{Returns-mono}
use yaf.Bitmap.{reserved_ino}
use yaf.Dentry.{Name}
use yaf.Dir.{delete}
use yaf.Dir.View.{IsDir, IsEntryName}
use yaf.Dir.Refine.{Dict, Refines, remove}
use yaf.Dir.Delete.{Deletable, Removed, Cleared, delete-Removed}
use yaf.Dir.Tree.{Child, Apart, IsTree, Serves, remove-cases}
use yaf.File.Own.{Keeps-kept, IsOwn-kept, IsOwn-Owned, Holds-Keeps}

module _ {m : Dict} {s u : Sb} {dir : ℕ} (t : IsTree m s dir) {name : Name} {ino : ℕ}
    (n : IsEntryName name) (there : m name ≡ some ino) (c : Cleared s dir ino u)
    (is_dir : IsDir u dir) (refines : Refines (remove name m) u dir) where
  x : Child s dir ino
  x = t.child name ino n there

  same_inode : (i : ℕ) → Child s dir i → Apart s ino i → u.inode i ≡ s.inode i
  same_inode i y (ne, free) = c.other_inodes i y.other (λ e. ne (sym e))

  Child-left : (i : ℕ) → Child s dir i → Apart s ino i → Child u dir i
  Child-left i y (ne, free) = record {
    other = y.other;
    not_reserved = y.not_reserved;
    in_use = c.number_marks i (λ e. ne (sym e)) y.bit y.word y.in_use;
    bit = rw c.same_info y.bit;
    word = y.word;
    own =
        IsOwn-kept c.same_info (same_inode i y (ne, free))
          (λ q held.
            let (small, used) = y.own.backed q held in
            c.data_marks q small (λ its. free q (Holds-Keeps q x.own its) held) used)
          y.own;
    unshared = λ q dirs mine.
        y.unshared q (c.held q dirs) (Keeps-kept s u i q (same_inode i y (ne, free)) mine);
  }

  Cleared-IsTree : IsTree (remove name m) u dir
  Cleared-IsTree = record {
    layout = rw c.same_info t.layout;
    bits = rw c.same_info t.bits;
    reserved =
        c.number_marks reserved_ino (λ e. x.not_reserved (sym e)) (omega (arith, t.layout.has_ibp))
          (omega arith) t.reserved;
    dir_used = c.number_marks dir (λ e. x.other (sym e)) t.dir_bit t.dir_word t.dir_used;
    dir_bit = rw c.same_info t.dir_bit;
    dir_word = t.dir_word;
    is_dir = is_dir;
    refines = refines;
    child = λ o i oe e.
        let (differ, old) = remove-cases name o i m e in
        Child-left i (t.child o i oe old) (t.apart name o ino i n oe differ there old);
    apart = λ o p i j oe pe differ ei ej.
        let (od, oldo) = remove-cases name o i m ei in
        let (pd, oldp) = remove-cases name p j m ej in
        let apart = t.apart o p i j oe pe differ oldo oldp in
        (
          apart.0,
          λ q hi hj.
              apart.1 q
                (Keeps-kept s u i q
                  (same_inode i (t.child o i oe oldo) (t.apart name o ino i n oe od there oldo)) hi)
                (Keeps-kept s u j q
                  (same_inode j (t.child p j pe oldp) (t.apart name p ino j n pe pd there oldp))
                  hj),
        );
  }

-- In a directory whose names have inodes of their own, with a kernel whose calls succeed:
-- `yaf_delete` of a name and its inode succeeds, and the directory implements the map without the
-- name, where again no two names and not the directory share an inode or a block.
pub delete-IsTree :
    (k : Kernel) (m : Dict) (s : Sb) (dir ino : ℕ) (name : Name)
    → Serves k
    → IsTree m s dir
    → IsEntryName name
    → m name ≡ some ino
    → Returns (λ r u. (r ≡ ok tt) × IsTree (remove name m) u dir) (delete k dir name ino s)
delete-IsTree k m s dir ino name serves t n there =
    Returns-mono {P = Removed k s dir ino m name} _ _
      (delete-Removed k s dir ino m name deletable t.is_dir t.refines n there)
      λ r u (e, is_dir, refines, number, blocks, c). (e, Cleared-IsTree t n there c is_dir refines)
  where
    own : Child s dir ino
    own = t.child name ino n there

    deletable : Deletable k s dir ino
    deletable = record {
      droppable = record {
        laws = serves.laws;
        read = serves.read;
        layout = t.layout;
        bits = t.bits;
        owned = IsOwn-Owned own.own;
        in_use = own.in_use;
        bit = own.bit;
        word = own.word;
      };
      other = own.other;
      unshared = λ q dirs mine. own.unshared q dirs (Holds-Keeps q own.own mine);
    }
