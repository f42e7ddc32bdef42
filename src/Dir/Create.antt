-- ===== src/Dir/Create.antt =====
-- `_yaf_create` of driver/inode.c inserts a name into the abstract directory.
use yaf.Base.{ℕ, ◌+◌, ◌/◌, ◌<◌, ◌≡◌, ◌∙◌, sym, arith, get_elem?, some, none, length, ge→ltb}
use yaf.Layout.{block_size, bits_per_block, dno2bid}
use yaf.Machine.{Sb, Kernel, ok, Returns}
use yaf.Machine.Rules.{Returns-bind, Returns-mono}
use yaf.Bitmap.{reserved_ino}
use yaf.Bitmap.Used.{inode_used}
use yaf.Dentry.{Name, dentry_name_len}
use yaf.Dentry.Scan.{passes, after_calls}
use yaf.Dir.{get_free_dentry, create_entry, fill_dentry}
use yaf.Dir.Ready.{Ready}
use yaf.Dir.View.{IsDir, IsEntryName, IsDir-calls}
use yaf.Dir.Refine.{Dict, Refines}
use yaf.Dir.Grow.{block_at-some}
use yaf.Dir.Append.{Slot}
use yaf.Dir.Fill.{Created, fill_dentry-Created}
use yaf.Dir.Slots.{Placed, HasRoom, Ready-calls, get_free_dentry-Slot}
use yaf.Dir.Frame.{Frame-calls, Frame-trans}

module _ {k : Kernel} {s : Sb} {dir : ℕ} (ready : Ready k s dir) (h : IsDir s dir) (m : Dict)
    (refines : Refines m s dir) where
  -- An inode can be made in the state in which the entry is found.
  Slot-Ready : {d : ℕ} {u : Sb} → Slot m s dir d u → Ready k u dir
  Slot-Ready {u = u} x = record {
    laws = ready.laws;
    read = ready.read;
    memory = ready.memory;
    layout = rw x.same_info ready.layout;
    bits = rw x.same_info ready.bits;
    spare_ino = ready.spare_ino;
    spare_bit = ready.spare_bit;
    spare_in_range = rw x.same_info ready.spare_in_range;
    spare_free = mark ready.spare_ino (omega (arith, ready.spare_bit)) ∙ ready.spare_free;
    reserved = mark reserved_ino (omega arith) ∙ ready.reserved;
    dir_used = x.inode_marks dir ready.dir_bit ready.dir_word ∙ ready.dir_used;
    dir_bit = rw x.same_info ready.dir_bit;
    dir_word = ready.dir_word;
  }
    where
      mark : (n : ℕ) → n < bits_per_block → inode_used u n ≡ inode_used s n
      mark n lt = x.inode_marks n (omega (arith, ready.layout.has_ibp)) (omega arith)

  fill-Slot :
      (name : Name) (mode d dno : ℕ) {u : Sb}
      → Placed m s dir d u
      → get_elem? (u.inode dir).i_block (d / block_size) ≡ some dno
      → dno < u.info.nr_d
      → IsEntryName name
      → m name ≡ none
      → Returns
          (λ r s'. (ino : ℕ) × (r ≡ ok ino) × Created m s dir name ino s')
          (fill_dentry k dir (dno2bid u.info dno) d name mode (after_calls u (u.calls + 1)))
  unfolding passes inode_used
  fill-Slot name mode d dno {u = u} (x, fr) at small n gone =
      Returns-mono (λ r s'. (ino : ℕ) × (r ≡ ok ino) × Created m s dir name ino s') _
        (fill_dentry-Created (Ready-calls (u.calls + 1) (Slot-Ready x))
          (IsDir-calls dir (u.calls + 1) x.is_dir) m d dno name mode x.inside x.aligned at small
          x.free n x.refines gone)
        λ r s' (ino, e, c). (ino, e, created c)
    where
      created :
          {ino : ℕ} {s' : Sb}
          → Created m (after_calls u (u.calls + 1)) dir name ino s'
          → Created m s dir name ino s'
      created {ino = ino} c = record {
        was_free =
            sym (
              x.inode_marks ino (omega (arith, c.in_first_block, ready.layout.has_ibp))
                (omega (arith, c.in_first_block)))
            ∙ c.was_free;
        in_first_block = c.in_first_block;
        is_dir = c.is_dir;
        refines = c.refines;
        empty = c.empty;
        no_blocks = c.no_blocks;
        not_dir = c.not_dir;
        in_use = c.in_use;
        frame = Frame-trans fr (Frame-trans (Frame-calls dir dir (u.calls + 1)) c.frame);
      }

  -- A name that fits, that the directory does not have and for which it has room, an unused entry
  -- or, below the largest size, a free block whose bit is in the first block of the data bitmap, the
  -- buffer of which stays in the cache from its release in `yaf_get_free_dblock` to its mark: if all
  -- calls of the kernel succeed and an inode number is free that a bit of the first block of the
  -- inode bitmap stands for, then `_yaf_create` returns an inode number that was unused, the directory
  -- implements the map with the name inserted and is well-formed, and the new inode is empty. The marks of all blocks and inodes are kept, the other inodes are as before, and
  -- the directory has no block that was another's.
  pub create_entry-Created :
      (name : Name) (mode : ℕ)
      → IsEntryName name
      → m name ≡ none
      → HasRoom k s dir
      → Returns
          (λ r s'. (ino : ℕ) × (r ≡ ok ino) × Created m s dir name ino s')
          (create_entry k dir name mode s)
  unfolding create_entry
  create_entry-Created name mode n gone room = rw (ge→ltb dentry_name_len (length name) n.1) (
      Returns-bind _ (get_free_dentry k dir s) _ (get_free_dentry-Slot ready h m refines room)
        λ d u (x, fr).
          let (dno, at, small, used) =
            x.is_dir.blocks.backed (d / block_size) (omega (arith, x.inside)) in
          rw
            (
              ge→ltb d 0 (omega arith),
              block_at-some dir (d / block_size) u dno at,
              ready.read u.calls (dno2bid u.info dno),
            )
            (fill-Slot name mode d dno (x, fr) at small n gone))
