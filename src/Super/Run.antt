-- ===== src/Super/Run.antt =====
-- The root directory from `mkfs` on: the mount, and then any sequence of `_yaf_create`, `yaf_delete`,
-- `yaf_write_inode`, `yaf_get_block` and `yaf_write_end`.
use yaf.Base.{ℕ, ◌*◌, ◌<◌, ◌≤◌, ◌≡◌, ◌∙◌, sym, ap, true, some, none, inl, arith}
use yaf.Base.Word.{IsWord}
use yaf.Machine.{Sb, Kernel, Cmd, ok, Run, done, Returns}
use yaf.Machine.Rules.{Returns-mono}
use yaf.Dentry.{Name}
use yaf.Dir.{create_entry, delete}
use yaf.Dir.View.{IsEntryName}
use yaf.Dir.Refine.{Dict, insert, remove}
use yaf.Dir.Slots.{HasRoom}
use yaf.Dir.Empty.{nothing, empty-IsDir, empty-Refines, none-some}
use yaf.Dir.Tree.{IsTree, Serves, SpareInode}
use yaf.Dir.Tree.Create.{create_entry-IsTree}
use yaf.Dir.Tree.Delete.{delete-IsTree}
use yaf.Dir.Tree.Write.{write_inode-IsTree}
use yaf.Dir.Tree.Extend.{get_block-IsTree, write_end-IsTree}
use yaf.Dir.Ready.{SpareBlock, Stays}
use yaf.Inode.{write_inode, yaf_iblocks}
use yaf.File.{count_used, get_block, write_end}
use yaf.File.Resize.{resized}
use yaf.Layout.{block_size, inodes_per_block}
use yaf.Inode.Codec.{persisted}
use yaf.Mkfs.{Disk, root_ino, root_words, superblock_info, mkfs}
use yaf.Super.{fill_super}
use yaf.Super.Mount.{mkfs-fill_super}
use yaf.Super.First.{root_empty, mounted-Ready}

-- The states in which the operations leave a new file system, with the names that have been made and
-- not deleted. A name is made only where it is absent and there is room, and deleted with its inode,
-- as the kernel's directory cache calls the operations. The free inode number and the free block of a
-- step are of the first block of their bitmap. A file is extended by the block behind its last,
-- and `generic_write_end`, the argument of `yaf_write_end`, sets its size within its blocks.
pub data Reachable (k : Kernel) : Dict → Sb → Type 0 where
  mounted :
      (d : Disk) (bnr uid gid : ℕ) (s t : Sb)
      → 64 ≤ bnr
      → IsWord bnr
      → IsWord uid
      → IsWord gid
      → mkfs d bnr uid gid ≡ some s.buffer
      → fill_super k true true s ≡ done (ok tt) t
      → Reachable k nothing t
  created :
      {m : Dict} {s : Sb} (name : Name) (mode ino : ℕ) (u : Sb)
      → Reachable k m s
      → SpareInode s
      → HasRoom k s root_ino
      → IsEntryName name
      → m name ≡ none
      → create_entry k root_ino name mode s ≡ done (ok ino) u
      → Reachable k (insert name ino m) u
  deleted :
      {m : Dict} {s : Sb} (name : Name) (ino : ℕ) (u : Sb)
      → Reachable k m s
      → IsEntryName name
      → m name ≡ some ino
      → delete k root_ino name ino s ≡ done (ok tt) u
      → Reachable k (remove name m) u
  stored :
      {m : Dict} {s : Sb} (ino : ℕ) (u : Sb)
      → Reachable k m s
      → ino < s.info.nr_i * inodes_per_block
      → write_inode k ino s ≡ done (ok tt) u
      → Reachable k m u
  extended :
      {m : Dict} {s : Sb} (name : Name) (ino b : ℕ) (u : Sb)
      → Reachable k m s
      → SpareBlock k s
      → IsEntryName name
      → m name ≡ some ino
      → count_used (s.inode ino).i_block < yaf_iblocks
      → get_block k ino (count_used (s.inode ino).i_block) true s ≡ done (ok (some b)) u
      → Reachable k m u
  written :
      {m : Dict} {s : Sb} (name : Name) (ino len copied size : ℕ) (end : Cmd ℕ) (u : Sb)
      → Reachable k m s
      → IsEntryName name
      → m name ≡ some ino
      → size ≤ count_used (s.inode ino).i_block * block_size
      → end s ≡ done copied (resized ino size s)
      → write_end k ino len end s ≡ done copied u
      → Reachable k m u

-- What holds of a run's end holds of the value and the state that it ends with.
pub Returns-at :
    {A : Type 0} (P : A → Sb → Type 0) (r : Run A) (a : A) (u : Sb)
    → Returns P r
    → r ≡ done a u
    → P a u
Returns-at P r a u p e = rw e at p

pub mounted-IsTree :
    (k : Kernel) (d : Disk) (bnr uid gid : ℕ) (s : Sb)
    → Serves k
    → 64 ≤ bnr
    → IsWord bnr
    → IsWord uid
    → IsWord gid
    → mkfs d bnr uid gid ≡ some s.buffer
    → Returns
        (λ r t.
          (r ≡ ok tt) × IsTree nothing t root_ino × SpareInode t × (Stays k → HasRoom k t root_ino))
        (fill_super k true true s)
mounted-IsTree k d bnr uid gid s serves lo w u g made =
    Returns-mono
      {P = λ r t.
        (r ≡ ok tt)
        × (t.info ≡ superblock_info bnr)
        × (t.buffer ≡ s.buffer)
        × (persisted (t.inode root_ino) ≡ root_words uid gid)}
      _ _ (mkfs-fill_super k serves.read serves.memory d bnr uid gid s lo w u g made)
      λ r t (success, info, kept, root).
        let (size, blocks) = root_empty (t.inode root_ino) uid gid root in
        let (ready, spare) =
          mounted-Ready k serves.laws serves.read serves.memory d bnr uid gid t lo w info
            (made ∙ ap some (sym kept)) in
        (
          success,
          record {
            layout = ready.layout;
            bits = ready.bits;
            reserved = ready.reserved;
            dir_used = ready.dir_used;
            dir_bit = ready.dir_bit;
            dir_word = ready.dir_word;
            is_dir = empty-IsDir t root_ino size blocks;
            refines = empty-Refines t root_ino size;
            child = λ name ino n e. absurd (none-some ino e);
            apart = λ name other i j n o differ ei ej. absurd (none-some i ei);
          },
          record {
            ino = ready.spare_ino;
            bit = ready.spare_bit;
            in_range = ready.spare_in_range;
            free = ready.spare_free;
          },
          λ stays. inl (omega (arith, size), spare stays),
        )

-- From `mkfs` of at least 64 blocks, whose number is a 32-bit number, and the mount on, with a kernel
-- whose calls succeed: in every state that creations, deletions, write-backs of inodes and sequential
-- writes to files reach, the root is a well-formed directory of exactly the names that were made and
-- not deleted, and no two names, nor a name and the root, share an inode number or a data block. A
-- creation needs a free inode number that a bit of the first block of the inode bitmap stands for,
-- and an unused entry or, below the largest size, a free block; a write needs a free block. A free
-- block is one that a bit of the first block of the data bitmap stands for, the buffer of that block
-- staying in the cache from its release in `yaf_get_free_dblock` to its mark.
pub Reachable-IsTree :
    (k : Kernel) (m : Dict) (s : Sb) → Serves k → Reachable k m s → IsTree m s root_ino
Reachable-IsTree k _ _ serves (mounted d bnr uid gid s t lo w u g made runs) =
    (Returns-at _ _ (ok tt) t (mounted-IsTree k d bnr uid gid s serves lo w u g made) runs).1
Reachable-IsTree k _ _ serves (created {m} {s} name mode ino u before spare room n gone runs) =
    let (ino', same, tree) =
      Returns-at _ _ (ok ino) u
        (create_entry-IsTree k m s root_ino name mode serves (Reachable-IsTree k m s serves before)
          spare room n gone)
        runs in
    let e : ino' ≡ ino = cc same in rw e at tree
Reachable-IsTree k _ _ serves (deleted {m} {s} name ino u before n there runs) =
    (Returns-at _ _ (ok tt) u
      (delete-IsTree k m s root_ino ino name serves (Reachable-IsTree k m s serves before) n there)
      runs).1
Reachable-IsTree k _ _ serves (stored {m = m} {s = s} ino u before small runs) =
    (Returns-at _ _ (ok tt) u
      (write_inode-IsTree k m s root_ino ino serves (Reachable-IsTree k m s serves before) small)
      runs).1
Reachable-IsTree k m _ serves (extended {s = s} name ino b u before spare n there room runs) =
    (Returns-at _ _ (ok (some b)) u
      (get_block-IsTree k m s root_ino ino name serves (Reachable-IsTree k m s serves before) spare
        n there room)
      runs).1
Reachable-IsTree k m _ serves
      (written {s = s} name ino len copied size end u before n there fits finish runs) =
    (Returns-at _ _ copied u
      (write_end-IsTree k m s root_ino ino name len copied size end
        (Reachable-IsTree k m s serves before) n there fits finish)
      runs).1
