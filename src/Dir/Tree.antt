-- ===== src/Dir/Tree.antt =====
-- A directory and the inodes of its names, under `_yaf_create` and `yaf_delete` of driver/inode.c: no
-- two of them share an inode number or a block.
pub mod Create
pub mod Delete
pub mod Write
pub mod Extend
use yaf.Base.{
  ℕ, ◌*◌, ◌≤◌, ◌<◌, ◌≡◌, ◌≢◌, ◌⊎◌, ◌∙◌, sym, ap, inl, inr, refl, true, false, arith, true-false,
  Bool-cases, some, none, get_elem?,
}
use yaf.Base.Word.{IsWord}
use yaf.Layout.{SbInfo, block_size, bits_per_block, inodes_per_block}
use yaf.Layout.Regions.{IsLayout}
use yaf.Machine.{Inode, Sb, Kernel, ok, Returns}
use yaf.Machine.Bits.{IsBitops}
use yaf.Machine.Rules.{Returns-mono}
use yaf.Bitmap.{reserved_ino}
use yaf.Bitmap.Used.{data_used, inode_used}
use yaf.Dentry.{Name}
use yaf.Dir.{create_entry, delete}
use yaf.Dir.Ready.{Ready}
use yaf.Dir.View.{IsDir, IsEntryName}
use yaf.Dir.Refine.{Dict, Refines, insert, remove, name_eq, eq_of_name_eq, name_eq_refl}
use yaf.Dir.Slots.{HasRoom}
use yaf.Dir.Fill.{Created}
use yaf.Dir.Create.{create_entry-Created}
use yaf.Dir.Release.{Holds}
use yaf.File.Own.{Keeps, IsOwn}
use yaf.Dir.Drop.{Droppable}
use yaf.Dir.Delete.{Deletable, Removed, Cleared, delete-Removed}
use yaf.Dir.Frame.{Frame}

-- The inode of a name: marked, with blocks of its own that are none of the directory's.
pub record Child (s : Sb) (dir ino : ℕ) : Type 0 where
  pub other : ino ≢ dir
  pub not_reserved : ino ≢ reserved_ino
  pub in_use : inode_used s ino ≡ true
  pub bit : ino < s.info.nr_ibp * bits_per_block
  pub word : IsWord ino
  pub own : IsOwn s ino
  pub unshared : (q : ℕ) → Holds s dir 0 q → Keeps s ino q → ⊥

-- The inodes of two names are different and share no block.
abbrev pub Apart : Sb → ℕ → ℕ → Type 0
Apart s i j = (i ≢ j) × ((q : ℕ) → Keeps s i q → Keeps s j q → ⊥)

-- A well-formed directory that implements the map, the inodes of its names, and the marks of
-- RESERVED_INO and of the directory.
pub record IsTree (m : Dict) (s : Sb) (dir : ℕ) : Type 0 where
  pub layout : IsLayout s.info
  pub bits : s.info.nr_d ≤ s.info.nr_dbp * bits_per_block
  pub reserved : inode_used s reserved_ino ≡ true
  pub dir_used : inode_used s dir ≡ true
  pub dir_bit : dir < s.info.nr_ibp * bits_per_block
  pub dir_word : IsWord dir
  pub is_dir : IsDir s dir
  pub refines : Refines m s dir
  pub child : (name : Name) (ino : ℕ) → IsEntryName name → m name ≡ some ino → Child s dir ino
  pub apart :
      (name other : Name) (i j : ℕ)
      → IsEntryName name
      → IsEntryName other
      → name ≢ other
      → m name ≡ some i
      → m other ≡ some j
      → Apart s i j

-- A kernel whose calls succeed.
pub record Serves (k : Kernel) : Type 0 where
  pub laws : IsBitops k
  pub read : (c b : ℕ) → k.sb_bread c b ≡ true
  pub memory : (c i : ℕ) → k.iget_locked c i ≡ true

-- A free inode number that a bit of the first bitmap block stands for.
pub record SpareInode (s : Sb) : Type 0 where
  pub ino : ℕ
  pub bit : ino < bits_per_block
  pub in_range : ino < s.info.nr_i * inodes_per_block
  pub free : inode_used s ino ≡ false

-- A name of the map with one more, or with one less.
pub insert-cases :
    (name other : Name) (ino i : ℕ) (m : Dict)
    → insert name ino m other ≡ some i
    → ((other ≡ name) × (i ≡ ino)) ⊎ (m other ≡ some i)
insert-cases name other ino i m e = elim (Bool-cases (name_eq other name)) [
  | inl same ↦ inl (eq_of_name_eq other name same, cc (rw same at e))
  | inr differs ↦ inr (rw differs at e)
]

pub remove-cases :
    (name other : Name) (i : ℕ) (m : Dict)
    → remove name m other ≡ some i
    → (name ≢ other) × (m other ≡ some i)
remove-cases name other i m e = elim (Bool-cases (name_eq other name)) [
  | inl same ↦ absurd (cc (rw same at e))
  | inr differs ↦ (
    λ q. true-false (sym (name_eq_refl name) ∙ ap (λ x. name_eq x name) q ∙ differs),
    rw differs at e,
  )
]
