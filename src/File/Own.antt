-- ===== src/File/Own.antt =====
-- The blocks that the array `i_block` of an inode names, driver/file.c, and those that `yaf_delete` of
-- driver/inode.c gives back.
use yaf.Base.{
  ℕ, ◌*◌, ◌≤◌, ◌<◌, ◌≡◌, ◌∙◌, sym, ap, refl, true, arith, some, get_elem?, replicate, length, subst,
}
use yaf.Layout.{block_size}
use yaf.Machine.{Inode, Sb}
use yaf.Bitmap.{reserved_dno}
use yaf.Bitmap.Used.{data_used}
use yaf.Inode.{yaf_iblocks}
use yaf.File.{count_used}
use yaf.File.Blocks.{get_elem?-lt_count_used, NoHoles, NoHoles-replicate}
use yaf.File.Grow.{IsFile}
use yaf.Dir.Release.{Owned, Holds}

-- A used entry of the array.
abbrev pub Keeps : Sb → (ino q : ℕ) → Type 0
Keeps s ino q =
    (i : ℕ) × (i < count_used (s.inode ino).i_block) × (get_elem? (s.inode ino).i_block i ≡ some q)

-- The array is well-formed, its used entries are different data blocks that are marked, and the bytes
-- of the file stand in them.
pub record IsOwn (s : Sb) (ino : ℕ) : Type 0 where
  pub file : IsFile ino s
  pub sized : (s.inode ino).i_size ≤ count_used (s.inode ino).i_block * block_size
  pub backed : (q : ℕ) → Keeps s ino q → (q < s.info.nr_d) × (data_used s q ≡ true)
  pub distinct :
      (i j q : ℕ)
      → i < count_used (s.inode ino).i_block
      → j < count_used (s.inode ino).i_block
      → get_elem? (s.inode ino).i_block i ≡ some q
      → get_elem? (s.inode ino).i_block j ≡ some q
      → i ≡ j

-- An inode that is as before.
pub Keeps-kept : (s u : Sb) (ino q : ℕ) → u.inode ino ≡ s.inode ino → Keeps u ino q → Keeps s ino q
Keeps-kept s u ino q same now = rw same at now

pub IsOwn-kept :
    {s u : Sb} {ino : ℕ}
    → u.info ≡ s.info
    → u.inode ino ≡ s.inode ino
    → ((q : ℕ) → Keeps s ino q → data_used u q ≡ true)
    → IsOwn s ino
    → IsOwn u ino
IsOwn-kept {s} {u} {ino} info same marks o = record {
  file = record {
    eight = ap (λ (x : Inode). length x.i_block) same ∙ o.file.eight;
    no_holes = subst (λ (x : Inode). NoHoles x.i_block) (sym same) o.file.no_holes;
  };
  sized = rw same o.sized;
  backed = λ q now.
      let before = Keeps-kept s u ino q same now in (rw info (o.backed q before).0, marks q before);
  distinct = rw same o.distinct;
}

-- The bytes of a file are in blocks that its array names.
pub Holds-Keeps : {s : Sb} {ino : ℕ} (q : ℕ) → IsOwn s ino → Holds s ino 0 q → Keeps s ino q
Holds-Keeps q o (i, lo, hi, at) = (i, omega (arith, o.sized), at)

pub IsOwn-Owned : {s : Sb} {ino : ℕ} → IsOwn s ino → Owned s ino 0
IsOwn-Owned {s} {ino} o = record {
  backed = λ i lo hi.
      let inside : i < count_used (s.inode ino).i_block = omega (arith, o.sized) in
      let (d, at, ne) = get_elem?-lt_count_used (s.inode ino).i_block i inside in
      let (small, used) = o.backed d (i, inside, at) in (d, at, small, used);
  distinct =
      λ i j q li lj ei ej. o.distinct i j q (omega (arith, o.sized)) (omega (arith, o.sized)) ei ej;
}

-- An array without a block.
count_used-replicate : count_used (replicate yaf_iblocks reserved_dno) ≡ 0
unfolding count_used
count_used-replicate = refl

pub Keeps-empty :
    (s : Sb) (ino q : ℕ)
    → (s.inode ino).i_block ≡ replicate yaf_iblocks reserved_dno
    → Keeps s ino q
    → ⊥
Keeps-empty s ino q blocks (i, lt, at) = omega (arith, ap count_used blocks ∙ count_used-replicate)

pub IsOwn-empty :
    (s : Sb) (ino : ℕ)
    → (s.inode ino).i_size ≡ 0
    → (s.inode ino).i_block ≡ replicate yaf_iblocks reserved_dno
    → IsOwn s ino
IsOwn-empty s ino size blocks = record {
  file = record { eight = rw blocks refl; no_holes = rw blocks (NoHoles-replicate yaf_iblocks) };
  sized = omega (arith, size);
  backed = λ q now. absurd (Keeps-empty s ino q blocks now);
  distinct = λ i j q li lj ei ej. absurd (Keeps-empty s ino q blocks (i, li, ei));
}
