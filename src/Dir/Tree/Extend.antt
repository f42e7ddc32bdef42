-- ===== src/Dir/Tree/Extend.antt =====
-- `yaf_get_block` and `yaf_write_end` of driver/file.c on the file of a name, in a directory whose names
-- have inodes of their own.
use yaf.Base.{
  ℕ, ◌*◌, ◌≤◌, ◌<◌, ◌≡◌, ◌≢◌, ◌⊎◌, ◌∙◌, sym, ap, inl, inr, true, false, arith, ◌==◌, Bool-cases,
  ==→eq, some, true-false,
}
use yaf.Layout.{block_size}
use yaf.Machine.{Inode, Sb, Kernel, Cmd, ok, done, Returns}
use yaf.Machine.Rules.{Returns-mono}
use yaf.Bitmap.{reserved_ino}
use yaf.Bitmap.Used.{data_used}
use yaf.Inode.{yaf_iblocks}
use yaf.Dentry.{Name}
use yaf.File.{count_used, get_block, write_end}
use yaf.File.Own.{Keeps, Keeps-kept, IsOwn-kept}
use yaf.File.Extend.{Extension, Allots, get_block-Extension}
use yaf.File.Resize.{resized, write_end-Extension}
use yaf.Dir.Ready.{SpareBlock}
use yaf.Dir.View.{IsEntryName}
use yaf.Dir.Refine.{Dict}
use yaf.Dir.Release.{Holds}
use yaf.Dir.Same.{SameDir, SameDir-IsDir, SameDir-Refines}
use yaf.Dir.Tree.{Child, Apart, IsTree, Serves}

module _ {m : Dict} {s u : Sb} {dir : ℕ} (t : IsTree m s dir) {name : Name} {ino : ℕ}
    (entry : IsEntryName name) (there : m name ≡ some ino) (e : Extension s ino u) where
  x : Child s dir ino
  x = t.child name ino entry there

  dir-same : u.inode dir ≡ s.inode dir
  dir-same = e.other_inodes dir (λ q. x.other (sym q))

  dir-SameDir : SameDir s dir u
  dir-SameDir = record {
    info = e.same_info;
    blocks = ap (λ (i : Inode). i.i_block) dir-same;
    size = ap (λ (i : Inode). i.i_size) dir-same;
    bytes = e.bytes;
    marks = λ i dno lt at small used. e.data_marks dno small used;
  }

  -- A block of the directory is marked.
  dir_marked : (q : ℕ) → Holds s dir 0 q → data_used s q ≡ true
  dir_marked q (i, lo, hi, at) =
      let (d, at', small, used) = t.is_dir.blocks.backed i hi in
      let same : d ≡ q = cc (at, at') in rw same at used

  Child-extended : Child u dir ino
  Child-extended = record {
    other = x.other;
    not_reserved = x.not_reserved;
    in_use = e.number_marks ino x.bit x.word ∙ x.in_use;
    bit = rw e.same_info x.bit;
    word = x.word;
    own = e.own;
    unshared = λ q dirs mine.
        let before : Holds s dir 0 q = rw dir-same at dirs in
        elim (e.kept q mine) [
          | inl old ↦ x.unshared q before old
          | inr free ↦ true-false (sym (dir_marked q before) ∙ free)
        ];
  }

  Child-other : (i : ℕ) → i ≢ ino → Child s dir i → Child u dir i
  Child-other i ne y = record {
    other = y.other;
    not_reserved = y.not_reserved;
    in_use = e.number_marks i y.bit y.word ∙ y.in_use;
    bit = rw e.same_info y.bit;
    word = y.word;
    own =
        IsOwn-kept e.same_info (e.other_inodes i ne)
          (λ q held. let (small, used) = y.own.backed q held in e.data_marks q small used) y.own;
    unshared = λ q dirs mine.
        y.unshared q (rw dir-same at dirs) (Keeps-kept s u i q (e.other_inodes i ne) mine);
  }

  Child-all : (i : ℕ) → Child s dir i → Child u dir i
  Child-all i y = elim (Bool-cases (i == ino)) [
    | inl same ↦ rw (==→eq i ino same) Child-extended
    | inr other ↦ Child-other i (ground arith) y
  ]

  -- A block that a file keeps it kept before, or it was free.
  Keeps-before : (i q : ℕ) → Keeps u i q → Keeps s i q ⊎ (data_used s q ≡ false)
  Keeps-before i q now = elim (Bool-cases (i == ino)) [
    | inl same ↦ let here = ==→eq i ino same in rw here (e.kept q (rw here at now))
    | inr other ↦
        let ne : i ≢ ino = ground arith in inl (Keeps-kept s u i q (e.other_inodes i ne) now)
  ]

  -- Only the file that is extended has a block that was free.
  Apart-extended : (i j : ℕ) → Child s dir i → Child s dir j → Apart s i j → Apart u i j
  Apart-extended i j y z (ne, free) = (
    ne,
    λ q hi hj. elim (Bool-cases (i == ino)) [
      | inl same ↦
          let here = ==→eq i ino same in
          let before = Keeps-kept s u j q (e.other_inodes j (λ c. ne (here ∙ sym c))) hj in
          elim (Keeps-before i q hi) [
            | inl old ↦ free q old before
            | inr clear ↦ true-false (sym (z.own.backed q before).1 ∙ clear)
          ]
      | inr other ↦
          let differs : i ≢ ino = ground arith in
          let before = Keeps-kept s u i q (e.other_inodes i differs) hi in
          elim (Keeps-before j q hj) [
            | inl old ↦ free q before old
            | inr clear ↦ true-false (sym (y.own.backed q before).1 ∙ clear)
          ]
    ],
  )

  pub Extension-IsTree : IsTree m u dir
  Extension-IsTree = record {
    layout = rw e.same_info t.layout;
    bits = rw e.same_info t.bits;
    reserved =
        e.number_marks reserved_ino (omega (arith, t.layout.has_ibp)) (omega arith) ∙ t.reserved;
    dir_used = e.number_marks dir t.dir_bit t.dir_word ∙ t.dir_used;
    dir_bit = rw e.same_info t.dir_bit;
    dir_word = t.dir_word;
    is_dir = SameDir-IsDir t.layout.info t.is_dir dir-SameDir;
    refines = SameDir-Refines t.layout.info t.is_dir dir-SameDir t.refines;
    child = λ n i ne_ at. Child-all i (t.child n i ne_ at);
    apart = λ n o i j ne_ oe differ ei ej.
        Apart-extended i j (t.child n i ne_ ei) (t.child o j oe ej)
          (t.apart n o i j ne_ oe differ ei ej);
  }

-- In a directory whose names have inodes of their own, with a kernel whose calls succeed and a free
-- block that a bit of the first block of the data bitmap stands for: `yaf_get_block` with `create`, for the block behind the last of a file with fewer than eight,
-- returns a mapping, and again no two names and not the directory share an inode or a block.
pub get_block-IsTree :
    (k : Kernel) (m : Dict) (s : Sb) (dir ino : ℕ) (name : Name)
    → Serves k
    → IsTree m s dir
    → SpareBlock k s
    → IsEntryName name
    → m name ≡ some ino
    → count_used (s.inode ino).i_block < yaf_iblocks
    → Returns
        (λ r u. ((b : ℕ) × (r ≡ ok (some b))) × IsTree m u dir)
        (get_block k ino (count_used (s.inode ino).i_block) true s)
get_block-IsTree k m s dir ino name serves t spare entry there room =
    Returns-mono {P = Allots s ino} _ _
      (get_block-Extension k s ino serves.laws serves.read t.layout spare
        (t.child name ino entry there).own room)
      λ r u (e, (d, free, used, at, mapped)). ((_, mapped), Extension-IsTree t entry there e)

-- Likewise for `yaf_write_end`, when `generic_write_end` has set the size within the blocks of the file
-- and nothing else.
pub write_end-IsTree :
    (k : Kernel) (m : Dict) (s : Sb) (dir ino : ℕ) (name : Name) (len copied size : ℕ) (end : Cmd ℕ)
    → IsTree m s dir
    → IsEntryName name
    → m name ≡ some ino
    → size ≤ count_used (s.inode ino).i_block * block_size
    → end s ≡ done copied (resized ino size s)
    → Returns (λ r u. (r ≡ copied) × IsTree m u dir) (write_end k ino len end s)
write_end-IsTree k m s dir ino name len copied size end t entry there fits runs =
    Returns-mono {P = λ r u. (r ≡ copied) × Extension s ino u} _ _
      (write_end-Extension k s ino len copied size end (t.child name ino entry there).own fits runs)
      λ r u (same, e). (same, Extension-IsTree t entry there e)
