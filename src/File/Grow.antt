-- ===== src/File/Grow.antt =====
-- What `yaf_get_block` promises.
use yaf.Base.{
  ℕ, suc, ◌≡◌, ◌∙◌, refl, sym, ap, subst, List, ◌≤◌, ◌<◌, ◌≢◌, arith, length, get_elem?, set, some,
  none, Option, false, Bool-cases, ◌⊎◌, inl, inr, ne→==, ==-refl, leb, get_elem?-set_ne, length-set,
}
use yaf.Layout.{dno2bid}
use yaf.Machine.{Inode, Sb, Kernel, Result, ok, err, done, Returns, update}
use yaf.Bitmap.{reserved_dno}
use yaf.Inode.{yaf_iblocks}
use yaf.File.{count_used, map_block, get_block, with_block, efbig}
use yaf.File.Blocks.{NoHoles, get_elem?-lt_count_used, count_used-set, NoHoles-set}

abbrev pub blocks_of : ℕ → Sb → List ℕ
blocks_of ino s = (s.inode ino).i_block

-- The array of inode `ino` is well-formed: eight entries, the used ones in front.
pub record IsFile (ino : ℕ) (s : Sb) : Type 0 where
  pub eight : length (blocks_of ino s) ≡ yaf_iblocks
  pub no_holes : NoHoles (blocks_of ino s)

-- From `s` to `s'` the array of `ino` has only grown, and nothing else of the inodes has changed.
pub record Grown (ino : ℕ) (s s' : Sb) : Type 0 where
  pub file : IsFile ino s'
  pub kept :
      (j : ℕ)
      → j < count_used (blocks_of ino s)
      → get_elem? (blocks_of ino s') j ≡ get_elem? (blocks_of ino s) j
  pub longer : count_used (blocks_of ino s) ≤ count_used (blocks_of ino s')
  pub size : (s'.inode ino).i_size ≡ (s.inode ino).i_size
  pub others : (j : ℕ) → j ≢ ino → s'.inode j ≡ s.inode j
  pub same_info : s'.info ≡ s.info

pub Grown-trans : {ino : ℕ} {s t u : Sb} → Grown ino s t → Grown ino t u → Grown ino s u
Grown-trans g h = record {
  file = h.file;
  kept = λ j lt. h.kept j (omega (arith, g.longer)) ∙ g.kept j lt;
  longer = omega (arith, g.longer, h.longer);
  size = h.size ∙ g.size;
  others = λ j ne. h.others j ne ∙ g.others j ne;
  same_info = h.same_info ∙ g.same_info;
}

update_self : (f : ℕ → Inode) (n : ℕ) (v : Inode) → update f n v n ≡ v
update_self f n v = rw (==-refl n)

-- One round of the loop: entry `count_used` is filled.
abbrev pub filled : ℕ → ℕ → Sb → Sb
filled ino d s = record s {
  inode = update s.inode ino (with_block (s.inode ino) (count_used (blocks_of ino s)) d);
}

pub filled-blocks :
    (ino d : ℕ) (s : Sb)
    → blocks_of ino (filled ino d s) ≡ set (blocks_of ino s) (count_used (blocks_of ino s)) d
filled-blocks ino d s =
    ap (λ (i : Inode). i.i_block)
      (update_self s.inode ino (with_block (s.inode ino) (count_used (blocks_of ino s)) d))

pub filled-Grown :
    (ino d : ℕ) (s : Sb)
    → IsFile ino s
    → count_used (blocks_of ino s) < yaf_iblocks
    → d ≢ reserved_dno
    → Grown ino s (filled ino d s)
      × (count_used (blocks_of ino (filled ino d s)) ≡ suc (count_used (blocks_of ino s)))
filled-Grown ino d s f lt ne =
    let bs : List ℕ = blocks_of ino s in
    let fits : count_used bs < length bs = omega (arith, f.eight) in
    let change = filled-blocks ino d s in
    let longer = ap count_used change ∙ count_used-set bs d ne f.no_holes fits in
    (
      record {
        file = record {
          eight = ap length change ∙ length-set bs (count_used bs) d ∙ f.eight;
          no_holes = subst NoHoles (sym change) (NoHoles-set bs d ne f.no_holes fits);
        };
        kept = λ j less.
            ap (λ xs. get_elem? xs j) change
            ∙ get_elem?-set_ne bs {i = count_used bs} {j = j} d (omega arith);
        longer = omega (arith, longer);
        size = rw (==-refl ino);
        others = λ j nj. rw (ne→== j ino nj);
        same_info = refl;
      },
      longer,
    )

-- A step that leaves inodes and layout alone.
pub Grown-same :
    (ino : ℕ) (s t : Sb) → IsFile ino s → t.inode ≡ s.inode → t.info ≡ s.info → Grown ino s t
Grown-same ino s t f e same = record {
  file = record { eight = rw e f.eight; no_holes = rw e f.no_holes };
  kept = λ j h. rw e;
  longer = rw e (omega arith);
  size = rw e;
  others = λ j ne. rw e;
  same_info = same;
}

-- The mapping that ends `yaf_get_block`.
pub map_block-done :
    (ino iblock d : ℕ) (s : Sb)
    → get_elem? (blocks_of ino s) iblock ≡ some d
    → map_block ino iblock s ≡ done (ok (some (dno2bid s.info d))) s
unfolding map_block
map_block-done ino iblock d s at = rw (at, map_block)

-- Looking a block up.
module _ (k : Kernel) (ino iblock : ℕ) (s : Sb) where
  -- The answer of a look-up: -EFBIG behind the array, the block of a used entry, or no block.
  abbrev pub Found : Result (Option ℕ) → Type 0
  Found r =
      ((yaf_iblocks ≤ iblock) × (r ≡ err efbig))
      ⊎ ((iblock < yaf_iblocks) × (count_used (blocks_of ino s) ≤ iblock) × (r ≡ ok none))
      ⊎ ((d : ℕ) × (iblock < count_used (blocks_of ino s))
          × (get_elem? (blocks_of ino s) iblock ≡ some d)
          × (d ≢ reserved_dno)
          × (r ≡ ok (some (dno2bid s.info d))))

  -- Without `create`, `yaf_get_block` on a well-formed array changes nothing. It returns -EFBIG
  -- behind the eight entries, leaves the buffer unmapped behind the used entries, and otherwise maps
  -- it to the block of the entry.
  get_block-Found :
      IsFile ino s → Returns (λ r s'. (s' ≡ s) × Found r) (get_block k ino iblock false s)
  unfolding get_block
  get_block-Found f = elim (Bool-cases (leb yaf_iblocks iblock)) [
    | inl big ↦ rw big (refl, inl (ground arith, refl))
    | inr small ↦ elim (Bool-cases (leb (count_used (blocks_of ino s)) iblock)) [
      | inl hole ↦ rw (small, hole) (refl, inr (inl (ground arith, ground arith, refl)))
      | inr used ↦
          let lt : iblock < count_used (blocks_of ino s) = ground arith in
          let (d, at, ne) = get_elem?-lt_count_used (blocks_of ino s) iblock lt in
          rw (small, used, map_block-done ino iblock d s at) (refl, inr (inr (d, lt, at, ne, refl)))
    ]
  ]
