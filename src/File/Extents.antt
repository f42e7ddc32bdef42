-- ===== src/File/Extents.antt =====
-- `yaf_get_block` of driver/file.c with `create` for any of the eight blocks of a file: all blocks from
-- the last to the one asked for are allocated, one round of the second loop each.
use yaf.Base.{
  ℕ, zero, suc, ◌+◌, ◌-◌, ◌≤◌, ◌<◌, ◌≡◌, ◌≢◌, ◌⊎◌, ◌∙◌, sym, ap, inl, inr, refl, Bool, true, false,
  arith, Bool-cases, ne→==, some, get_elem?, leb, true-false, Option,
}
use yaf.Layout.{SbInfo, bits_per_block, dno2bid, bid_dbp_min}
use yaf.Layout.Regions.{IsLayout}
use yaf.Machine.{Inode, Sb, Kernel, Result, ok, Returns, update}
use yaf.Machine.Bits.{IsBitops}
use yaf.Machine.Rules.{Returns-bind, Returns-mono}
use yaf.Bitmap.{reserved_dno, get_free_dblock}
use yaf.Bitmap.Used.{data_used, data_used-kept, Allocated}
use yaf.Bitmap.Alloc.{get_free_dblock-Allocated}
use yaf.Bitmap.Cycle.{Allocated-le}
use yaf.Inode.{yaf_iblocks}
use yaf.File.{count_used, get_block, fill_blocks}
use yaf.File.Blocks.{get_elem?-lt_count_used}
use yaf.File.Grow.{Grown, Grown-trans, Grown-same, blocks_of, filled, map_block-done}
use yaf.File.Own.{IsOwn}
use yaf.File.Extend.{Extension, Extension-dirty, filled-Extension, grown, length_now}
use yaf.Dir.Ready.{SpareBlock}

-- At least `n` free data blocks that bits of the first block of the data bitmap stand for, in rising
-- order, and the buffer of this block stays in the cache until it is marked.
pub record Spares (k : Kernel) (s : Sb) (n : ℕ) : Type 0 where
  pub dno : ℕ → ℕ
  pub rising : (i j : ℕ) → i < j → j < n → dno i < dno j
  pub bit : (i : ℕ) → i < n → dno i < bits_per_block
  pub in_range : (i : ℕ) → i < n → dno i < s.info.nr_d
  pub free : (i : ℕ) → i < n → data_used s (dno i) ≡ false
  pub stays : (c : ℕ) → k.stays_cached c (bid_dbp_min s.info) ≡ true

Spares-first : {k : Kernel} {s : Sb} {n : ℕ} → Spares k s (suc n) → SpareBlock k s
Spares-first {k} {s} {n} spares = record {
  dno = spares.dno 0;
  bit = spares.bit 0 (omega arith);
  in_range = spares.in_range 0 (omega arith);
  free = spares.free 0 (omega arith);
  stays = spares.stays;
}

-- An allocation takes the first or one below it.
Spares-rest :
    {k : Kernel} {s t : Sb} {n d : ℕ} (ino : ℕ)
    → Spares k s (suc n)
    → Allocated data_used (bid_dbp_min s.info) s d t
    → Spares k (filled ino d t) n
Spares-rest {k} {s} {t} {n} {d} ino spares al =
    let small : d ≤ spares.dno 0 =
      Allocated-le data_used (spares.dno 0) al (spares.free 0 (omega arith)) in
    let sections : t.info.nr_d ≡ s.info.nr_d = ap (λ (x : SbInfo). x.nr_d) al.same_info in
    record {
      dno = λ i. spares.dno (suc i);
      rising = λ i j lt less. spares.rising (suc i) (suc j) (omega arith) (omega arith);
      bit = λ i lt. spares.bit (suc i) (omega arith);
      in_range = λ i lt. omega (arith, spares.in_range (suc i) (omega arith), sections);
      free = λ i lt.
          let more : spares.dno 0 < spares.dno (suc i) =
            spares.rising 0 (suc i) (omega arith) (omega arith) in
          let other : spares.dno (suc i) ≢ d = omega (arith, more, small) in
          data_used-kept t (filled ino d t) (spares.dno (suc i)) refl refl
          ∙ al.marked (spares.dno (suc i)) (omega (arith, spares.bit (suc i) (omega arith)))
          ∙ rw (ne→== (spares.dno (suc i)) d other) (spares.free (suc i) (omega arith));
      stays = λ c. rw al.same_info (spares.stays c);
    }

Extension-refl : (s : Sb) (ino : ℕ) → IsOwn s ino → Extension s ino s
Extension-refl s ino o = record {
  same_info = refl;
  other_inodes = λ n ne. refl;
  data_marks = λ q lt used. used;
  number_marks = λ n lt w. refl;
  bytes = λ b le. refl;
  own = o;
  kept = λ q now. inl now;
}

Extension-trans : {s t u : Sb} {ino : ℕ} → Extension s ino t → Extension t ino u → Extension s ino u
Extension-trans {s} {t} {u} {ino} e f = record {
  same_info = f.same_info ∙ e.same_info;
  other_inodes = λ n ne. f.other_inodes n ne ∙ e.other_inodes n ne;
  data_marks = λ q lt used. f.data_marks q (rw e.same_info lt) (e.data_marks q lt used);
  number_marks = λ n lt w. f.number_marks n (rw e.same_info lt) w ∙ e.number_marks n lt w;
  bytes = λ b le. f.bytes b (rw e.same_info le) ∙ e.bytes b le;
  own = f.own;
  kept = λ q now. elim (f.kept q now) [
    | inl before ↦ e.kept q before
    | inr free ↦ elim (Bool-cases (data_used s q)) [
      | inl used ↦
          let inside : q < s.info.nr_d = rw (f.same_info ∙ e.same_info) at (f.own.backed q now).0 in
          absurd (true-false (sym (e.data_marks q inside used) ∙ free))
      | inr unused ↦ inr unused
    ]
  ];
}

-- The buffer is mapped to the block of entry `iblock`: an old one, and nothing has changed, or a
-- new one, the last, whose block was free.
abbrev pub MapsTo : (ino iblock : ℕ) → Sb → Result (Option ℕ) → Sb → Type 0
MapsTo ino iblock s r u =
    Extension s ino u
    × Grown ino s u
    × ((d : ℕ) × (get_elem? (blocks_of ino u) iblock ≡ some d)
        × (data_used u d ≡ true)
        × (r ≡ ok (some (dno2bid u.info d)))
        × (((iblock < count_used (blocks_of ino s)) × (u ≡ s))
            ⊎ ((count_used (blocks_of ino s) ≤ iblock)
                × (count_used (blocks_of ino u) ≡ suc iblock)
                × (data_used s d ≡ false))))

module _ {k : Kernel} (laws : IsBitops k) (read : (c b : ℕ) → k.sb_bread c b ≡ true)
    (ino iblock : ℕ) (bound : iblock < yaf_iblocks) where
  -- The loop ends with the entry `iblock` as the last.
  abbrev Reached : Sb → Bool → Sb → Type 0
  Reached s r u =
      (r ≡ true) × Extension s ino u × Grown ino s u × (count_used (blocks_of ino u) ≡ suc iblock)

  fill_blocks-Reached :
      (rounds n dbnr : ℕ) (s : Sb)
      → IsLayout s.info
      → IsOwn s ino
      → Spares k s n
      → dbnr ≡ count_used (blocks_of ino s)
      → dbnr + n ≡ suc iblock
      → n < rounds
      → Returns (Reached s) (fill_blocks k ino iblock rounds dbnr s)
  unfolding fill_blocks
  fill_blocks-Reached zero n dbnr s l o spares here enough fuel = absurd (omega arith)
  fill_blocks-Reached (suc rounds) zero dbnr s l o spares here enough fuel =
      let over : leb dbnr iblock ≡ false = ground arith in
      rw over (refl, Extension-refl s ino o, Grown-same ino s s o.file refl refl, omega arith)
  fill_blocks-Reached (suc rounds) (suc n) dbnr s l o spares here enough fuel =
      let more : leb dbnr iblock ≡ true = ground arith in
      let spare = Spares-first spares in
      rw more (
        Returns-bind (Reached s) (get_free_dblock k s) _
          (get_free_dblock-Allocated laws s l spare.dno spare.bit spare.free (read _ _)
            (spare.stays _))
          λ d t al.
            let small : d ≤ spare.dno = Allocated-le data_used spare.dno al spare.free in
            let room : count_used (s.inode ino).i_block < yaf_iblocks = omega arith in
            let same : dbnr ≡ count_used (blocks_of ino t) =
              here ∙ ap (λ (x : ℕ → Inode). count_used (x ino).i_block) (sym al.same_inodes) in
            let ext : Extension s ino (filled ino d t) = filled-Extension l spare o room al in
            let step : Grown ino t (filled ino d t) = (grown l spare o room al).0 in
            let longer : count_used (blocks_of ino (filled ino d t)) ≡ suc dbnr =
              length_now l spare o room al ∙ ap suc (sym here) in
            rw (ne→== d reserved_dno (omega (arith, small, spare.bit)), same)
              (Returns-mono (Reached s) _
                (fill_blocks-Reached rounds n (count_used (blocks_of ino t) + 1) (filled ino d t)
                  (rw ext.same_info l) ext.own (Spares-rest ino spares al)
                  (omega (arith, longer, same)) (omega (arith, same)) (omega arith))
                λ r u (all, e, g, c). (
                  all,
                  Extension-trans ext e,
                  Grown-trans (Grown-trans (before s t al.same_inodes al.same_info o) step) g,
                  c,
                )))
    where
      before : (s t : Sb) → t.inode ≡ s.inode → t.info ≡ s.info → IsOwn s ino → Grown ino s t
      before s t inodes info o = Grown-same ino s t o.file inodes info

  -- A block of a new entry was free: no old entry names it.
  was_free :
      {s u : Sb} (d : ℕ)
      → Extension s ino u
      → Grown ino s u
      → count_used (blocks_of ino s) ≤ iblock
      → iblock < count_used (blocks_of ino u)
      → get_elem? (blocks_of ino u) iblock ≡ some d
      → data_used s d ≡ false
  was_free {s} {u} d e g past inside at = elim (e.kept d (iblock, inside, at)) [
    | inr free ↦ free
    | inl (i, lt, old) ↦
        let same : i ≡ iblock =
          e.own.distinct i iblock d (omega (arith, g.longer)) inside (g.kept i lt ∙ old) at in
        absurd (omega (arith, same))
  ]

  -- On a device that can be read and laid out as `mkfs` does, for a file whose blocks are all its own,
  -- and any of the eight blocks, with as many free blocks among those of the first block of the data
  -- bitmap as the file is short of, and whose buffer stays in the cache until it is marked:
  -- `yaf_get_block` with `create` maps the buffer to the data block of
  -- that entry. An old entry changes nothing. A new one is then the last of the array and its block
  -- was free; the blocks that the file had stay at their entries, all its blocks are distinct, in the
  -- data section and marked, and those that it did not have were free. Its size, other inodes, the
  -- marks of the inode numbers and of the used blocks, and the bytes of the data section stay.
  pub get_block-MapsTo :
      (s : Sb)
      → IsLayout s.info
      → IsOwn s ino
      → Spares k s (suc iblock - count_used (blocks_of ino s))
      → Returns (MapsTo ino iblock s) (get_block k ino iblock true s)
  unfolding get_block
  get_block-MapsTo s l o spares =
      let in_bounds : leb yaf_iblocks iblock ≡ false = ground arith in
      elim (Bool-cases (leb (count_used (blocks_of ino s)) iblock)) [
        | inr used ↦
            let lt : iblock < count_used (blocks_of ino s) = ground arith in
            let (d, at, ne) = get_elem?-lt_count_used (blocks_of ino s) iblock lt in
            rw (in_bounds, used, map_block-done ino iblock d s at)
              (
                Extension-refl s ino o,
                Grown-same ino s s o.file refl refl,
                (d, at, (o.backed d (iblock, lt, at)).1, refl, inl (lt, refl)),
              )
        | inl hole ↦
            rw (in_bounds, hole)
              (Returns-bind (MapsTo ino iblock s) (fill_blocks k ino iblock _ _ s) _
                (fill_blocks-Reached (yaf_iblocks + 1) _ _ s l o spares refl (ground arith)
                  (omega arith))
                λ r t (filled_all, e, g, c).
                  let lt : iblock < count_used (blocks_of ino t) = omega arith in
                  let (d, at, ne) = get_elem?-lt_count_used (blocks_of ino t) iblock lt in
                  let u : Sb = record t { inode_dirty = update t.inode_dirty ino true } in
                  let ext : Extension s ino u = Extension-dirty e in
                  let whole : Grown ino s u = Grown-trans g (Grown-same ino t u g.file refl refl) in
                  rw (filled_all, map_block-done ino iblock d u at)
                    (
                      ext,
                      whole,
                      (
                        d,
                        at,
                        (ext.own.backed d (iblock, lt, at)).1,
                        refl,
                        inr (ground arith, c, was_free d ext whole (ground arith) lt at),
                      ),
                    ))
      ]
