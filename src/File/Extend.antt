-- ===== src/File/Extend.antt =====
-- `yaf_get_block` of driver/file.c for the block behind a file's last, as a sequential write asks for
-- it: the new block was free, and nothing of the other inodes changes.
use yaf.Base.{
  Option, ℕ, suc, ◌+◌, ◌*◌, ◌≤◌, ◌<◌, ◌≡◌, ◌≢◌, ◌⊎◌, ◌∙◌, sym, ap, inl, inr, refl, Bool, true,
  false, arith, ◌==◌, Bool-cases, ==→eq, ==-refl, ne→==, some, get_elem?, set, length, leb,
  true-false, get_elem?-set_self, get_elem?-set_ne,
}
use yaf.Base.Word.{IsWord}
use yaf.Layout.{SbInfo, bits_per_block, dno2bid, idxi2bid, bid_dbp_min, bid_d_min}
use yaf.Layout.Bounds.{bid_ibp_min-eq, bid_dbp_min-eq, bid_d_min-eq}
use yaf.Layout.Regions.{IsLayout}
use yaf.Machine.{Inode, Sb, Kernel, Result, ok, Returns, update}
use yaf.Machine.Bits.{IsBitops}
use yaf.Machine.Rules.{Returns-bind}
use yaf.Bitmap.{reserved_dno, get_free_dblock}
use yaf.Bitmap.Used.{data_used, inode_used, data_used-kept, inode_used-kept, Allocated}
use yaf.Bitmap.Alloc.{get_free_dblock-Allocated}
use yaf.Bitmap.Cycle.{Allocated-le}
use yaf.Inode.{yaf_iblocks}
use yaf.File.{count_used, get_block, fill_blocks, with_block}
use yaf.File.Grow.{Grown, filled, filled-Grown, filled-blocks, map_block-done}
use yaf.File.Own.{Keeps, IsOwn}
use yaf.Dir.Ready.{SpareBlock}

-- The blocks that the file has now it had before, or they were free; the other inodes, the marks and
-- the bytes of the data section are as before.
pub record Extension (s : Sb) (ino : ℕ) (u : Sb) : Type 0 where
  pub same_info : u.info ≡ s.info
  pub other_inodes : (n : ℕ) → n ≢ ino → u.inode n ≡ s.inode n
  pub data_marks : (q : ℕ) → q < s.info.nr_d → data_used s q ≡ true → data_used u q ≡ true
  pub number_marks :
      (n : ℕ) → n < s.info.nr_ibp * bits_per_block → IsWord n → inode_used u n ≡ inode_used s n
  pub bytes : (b : ℕ) → bid_d_min s.info ≤ b → u.buffer b ≡ s.buffer b
  pub own : IsOwn u ino
  pub kept : (q : ℕ) → Keeps u ino q → Keeps s ino q ⊎ (data_used s q ≡ false)

module _ {k : Kernel} {s : Sb} {ino d : ℕ} {t : Sb} (l : IsLayout s.info) (spare : SpareBlock k s)
    (o : IsOwn s ino) (room : count_used (s.inode ino).i_block < yaf_iblocks)
    (al : Allocated data_used (bid_dbp_min s.info) s d t) where
  abbrev last : ℕ
  last = count_used (s.inode ino).i_block

  small : d ≤ spare.dno
  small = Allocated-le data_used spare.dno al spare.free

  word : IsWord d
  word = omega (arith, small, spare.bit)

  same : t.inode ino ≡ s.inode ino
  same = ap (λ (x : ℕ → Inode). x ino) al.same_inodes

  -- The array now.
  array : ((filled ino d t).inode ino).i_block ≡ set (s.inode ino).i_block last d
  array = filled-blocks ino d t ∙ ap (λ (x : Inode). set x.i_block (count_used x.i_block) d) same

  pub grown :
      Grown ino t (filled ino d t)
      × (count_used ((filled ino d t).inode ino).i_block ≡ suc (count_used (t.inode ino).i_block))
  grown =
      filled-Grown ino d t
        (record {
          eight = ap (λ (x : Inode). length x.i_block) same ∙ o.file.eight;
          no_holes = rw al.same_inodes o.file.no_holes;
        })
        (omega (arith, ap (λ (x : Inode). count_used x.i_block) same, room))
        (omega (arith, small, spare.bit))

  pub length_now : count_used ((filled ino d t).inode ino).i_block ≡ suc last
  length_now = grown.1 ∙ ap (λ (x : Inode). suc (count_used x.i_block)) same

  at_last : get_elem? ((filled ino d t).inode ino).i_block last ≡ some d
  at_last =
      ap (λ bs. get_elem? bs last) array
      ∙ get_elem?-set_self (s.inode ino).i_block last d (omega (arith, o.file.eight, room))

  at_old :
      (i : ℕ)
      → i < last
      → get_elem? ((filled ino d t).inode ino).i_block i ≡ get_elem? (s.inode ino).i_block i
  at_old i lt =
      ap (λ bs. get_elem? bs i) array
      ∙ get_elem?-set_ne (s.inode ino).i_block {i = last} {j = i} d (omega arith)

  -- An entry is the new one or an old one.
  new_or_old :
      (i q : ℕ)
      → i < count_used ((filled ino d t).inode ino).i_block
      → get_elem? ((filled ino d t).inode ino).i_block i ≡ some q
      → ((i ≡ last) × (q ≡ d)) ⊎ ((i < last) × (get_elem? (s.inode ino).i_block i ≡ some q))
  new_or_old i q lt at = elim (Bool-cases (i == last)) [
    | inl new ↦ let e = ==→eq i last new in inl (e, cc (at_last, at, e))
    | inr old ↦
        let ne : i ≢ last = ground arith in
        let less : i < last = omega (arith, length_now, ne) in inr (less, sym (at_old i less) ∙ at)
  ]

  filled-data : (q : ℕ) → data_used (filled ino d t) q ≡ data_used t q
  filled-data q = data_used-kept t (filled ino d t) q refl refl

  keeps_new : data_used (filled ino d t) d ≡ true
  keeps_new = filled-data d ∙ al.marked d word ∙ rw (==-refl d) refl

  marks_kept :
      (q : ℕ) → q < s.info.nr_d → data_used s q ≡ true → data_used (filled ino d t) q ≡ true
  marks_kept q lq used =
      filled-data q ∙ al.marked q (omega (arith, l.info.d_word)) ∙ ground (arith, used)

  -- A block that an old entry names is not the new one.
  old_block : (i q : ℕ) → i < last → get_elem? (s.inode ino).i_block i ≡ some q → q ≢ d
  old_block i q lt at e =
      let (lq, used) = o.backed q (i, lt, at) in
      true-false (sym used ∙ ap (data_used s) e ∙ al.was_free)

  sections : t.info.nr_d ≡ s.info.nr_d
  sections = ap (λ (x : SbInfo). x.nr_d) al.same_info

  own : IsOwn (filled ino d t) ino
  own = record {
    file = grown.0.file;
    sized = omega (arith, o.sized, length_now, grown.0.size ∙ ap (λ (x : Inode). x.i_size) same);
    backed = λ q (i, lt, at). elim (new_or_old i q lt at) [
      | inl (new, e) ↦ (
        omega (arith, small, spare.in_range, e, sections),
        ap (data_used (filled ino d t)) e ∙ keeps_new,
      )
      | inr (less, before) ↦
          let (lq, used) = o.backed q (i, less, before) in
          (omega (arith, lq, sections), marks_kept q lq used)
    ];
    distinct = λ i j q li lj ei ej. elim (new_or_old i q li ei) [
      | inl (ni, e) ↦ elim (new_or_old j q lj ej) [
        | inl (nj, e') ↦ ni ∙ sym nj
        | inr (less, before) ↦ absurd (old_block j q less before e)
      ]
      | inr (li', bi) ↦ elim (new_or_old j q lj ej) [
        | inl (nj, e) ↦ absurd (old_block i q li' bi e)
        | inr (lj', bj) ↦ o.distinct i j q li' lj' bi bj
      ]
    ];
  }

  numbers :
      (n : ℕ)
      → n < s.info.nr_ibp * bits_per_block
      → IsWord n
      → inode_used (filled ino d t) n ≡ inode_used s n
  unfolding idxi2bid
  numbers n bit wn = inode_used-kept s (filled ino d t) n al.same_info (
      al.others (idxi2bid s.info n)
        (omega (arith, bid_ibp_min-eq s.info, bid_dbp_min-eq l.info, l.info.ibp_word)))

  pub filled-Extension : Extension s ino (filled ino d t)
  filled-Extension = record {
    same_info = al.same_info;
    other_inodes = λ n ne. grown.0.others n ne ∙ ap (λ (x : ℕ → Inode). x n) al.same_inodes;
    data_marks = marks_kept;
    number_marks = numbers;
    bytes =
        λ b le. al.others b (omega (arith, bid_dbp_min-eq l.info, bid_d_min-eq l.info, l.has_dbp));
    own = own;
    kept = λ q (i, lt, at). elim (new_or_old i q lt at) [
      | inl (new, e) ↦ inr (rw e al.was_free)
      | inr (less, before) ↦ inl (i, less, before)
    ];
  }

pub Extension-dirty :
    {s u : Sb} {ino : ℕ}
    → Extension s ino u
    → Extension s ino (record u { inode_dirty = update u.inode_dirty ino true })
unfolding data_used inode_used
Extension-dirty e = record {
  same_info = e.same_info;
  other_inodes = e.other_inodes;
  data_marks = e.data_marks;
  number_marks = e.number_marks;
  bytes = e.bytes;
  own = record {
    file = record { eight = e.own.file.eight; no_holes = e.own.file.no_holes };
    sized = e.own.sized;
    backed = e.own.backed;
    distinct = e.own.distinct;
  };
  kept = e.kept;
}

-- The loop makes one round.
OneBlock : Sb → ℕ → Bool → Sb → Type 0
OneBlock s ino r u =
    (r ≡ true)
    × ((d : ℕ) × (t : Sb) × Allocated data_used (bid_dbp_min s.info) s d t × (u ≡ filled ino d t))

fill_blocks-OneBlock :
    (k : Kernel) (s : Sb) (ino n more : ℕ)
    → IsBitops k
    → ((c b : ℕ) → k.sb_bread c b ≡ true)
    → IsLayout s.info
    → SpareBlock k s
    → n ≡ count_used (s.inode ino).i_block
    → Returns (OneBlock s ino) (fill_blocks k ino n (suc (suc more)) n s)
unfolding fill_blocks OneBlock
fill_blocks-OneBlock k s ino n more laws read l spare e =
    let hole : leb n n ≡ true = ground arith in
    let stop : leb (n + 1) n ≡ false = ground arith in
    rw hole (
      Returns-bind (OneBlock s ino) (get_free_dblock k s) _
        (get_free_dblock-Allocated laws s l spare.dno spare.bit spare.free (read _ _)
          (spare.stays _))
        λ d t al.
          let small : d ≤ spare.dno = Allocated-le data_used spare.dno al spare.free in
          let same : n ≡ count_used (t.inode ino).i_block =
            e ∙ ap (λ (x : ℕ → Inode). count_used (x ino).i_block) (sym al.same_inodes) in
          rw (ne→== d reserved_dno (omega (arith, small, spare.bit)), stop)
            (
              refl,
              (
                d,
                t,
                al,
                ap (λ c. record t { inode = update t.inode ino (with_block (t.inode ino) c d) })
                    same,
              ),
            ))

-- A block that was free is now the last of the file and is mapped.
abbrev pub Allots : Sb → ℕ → Result (Option ℕ) → Sb → Type 0
Allots s ino r u =
    Extension s ino u
    × ((d : ℕ) × (data_used s d ≡ false)
        × (data_used u d ≡ true)
        × (get_elem? (u.inode ino).i_block (count_used (s.inode ino).i_block) ≡ some d)
        × (r ≡ ok (some (dno2bid u.info d))))

pub get_block-Extension :
    (k : Kernel) (s : Sb) (ino : ℕ)
    → IsBitops k
    → ((c b : ℕ) → k.sb_bread c b ≡ true)
    → IsLayout s.info
    → SpareBlock k s
    → IsOwn s ino
    → count_used (s.inode ino).i_block < yaf_iblocks
    → Returns (Allots s ino) (get_block k ino (count_used (s.inode ino).i_block) true s)
unfolding get_block OneBlock
get_block-Extension k s ino laws read l spare o room =
    let n = count_used (s.inode ino).i_block in
    let bound : leb yaf_iblocks n ≡ false = ground arith in
    let hole : leb n n ≡ true = ground arith in
    rw (bound, hole)
      (Returns-bind _ (fill_blocks k ino n 9 n s) _
        (fill_blocks-OneBlock k s ino n 7 laws read l spare refl)
        λ r u (filled_all, (d, t, al, e)).
          let v : Sb = record (filled ino d t) { inode_dirty = update t.inode_dirty ino true } in
          let ext : Extension s ino v = Extension-dirty (filled-Extension l spare o room al) in
          let there = at_last l spare o room al in
          let inside : n < count_used (v.inode ino).i_block =
            omega (arith, length_now l spare o room al) in
          rw (filled_all, e, map_block-done ino n d v there)
            (ext, (d, al.was_free, (ext.own.backed d (n, inside, there)).1, there, refl)))
