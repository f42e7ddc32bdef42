-- ===== src/Dir/Append.antt =====
-- The unused entry that `yaf_get_free_dentry` writes behind a directory's last.
pub mod Held
use yaf.Base.{
  ℕ, ◌+◌, ◌*◌, ◌/◌, ◌%◌, ◌≤◌, ◌<◌, ◌≡◌, ◌≢◌, ◌⊎◌, ◌∙◌, sym, ap, inl, inr, refl, Bool, true, ◌==◌,
  arith, ==-refl, ne→==, ==→eq, get_elem?, some, length, Bool-cases,
}
use yaf.Base.Word.{IsWord}
use yaf.Layout.{SbInfo, block_size, bid_dbp_min, bits_per_block, dno2bid, idxd2bid, idxi2bid}
use yaf.Machine.{Block, Sb, Kernel, update}
use yaf.Machine.Bytes.{put32, put32-Outside, get32-put32}
use yaf.Bitmap.{reserved_ino}
use yaf.Bitmap.Used.{data_used, inode_used, data_used-kept, inode_used-kept}
use yaf.Inode.{yaf_iblocks}
use yaf.Dentry.{Name, dentry_size, is_unused, has_name}
use yaf.Dentry.Scan.{passes, passes-some}
use yaf.Dir.Ready.{Ready}
use yaf.Dir.Apart.{dno2bid-apart, idxi2bid-apart, dno2bid-ne_dbp_min, dno2bid-injective}
use yaf.Dir.View.{Local, binds, binds-Local, has_name-Local, HasBlocks, IsDir}
use yaf.Dir.Refine.{Dict, Refines, binds-has_name, is_unused-has_name}
use yaf.Dir.Grow.{Extended}

-- An unused entry of a well-formed directory that has the names of the map, in a state whose inode
-- bitmap is that of `s`.
pub record Slot (m : Dict) (s : Sb) (dir d : ℕ) (u : Sb) : Type 0 where
  pub is_dir : IsDir u dir
  pub refines : Refines m u dir
  pub inside : d < (u.inode dir).i_size
  pub aligned : d % dentry_size ≡ 0
  pub free : passes u dir is_unused d ≡ true
  pub same_info : u.info ≡ s.info
  pub inode_marks :
      (n : ℕ) → n < s.info.nr_ibp * bits_per_block → IsWord n → inode_used u n ≡ inode_used s n

abbrev size_of : Sb → ℕ → ℕ
size_of s dir = (s.inode dir).i_size

-- The index of the entry of `i_block` that the byte behind the last has.
abbrev last_of : Sb → ℕ → ℕ
last_of s dir = size_of s dir / block_size

-- The last store of `yaf_get_free_dentry`, from the extended directory `t` to `u`.
pub record Appended (s : Sb) (dir dno : ℕ) (t u : Sb) : Type 0 where
  pub room : size_of s dir < block_size * yaf_iblocks
  pub extended : Extended s dir dno t
  pub buffer :
      u.buffer
      ≡ update t.buffer
          (dno2bid s.info dno)
          (put32 (t.buffer (dno2bid s.info dno)) (size_of s dir % block_size) reserved_ino)
  pub info : u.info ≡ t.info
  pub blocks : (u.inode dir).i_block ≡ (t.inode dir).i_block
  pub grown : size_of u dir ≡ size_of s dir + dentry_size
  pub others : (n : ℕ) → n ≢ dir → u.inode n ≡ t.inode n

module _ {k : Kernel} {s t u : Sb} {dir dno : ℕ} (ready : Ready k s dir) (h : IsDir s dir)
    (a : Appended s dir dno t u) where
  at_last : get_elem? (u.inode dir).i_block (last_of s dir) ≡ some dno
  at_last = ap (λ bs. get_elem? bs (last_of s dir)) a.blocks ∙ a.extended.at

  at_old :
      (i : ℕ)
      → (i * block_size < size_of s dir) ⊎ (size_of s dir + dentry_size ≤ i * block_size)
      → get_elem? (u.inode dir).i_block i ≡ get_elem? (s.inode dir).i_block i
  at_old i o = ap (λ bs. get_elem? bs i) a.blocks ∙ a.extended.old i o

  same_info : u.info ≡ s.info
  same_info = a.info ∙ a.extended.same_info

  here :
      u.buffer (dno2bid s.info dno)
      ≡ put32 (t.buffer (dno2bid s.info dno)) (size_of s dir % block_size) reserved_ino
  here =
      ap (λ (f : ℕ → Block). f (dno2bid s.info dno)) a.buffer
      ∙ rw (==-refl (dno2bid s.info dno)) refl

  there : (b : ℕ) → b ≢ dno2bid s.info dno → u.buffer b ≡ t.buffer b
  there b ne = ap (λ (f : ℕ → Block). f b) a.buffer ∙ rw (ne→== b (dno2bid s.info dno) ne) refl

  -- Blocks that are neither the entry's nor the first of the data bitmap are as before.
  kept : (b : ℕ) → b ≢ dno2bid s.info dno → b ≢ bid_dbp_min s.info → u.buffer b ≡ s.buffer b
  kept b np nb = there b np ∙ a.extended.buffers b nb

  data_kept : (n : ℕ) → n < s.info.nr_d → data_used t n ≡ true → data_used u n ≡ true
  data_kept n lt used =
      let far =
        dno2bid-apart s.info dno n ready.layout a.extended.small (omega (arith, ready.bits))
          (omega (arith, ready.layout.info.d_word)) in
      data_used-kept t u n a.info (
        there (idxd2bid t.info n)
          (λ e. far.1 (sym e ∙ ap (λ i. idxd2bid i n) a.extended.same_info)))
      ∙ used

  inode_kept :
      (n : ℕ) → n < s.info.nr_ibp * bits_per_block → IsWord n → inode_used u n ≡ inode_used s n
  inode_kept n bit word =
      let far = idxi2bid-apart s.info dno n ready.layout a.extended.small bit word in
      inode_used-kept s u n same_info (kept (idxi2bid s.info n) far.0 far.1)

  backed_old :
      (i : ℕ)
      → i * block_size < size_of s dir
      → (d : ℕ) × (get_elem? (u.inode dir).i_block i ≡ some d)
        × (d < u.info.nr_d)
        × (data_used u d ≡ true)
  backed_old i lt =
      let (d, at, small, used) = h.blocks.backed i lt in
      (
        d,
        at_old i (inl lt) ∙ at,
        omega (arith, ap (λ (x : SbInfo). x.nr_d) same_info),
        data_kept d small (a.extended.marks d small used),
      )

  -- An index of the array that is in use now is the last or was in use.
  last_or_old :
      (i : ℕ)
      → i * block_size < size_of u dir
      → (i ≡ last_of s dir) ⊎ (i * block_size < size_of s dir)
  last_or_old i lt = elim (Bool-cases (i == last_of s dir)) [
    | inl new ↦ inl (==→eq _ _ new)
    | inr other ↦ inr (ground (arith, a.grown, h.whole))
  ]

  old_at_last :
      (j d : ℕ)
      → j * block_size < size_of s dir
      → get_elem? (u.inode dir).i_block (last_of s dir) ≡ some d
      → get_elem? (u.inode dir).i_block j ≡ some d
      → j ≡ last_of s dir
  old_at_last j d lt new old =
      let same : d ≡ dno = cc (new, at_last) in
      a.extended.only j lt (sym (at_old j (inl lt)) ∙ old ∙ ap some same)

  distinct_now :
      (i j d : ℕ)
      → i * block_size < size_of u dir
      → j * block_size < size_of u dir
      → get_elem? (u.inode dir).i_block i ≡ some d
      → get_elem? (u.inode dir).i_block j ≡ some d
      → i ≡ j
  distinct_now i j d li lj ei ej = elim (last_or_old i li) [
    | inl ni ↦ elim (last_or_old j lj) [
      | inl nj ↦ ni ∙ sym nj
      | inr oj ↦
          ni ∙ sym (old_at_last j d oj (ap (get_elem? (u.inode dir).i_block) (sym ni) ∙ ei) ej)
    ]
    | inr oi ↦ elim (last_or_old j lj) [
      | inl nj ↦ old_at_last i d oi (ap (get_elem? (u.inode dir).i_block) (sym nj) ∙ ej) ei ∙ sym nj
      | inr oj ↦
          h.blocks.distinct i j d oi oj (sym (at_old i (inl oi)) ∙ ei)
            (sym (at_old j (inl oj)) ∙ ej)
    ]
  ]

  blocks_kept : HasBlocks u dir
  blocks_kept = record {
    eight = ap length a.blocks ∙ a.extended.eight;
    sized = omega (arith, a.room, a.grown, h.whole);
    backed = λ i lt. elim (last_or_old i lt) [
      | inl new ↦ (
        dno,
        ap (get_elem? (u.inode dir).i_block) new ∙ at_last,
        omega (arith, a.extended.small, ap (λ (x : SbInfo). x.nr_d) same_info),
        data_kept dno a.extended.small a.extended.used,
      )
      | inr old ↦ backed_old i old
    ];
    distinct = distinct_now;
    spare = λ i le lt.
        at_old i (inr (omega (arith, a.grown))) ∙ h.blocks.spare i (omega (arith, a.grown)) lt;
  }

  -- The bytes of an old entry.
  bytes_old :
      (e eno o : ℕ)
      → e < size_of s dir
      → e % dentry_size ≡ 0
      → get_elem? (s.inode dir).i_block (e / block_size) ≡ some eno
      → eno < s.info.nr_d
      → e % block_size ≤ o
      → o < e % block_size + dentry_size
      → u.buffer (dno2bid s.info eno) o ≡ s.buffer (dno2bid s.info eno) o
  bytes_old e eno o le me at small lo hi = elim (Bool-cases (eno == dno)) [
    | inl same ↦
        let q : eno ≡ dno = ==→eq _ _ same in
        let index : e / block_size ≡ last_of s dir =
          a.extended.only (e / block_size) (omega arith) (at ∙ ap some q) in
        rw (q, here)
          (put32-Outside (t.buffer (dno2bid s.info dno)) (size_of s dir % block_size) reserved_ino o
              (inl (omega (arith, index, h.whole)))
            ∙ ap (λ (f : Block). f o)
                (a.extended.buffers (dno2bid s.info dno)
                  (dno2bid-ne_dbp_min s.info dno ready.layout a.extended.small)))
    | inr other ↦
        let ne : eno ≢ dno = ground arith in
        ap (λ (f : Block). f o)
          (kept (dno2bid s.info eno)
            (λ q. ne (dno2bid-injective s.info eno dno ready.layout.info small a.extended.small q))
            (dno2bid-ne_dbp_min s.info eno ready.layout small))
  ]

  passes_old :
      (test : Block → ℕ → Bool) (e : ℕ)
      → Local test
      → e < size_of s dir
      → e % dentry_size ≡ 0
      → passes u dir test e ≡ passes s dir test e
  passes_old test e local lt me =
      let (eno, at, small, used) = h.blocks.backed (e / block_size) (omega arith) in
      passes-some u dir test e eno (at_old (e / block_size) (inl (omega arith)) ∙ at)
      ∙ rw same_info (
          local (u.buffer (dno2bid s.info eno)) (s.buffer (dno2bid s.info eno)) (e % block_size)
            (λ o lo hi. bytes_old e eno o lt me at small lo hi))
      ∙ sym (passes-some s dir test e eno at)

  free_here : passes u dir is_unused (size_of s dir) ≡ true
  unfolding is_unused
  free_here =
      passes-some u dir is_unused (size_of s dir) dno at_last
      ∙ rw
          (
            same_info,
            here,
            get32-put32 (t.buffer (dno2bid s.info dno)) (size_of s dir % block_size) reserved_ino,
          )
          refl

  -- A used entry is an old one.
  named_old :
      (name : Name) (e : ℕ)
      → e < size_of u dir
      → e % dentry_size ≡ 0
      → passes u dir (has_name name) e ≡ true
      → e < size_of s dir
  named_old name e le me named = elim (Bool-cases (e == size_of s dir)) [
    | inl new ↦ absurd (
        is_unused-has_name u dir name e (ap (passes u dir is_unused) (==→eq _ _ new) ∙ free_here)
          named)
    | inr other ↦ ground (arith, a.grown, h.whole)
  ]

  pub Appended-Slot : (m : Dict) → Refines m s dir → Slot m s dir (size_of s dir) u
  Appended-Slot m refines = record {
    is_dir = record {
      blocks = blocks_kept;
      whole = omega (arith, a.grown, h.whole);
      unique = λ name d e n ld le md me pd pe.
          let od = named_old name d ld md pd in
          let oe = named_old name e le me pe in
          h.unique name d e n od oe md me
            (sym (passes_old (has_name name) d (has_name-Local name) od md) ∙ pd)
            (sym (passes_old (has_name name) e (has_name-Local name) oe me) ∙ pe);
    };
    refines = λ name n ino. (
      λ (e, le, me, p).
          let old = named_old name e le me (binds-has_name u dir name ino e p) in
          (refines name n ino).0
            (e, old, me, sym (passes_old (binds name ino) e (binds-Local name ino) old me) ∙ p),
      λ q.
          let (e, le, me, p) = (refines name n ino).1 q in
          (
            e,
            omega (arith, a.grown),
            me,
            passes_old (binds name ino) e (binds-Local name ino) le me ∙ p,
          ),
    );
    inside = omega (arith, a.grown);
    aligned = h.whole;
    free = free_here;
    same_info = same_info;
    inode_marks = inode_kept;
  }
