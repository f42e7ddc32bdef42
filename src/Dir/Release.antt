-- ===== src/Dir/Release.antt =====
-- The loop of `yaf_delete` of driver/inode.c gives back the blocks of an inode.
use yaf.Base.{
  ℕ, zero, suc, ◌+◌, ◌*◌, ◌/◌, ◌%◌, ◌≤◌, ◌<◌, ◌≡◌, ◌≢◌, ◌⊎◌, ◌∙◌, sym, ap, inl, inr, refl, true,
  false, ◌==◌, arith, Bool-cases, ==→eq, ==-refl, ne→==, some, get_elem?, ltb, ltb→lt, ltb→ge,
}
use yaf.Layout.{SbInfo, block_size, idxd2bid}
use yaf.Layout.Regions.{IsLayout}
use yaf.Machine.{Inode, Sb, Kernel, Returns}
use yaf.Machine.Bits.{IsBitops}
use yaf.Machine.Rules.{Returns-bind, Returns-mono}
use yaf.Bitmap.{put_dblock}
use yaf.Bitmap.Used.{data_used}
use yaf.Bitmap.Free.{Freed, put_dblock-Freed}
use yaf.Dir.{put_blocks}
use yaf.Dir.Grow.{block_at-some}

-- The blocks of an inode's bytes from `doff` on are different data blocks that are marked.
pub record Owned (s : Sb) (ino doff : ℕ) : Type 0 where
  pub backed :
      (i : ℕ)
      → doff ≤ i * block_size
      → i * block_size < (s.inode ino).i_size
      → (dno : ℕ) × (get_elem? (s.inode ino).i_block i ≡ some dno)
        × (dno < s.info.nr_d)
        × (data_used s dno ≡ true)
  pub distinct :
      (i j dno : ℕ)
      → i * block_size < (s.inode ino).i_size
      → j * block_size < (s.inode ino).i_size
      → get_elem? (s.inode ino).i_block i ≡ some dno
      → get_elem? (s.inode ino).i_block j ≡ some dno
      → i ≡ j

-- A block of the inode's bytes from `doff` on.
abbrev pub Holds : Sb → (ino doff q : ℕ) → Type 0
Holds s ino doff q =
    (i : ℕ) × (doff ≤ i * block_size)
    × (i * block_size < (s.inode ino).i_size)
    × (get_elem? (s.inode ino).i_block i ≡ some q)

-- These blocks are clear in the data bitmap, the other marks and all blocks outside that bitmap are
-- as before, and so are the layout and the inodes.
pub record Released (s : Sb) (ino doff : ℕ) (u : Sb) : Type 0 where
  pub same_info : u.info ≡ s.info
  pub same_inodes : u.inode ≡ s.inode
  pub bytes :
      (b : ℕ) → ((q : ℕ) → q < s.info.nr_d → b ≢ idxd2bid s.info q) → u.buffer b ≡ s.buffer b
  pub freed : (q : ℕ) → Holds s ino doff q → data_used u q ≡ false
  pub clear : (q : ℕ) → q < s.info.nr_d → data_used s q ≡ false → data_used u q ≡ false
  pub kept :
      (q : ℕ)
      → q < s.info.nr_d
      → (Holds s ino doff q → ⊥)
      → data_used s q ≡ true
      → data_used u q ≡ true

module _ {s : Sb} {ino doff : ℕ} (l : IsLayout s.info) (owned : Owned s ino doff)
    (lt : doff < (s.inode ino).i_size) (md : doff % block_size ≡ 0) {dno : ℕ}
    (at : get_elem? (s.inode ino).i_block (doff / block_size) ≡ some dno)
    (small : dno < s.info.nr_d) {t : Sb} (f : Freed data_used (idxd2bid s.info dno) s dno t) where
  -- The mark of another block stays.
  other_mark : (q : ℕ) → q < s.info.nr_d → q ≢ dno → data_used t q ≡ data_used s q
  other_mark q lq ne = f.marked q (omega (arith, l.info.d_word)) ∙ rw (ne→== q dno ne) refl

  own_mark : data_used t dno ≡ false
  own_mark = f.marked dno (omega (arith, l.info.d_word)) ∙ rw (==-refl dno) refl

  Owned-next : Owned t ino (doff + block_size)
  Owned-next = record {
    backed = λ i le li.
        let size : (t.inode ino).i_size ≡ (s.inode ino).i_size =
          ap (λ (x : ℕ → Inode). (x ino).i_size) f.same_inodes in
        let (q, there, small', used) = owned.backed i (omega arith) (omega (arith, size)) in
        let ne : q ≢ dno = λ e. apart i le (omega (arith, size)) (there ∙ ap some e) in
        (
          q,
          ap (λ (x : ℕ → Inode). get_elem? (x ino).i_block i) f.same_inodes ∙ there,
          omega (arith, ap (λ (x : SbInfo). x.nr_d) f.same_info),
          other_mark q small' ne ∙ used,
        );
    distinct = rw f.same_inodes owned.distinct;
  }
    where
      apart :
          (i : ℕ)
          → doff + block_size ≤ i * block_size
          → i * block_size < (s.inode ino).i_size
          → get_elem? (s.inode ino).i_block i ≢ some dno
      apart i le li e =
          let same = owned.distinct i (doff / block_size) dno li (omega arith) e at in
          omega (arith, same)

  -- The first block is given back, and then the rest.
  Released-cons : (u : Sb) → Released t ino (doff + block_size) u → Released s ino doff u
  Released-cons u r = record {
    same_info = r.same_info ∙ f.same_info;
    same_inodes = r.same_inodes ∙ f.same_inodes;
    bytes = λ b apart. r.bytes b (rw f.same_info apart) ∙ f.others b (apart dno small);
    freed = λ q (i, le, li, there). elim (Bool-cases (i == (doff / block_size))) [
      | inl first ↦
          let same : q ≡ dno = cc (there, at, ==→eq i (doff / block_size) first) in
          rw same (r.clear dno (rw f.same_info small) own_mark)
      | inr later ↦
          r.freed q (rw f.same_inodes (i, omega (arith, later_index i le later), li, there))
    ];
    clear = λ q lq free. r.clear q (rw f.same_info lq) (elim (Bool-cases (q == dno)) [
      | inl here ↦ ap (data_used t) (==→eq q dno here) ∙ own_mark
      | inr there ↦ other_mark q lq (ground arith) ∙ free
    ]);
    kept = λ q lq not_held used.
        let ne : q ≢ dno =
          λ e. not_held (doff / block_size, omega arith, omega arith, at ∙ ap some (sym e)) in
        r.kept q (rw f.same_info lq)
          (λ held.
            let (i, le, li, there) = rw f.same_inodes at held in
            not_held (i, omega arith, li, there))
          (other_mark q lq ne ∙ used);
  }
    where
      later_index :
          (i : ℕ)
          → doff ≤ i * block_size
          → (i == (doff / block_size)) ≡ false
          → doff + block_size ≤ i * block_size
      later_index i le ne = let apart : i ≢ doff / block_size = ground arith in omega (arith, apart)

module _ {k : Kernel} (laws : IsBitops k) (read : (c b : ℕ) → k.sb_bread c b ≡ true) (ino : ℕ) where
  pub put_blocks-Released :
      (rounds doff : ℕ) (s : Sb)
      → IsLayout s.info
      → Owned s ino doff
      → doff % block_size ≡ 0
      → ((s.inode ino).i_size ≤ doff)
        ⊎ ((s.inode ino).i_size + block_size ≤ doff + rounds * block_size)
      → 0 < rounds
      → Returns (λ _ u. Released s ino doff u) (put_blocks k ino rounds doff s)
  unfolding put_blocks
  put_blocks-Released zero doff s l owned md enough pos = absurd (omega arith)
  put_blocks-Released (suc rounds) doff s l owned md enough pos =
      elim (Bool-cases (ltb doff (s.inode ino).i_size)) [
        | inr past ↦
            let le = ltb→ge doff (s.inode ino).i_size past in
            rw past (record {
              same_info = refl;
              same_inodes = refl;
              bytes = λ b apart. refl;
              freed = λ q (i, lo, hi, there). absurd (omega (arith, le));
              clear = λ q lq free. free;
              kept = λ q lq held used. used;
            })
        | inl more ↦
            let lt = ltb→lt doff (s.inode ino).i_size more in
            let (dno, at, small, used) =
              owned.backed (doff / block_size) (omega arith) (omega (arith, lt)) in
            rw (more, block_at-some ino (doff / block_size) s dno at)
              (Returns-bind _ (put_dblock k dno s) _
                (put_dblock-Freed laws s dno l (omega (arith, small, l.info.d_word)) used
                  (read s.calls (idxd2bid s.info dno)))
                λ x t f.
                  let size : (t.inode ino).i_size ≡ (s.inode ino).i_size =
                    ap (λ (y : ℕ → Inode). (y ino).i_size) f.same_inodes in
                  Returns-mono _ _
                    (put_blocks-Released rounds (doff + block_size) t (rw f.same_info l)
                      (Owned-next l owned lt md at small f) (omega arith)
                      (omega (arith, enough, size)) (omega (arith, enough, lt)))
                    λ y u r. Released-cons l owned lt md at small f u r)
      ]
