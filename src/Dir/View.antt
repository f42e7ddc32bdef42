-- ===== src/Dir/View.antt =====
-- A directory of driver/inode.c as the relation between names and inode numbers that its entries
-- make, and what a store of one entry does to it.
use yaf.Base.{
  ℕ, ◌+◌, ◌*◌, ◌/◌, ◌%◌, ◌≤◌, ◌<◌, ◌≡◌, ◌≢◌, ◌∙◌, sym, ap, inl, inr, refl, Bool, true, ◌==◌, ◌&&◌,
  arith, Bool-cases, ==→eq, get_elem?, some, length,
}
use yaf.Layout.{SbInfo, IsInfo, block_size, dno2bid, bid_d_min}
use yaf.Machine.{Block, Sb}
use yaf.Machine.Bytes.{Outside, get32-cong}
use yaf.Bitmap.{reserved_dno}
use yaf.Bitmap.Used.{data_used}
use yaf.Inode.{yaf_iblocks}
use yaf.Dentry.Name.{IsName}
use yaf.Dentry.{Name, dentry_size, dentry_name_len, d_ino, is_unused, has_name}
use yaf.Dentry.Entry.{is_unused-cong, has_name-cong}
use yaf.Dentry.Scan.{passes, passes-some, after_calls}
use yaf.Dir.Apart.{dno2bid-injective, dno2bid-le}

-- A test that reads the 32 bytes of its entry only.
abbrev pub Local : (Block → ℕ → Bool) → Type 0
Local t =
    (b c : Block) (off : ℕ)
    → ((o : ℕ) → off ≤ o → o < off + dentry_size → b o ≡ c o)
    → t b off ≡ t c off

-- The entry has a name and refers to an inode.
unfoldable pub binds : Name → ℕ → Block → ℕ → Bool
binds name ino b off = has_name name b off && d_ino b off == ino

pub binds-Local : (name : Name) (ino : ℕ) → Local (binds name ino)
unfolding binds
binds-Local name ino b c off same =
    rw (has_name-cong b c off name same, get32-cong b c off (λ o lo hi. same o lo (omega arith)))
      refl

pub has_name-Local : (name : Name) → Local (has_name name)
has_name-Local name b c off same = has_name-cong b c off name same

pub is_unused-Local : Local is_unused
is_unused-Local b c off same = is_unused-cong b c off same

-- The blocks of an inode's bytes are different blocks of the data section, all marked as used.
pub record HasBlocks (s : Sb) (n : ℕ) : Type 0 where
  pub eight : length (s.inode n).i_block ≡ yaf_iblocks
  pub sized : (s.inode n).i_size ≤ block_size * yaf_iblocks
  pub backed :
      (i : ℕ)
      → i * block_size < (s.inode n).i_size
      → (dno : ℕ) × (get_elem? (s.inode n).i_block i ≡ some dno)
        × (dno < s.info.nr_d)
        × (data_used s dno ≡ true)
  pub distinct :
      (i j dno : ℕ)
      → i * block_size < (s.inode n).i_size
      → j * block_size < (s.inode n).i_size
      → get_elem? (s.inode n).i_block i ≡ some dno
      → get_elem? (s.inode n).i_block j ≡ some dno
      → i ≡ j
  pub spare :
      (i : ℕ)
      → (s.inode n).i_size ≤ i * block_size
      → i < yaf_iblocks
      → get_elem? (s.inode n).i_block i ≡ some reserved_dno

-- A name that an entry can hold.
abbrev pub IsEntryName : Name → Type 0
IsEntryName name = IsName name × (length name ≤ dentry_name_len)

-- A directory: whole entries, each used name once.
pub record IsDir (s : Sb) (dir : ℕ) : Type 0 where
  pub blocks : HasBlocks s dir
  pub whole : (s.inode dir).i_size % dentry_size ≡ 0
  pub unique :
      (name : Name) (d e : ℕ)
      → IsEntryName name
      → d < (s.inode dir).i_size
      → e < (s.inode dir).i_size
      → d % dentry_size ≡ 0
      → e % dentry_size ≡ 0
      → passes s dir (has_name name) d ≡ true
      → passes s dir (has_name name) e ≡ true
      → d ≡ e

-- The blocks of an inode stay its blocks while its size, its array and their marks are kept.
pub HasBlocks-kept :
    {s s' : Sb} (n : ℕ)
    → s'.info ≡ s.info
    → (s'.inode n).i_block ≡ (s.inode n).i_block
    → (s'.inode n).i_size ≡ (s.inode n).i_size
    → ((i dno : ℕ)
        → i * block_size < (s.inode n).i_size
        → get_elem? (s.inode n).i_block i ≡ some dno
        → dno < s.info.nr_d
        → data_used s dno ≡ true
        → data_used s' dno ≡ true)
    → HasBlocks s n
    → HasBlocks s' n
HasBlocks-kept n info blocks size used h = record {
  eight = rw blocks h.eight;
  sized = rw size h.sized;
  backed = λ i lt.
      let (dno, at, small, marked) = h.backed i (omega (arith, size)) in
      (
        dno,
        ap (λ bs. get_elem? bs i) blocks ∙ at,
        omega (arith, ap (λ (x : SbInfo). x.nr_d) info),
        used i dno (omega (arith, size)) at small marked,
      );
  distinct = rw (blocks, size) h.distinct;
  spare = rw (blocks, size) h.spare;
}

-- The directory maps a name to an inode number.
abbrev pub Maps : Sb → ℕ → Name → ℕ → Type 0
Maps s dir name ino =
    (d : ℕ) × (d < (s.inode dir).i_size)
    × (d % dentry_size ≡ 0)
    × (passes s dir (binds name ino) d ≡ true)

-- The entry at offset `d`, in block `dno`, now has the bytes of `b'`; the other entries, the size
-- and the blocks of the directory and the layout are as before.
pub record Rewrote (s : Sb) (dir d dno : ℕ) (b' : Block) (s' : Sb) : Type 0 where
  pub at : get_elem? (s.inode dir).i_block (d / block_size) ≡ some dno
  pub same_info : s'.info ≡ s.info
  pub same_blocks : (s'.inode dir).i_block ≡ (s.inode dir).i_block
  pub same_size : (s'.inode dir).i_size ≡ (s.inode dir).i_size
  pub here : s'.buffer (dno2bid s.info dno) ≡ b'
  pub around :
      (o : ℕ)
      → Outside (d % block_size) (d % block_size + dentry_size) o
      → b' o ≡ s.buffer (dno2bid s.info dno) o
  pub others : (b : ℕ) → bid_d_min s.info ≤ b → b ≢ dno2bid s.info dno → s'.buffer b ≡ s.buffer b

module _ {s s' : Sb} {dir d dno : ℕ} {b' : Block} (w : IsInfo s.info) (h : HasBlocks s dir)
    (r : Rewrote s dir d dno b' s') where
  pub Rewrote-here : (t : Block → ℕ → Bool) → passes s' dir t d ≡ t b' (d % block_size)
  Rewrote-here t =
      passes-some s' dir t d dno (rw r.same_blocks r.at) ∙ rw (r.same_info, r.here) refl

  dno_small : d < (s.inode dir).i_size → dno < s.info.nr_d
  dno_small ld =
      let (dno', at', small, used) = h.backed (d / block_size) (omega arith) in
      let same : dno' ≡ dno = cc (at', r.at) in omega (arith, same)

  -- The bytes of another entry, in block `eno`.
  bytes-kept :
      (e eno : ℕ)
      → d < (s.inode dir).i_size
      → e < (s.inode dir).i_size
      → d % dentry_size ≡ 0
      → e % dentry_size ≡ 0
      → e ≢ d
      → get_elem? (s.inode dir).i_block (e / block_size) ≡ some eno
      → eno < s.info.nr_d
      → (o : ℕ) → e % block_size ≤ o
      → o < e % block_size + dentry_size
      → s'.buffer (dno2bid s'.info eno) o ≡ s.buffer (dno2bid s.info eno) o
  bytes-kept e eno ld le md me ne at small o lo hi =
      elim (Bool-cases ((e / block_size) == (d / block_size))) [
        | inl same ↦
            let index : e / block_size ≡ d / block_size = ==→eq _ _ same in
            let eno_dno : eno ≡ dno = cc (at, r.at, index) in
            rw (r.same_info, eno_dno, r.here) (r.around o (omega (arith, index)))
        | inr other ↦
            let index : e / block_size ≢ d / block_size = ground arith in
            let apart : dno2bid s.info eno ≢ dno2bid s.info dno = λ q. index (
              h.distinct (e / block_size) (d / block_size) dno (omega arith) (omega arith)
                (at ∙ ap some (dno2bid-injective s.info eno dno w small (dno_small ld) q)) r.at) in
            rw r.same_info (
              ap (λ (b : Block). b o)
                (r.others (dno2bid s.info eno) (dno2bid-le s.info eno w small) apart))
      ]

  pub Rewrote-other :
      (t : Block → ℕ → Bool) (e : ℕ)
      → Local t
      → d < (s.inode dir).i_size
      → e < (s.inode dir).i_size
      → d % dentry_size ≡ 0
      → e % dentry_size ≡ 0
      → e ≢ d
      → passes s' dir t e ≡ passes s dir t e
  Rewrote-other t e local ld le md me ne =
      let (eno, at, small, used) = h.backed (e / block_size) (omega arith) in
      passes-some s' dir t e eno (rw r.same_blocks at)
      ∙ local (s'.buffer (dno2bid s'.info eno)) (s.buffer (dno2bid s.info eno)) (e % block_size)
          (bytes-kept e eno ld le md me ne at small)
      ∙ sym (passes-some s dir t e eno at)

-- Kernel calls that change nothing change no directory.
pub HasBlocks-calls : {s : Sb} (n c : ℕ) → HasBlocks s n → HasBlocks (after_calls s c) n
unfolding data_used
HasBlocks-calls n c h = record {
  eight = h.eight;
  sized = h.sized;
  backed = h.backed;
  distinct = h.distinct;
  spare = h.spare;
}

pub IsDir-calls : {s : Sb} (dir c : ℕ) → IsDir s dir → IsDir (after_calls s c) dir
unfolding passes
IsDir-calls dir c h = record {
  blocks = HasBlocks-calls dir c h.blocks;
  whole = h.whole;
  unique = h.unique;
}
