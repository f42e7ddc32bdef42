-- ===== src/Dir/Same.antt =====
-- Steps that leave a directory as it is.
use yaf.Base.{ℕ, ◌*◌, ◌/◌, ◌%◌, ◌≤◌, ◌<◌, ◌≡◌, ◌∙◌, sym, ap, Bool, true, arith, get_elem?, some}
use yaf.Layout.{SbInfo, IsInfo, block_size, dno2bid, bid_d_min}
use yaf.Machine.{Block, Sb}
use yaf.Bitmap.Used.{data_used}
use yaf.Dentry.{has_name}
use yaf.Dentry.Scan.{passes, passes-some}
use yaf.Dir.Apart.{dno2bid-le}
use yaf.Dir.View.{binds, IsDir, HasBlocks-kept}
use yaf.Dir.Refine.{Dict, Refines}

-- The size, the blocks and the bytes of a directory are as before, and its blocks are still marked.
pub record SameDir (s : Sb) (dir : ℕ) (u : Sb) : Type 0 where
  pub info : u.info ≡ s.info
  pub blocks : (u.inode dir).i_block ≡ (s.inode dir).i_block
  pub size : (u.inode dir).i_size ≡ (s.inode dir).i_size
  pub bytes : (b : ℕ) → bid_d_min s.info ≤ b → u.buffer b ≡ s.buffer b
  pub marks :
      (i dno : ℕ)
      → i * block_size < (s.inode dir).i_size
      → get_elem? (s.inode dir).i_block i ≡ some dno
      → dno < s.info.nr_d
      → data_used s dno ≡ true
      → data_used u dno ≡ true

module _ {s u : Sb} {dir : ℕ} (w : IsInfo s.info) (h : IsDir s dir) (same : SameDir s dir u) where
  passes-same :
      (test : Block → ℕ → Bool) (e : ℕ)
      → e < (s.inode dir).i_size
      → passes u dir test e ≡ passes s dir test e
  passes-same test e lt =
      let (dno, at, small, used) = h.blocks.backed (e / block_size) (omega arith) in
      passes-some u dir test e dno (ap (λ bs. get_elem? bs (e / block_size)) same.blocks ∙ at)
      ∙ ap (λ (i : SbInfo). test (u.buffer (dno2bid i dno)) (e % block_size)) same.info
      ∙ ap (λ (b : Block). test b (e % block_size))
          (same.bytes (dno2bid s.info dno) (dno2bid-le s.info dno w small))
      ∙ sym (passes-some s dir test e dno at)

  pub SameDir-IsDir : IsDir u dir
  SameDir-IsDir = record {
    blocks = HasBlocks-kept dir same.info same.blocks same.size same.marks h.blocks;
    whole = rw same.size h.whole;
    unique = λ name d e n ld le md me p q.
        let d_in : d < (s.inode dir).i_size = omega (arith, same.size) in
        let e_in : e < (s.inode dir).i_size = omega (arith, same.size) in
        h.unique name d e n d_in e_in md me (sym (passes-same (has_name name) d d_in) ∙ p)
          (sym (passes-same (has_name name) e e_in) ∙ q);
  }

  pub SameDir-Refines : {m : Dict} → Refines m s dir → Refines m u dir
  SameDir-Refines r name n ino = (
    λ (e, le, me, p).
        let e_in : e < (s.inode dir).i_size = omega (arith, same.size) in
        (r name n ino).0 (e, e_in, me, sym (passes-same (binds name ino) e e_in) ∙ p),
    λ q.
        let (e, le, me, p) = (r name n ino).1 q in
        (e, omega (arith, same.size), me, passes-same (binds name ino) e le ∙ p),
  )
