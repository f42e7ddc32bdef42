-- ===== src/Dir/Empty.antt =====
-- A directory with no entries.
use yaf.Base.{ℕ, zero, suc, ◌<◌, ◌≡◌, ◌≢◌, ◌∙◌, ap, refl, arith, some, none, get_elem?, replicate}
use yaf.Machine.{Sb}
use yaf.Bitmap.{reserved_dno}
use yaf.Inode.{yaf_iblocks}
use yaf.Dir.View.{IsDir}
use yaf.Dir.Refine.{Dict, Refines}

abbrev pub nothing : Dict
nothing = λ name. none

pub get_elem?-replicate :
    (n i : ℕ) → i < n → get_elem? {A = ℕ} (replicate n reserved_dno) i ≡ some reserved_dno
get_elem?-replicate zero i h = absurd (omega arith)
get_elem?-replicate (suc n) zero h = refl
get_elem?-replicate (suc n) (suc i) h = get_elem?-replicate n i (omega arith)

pub none-some : (x : ℕ) → none ≢ some x
none-some x e = ground arith

module _ (s : Sb) (dir : ℕ) (size : (s.inode dir).i_size ≡ 0) where
  pub empty-IsDir : (s.inode dir).i_block ≡ replicate yaf_iblocks reserved_dno → IsDir s dir
  empty-IsDir blocks = record {
    blocks = record {
      eight = rw blocks refl;
      sized = omega (arith, size);
      backed = λ i lt. absurd (omega (arith, size));
      distinct = λ i j dno li lj at1 at2. absurd (omega (arith, size));
      spare = λ i le lt. ap (λ bs. get_elem? bs i) blocks ∙ get_elem?-replicate yaf_iblocks i lt;
    };
    whole = rw size refl;
    unique = λ name d e n ld le md me pd pe. absurd (omega (arith, size));
  }

  pub empty-Refines : Refines nothing s dir
  empty-Refines name n ino =
      (λ (d, lt, md, rest). absurd (omega (arith, size)), λ e. absurd (none-some ino e))
