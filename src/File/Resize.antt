-- ===== src/File/Resize.antt =====
-- `yaf_write_end` of driver/file.c: the size that `generic_write_end` has set, and the times.
use yaf.Base.{
  ℕ, ◌*◌, ◌≤◌, ◌≡◌, ◌≢◌, ◌∙◌, sym, ap, inl, refl, arith, Bool-cases, inr, length, ltb, ==-refl,
  subst,
}
use yaf.Layout.{block_size, idxd2bid, idxi2bid}
use yaf.Machine.{Inode, Sb, Kernel, Cmd, done, Returns, update}
use yaf.Machine.Rules.{update_self, update_ne}
use yaf.Bitmap.Used.{data_used, data_used-kept, inode_used-kept}
use yaf.File.{count_used, write_end}
use yaf.File.Blocks.{NoHoles}
use yaf.File.Own.{IsOwn}
use yaf.File.Extend.{Extension}

-- Another size of an inode.
abbrev pub resized : ℕ → ℕ → Sb → Sb
resized ino size s = record s {
  inode = update s.inode ino (record (s.inode ino) { i_size = size });
}

-- Only the inode of the file is another, with the same array and a size within its blocks.
record Touched (s : Sb) (ino : ℕ) (u : Sb) : Type 0 where
  info : u.info ≡ s.info
  buffer : u.buffer ≡ s.buffer
  others : (n : ℕ) → n ≢ ino → u.inode n ≡ s.inode n
  array : (u.inode ino).i_block ≡ (s.inode ino).i_block
  fits : (u.inode ino).i_size ≤ count_used (s.inode ino).i_block * block_size

Touched-Extension : {s u : Sb} {ino : ℕ} → IsOwn s ino → Touched s ino u → Extension s ino u
Touched-Extension {s} {u} {ino} o c = record {
  same_info = c.info;
  other_inodes = c.others;
  data_marks = λ q lq used. mark q ∙ used;
  number_marks = λ n bit wn.
      inode_used-kept s u n c.info (ap (λ (b : ℕ → ℕ → ℕ). b (idxi2bid s.info n)) c.buffer);
  bytes = λ b le. ap (λ (f : ℕ → ℕ → ℕ). f b) c.buffer;
  own = record {
    file = record {
      eight = ap length c.array ∙ o.file.eight;
      no_holes = subst NoHoles (sym c.array) o.file.no_holes;
    };
    sized = omega (arith, c.fits, ap count_used c.array);
    backed = λ q now.
        let (small, used) = o.backed q (rw c.array at now) in (rw c.info small, mark q ∙ used);
    distinct = rw c.array o.distinct;
  };
  kept = λ q now. inl (rw c.array at now);
}
  where
    mark : (q : ℕ) → data_used u q ≡ data_used s q
    mark q = data_used-kept s u q c.info (ap (λ (b : ℕ → ℕ → ℕ). b (idxd2bid s.info q)) c.buffer)

pub write_end-Extension :
    (k : Kernel) (s : Sb) (ino len copied size : ℕ) (end : Cmd ℕ)
    → IsOwn s ino
    → size ≤ count_used (s.inode ino).i_block * block_size
    → end s ≡ done copied (resized ino size s)
    → Returns (λ r u. (r ≡ copied) × Extension s ino u) (write_end k ino len end s)
unfolding write_end
write_end-Extension k s ino len copied size end o fits runs = elim (Bool-cases (ltb copied len)) [
  | inl part ↦
      rw (runs, part)
        (
          refl,
          Touched-Extension o (record {
            info = refl;
            buffer = refl;
            others = λ n ne. update_ne s.inode ino n _ ne;
            array = ap (λ (i : Inode). i.i_block) (update_self s.inode ino _);
            fits = rw (==-refl ino) fits;
          }),
        )
  | inr whole ↦
      rw (runs, whole)
        (
          refl,
          Touched-Extension o (record {
            info = refl;
            buffer = refl;
            others = λ n ne.
                update_ne (resized ino size s).inode ino n _ ne ∙ update_ne s.inode ino n _ ne;
            array =
                ap (λ (i : Inode). i.i_block) (update_self (resized ino size s).inode ino _)
                ∙ ap (λ (i : Inode). i.i_block) (update_self s.inode ino _);
            fits = rw (==-refl ino) fits;
          }),
        )
]
