-- ===== src/Dir/Append/Held.antt =====
-- What the store behind a directory's last entry leaves of the rest of the file system.
use yaf.Base.{ℕ, ◌≡◌, ◌∙◌, sym, inl, inr, arith}
use yaf.Machine.{Sb, Kernel}
use yaf.Dir.Ready.{Ready}
use yaf.Dir.View.{IsDir}
use yaf.Dir.Frame.{Frame}
use yaf.Dir.Append.{
  Appended, last_of, last_or_old, at_last, at_old, same_info, data_kept, inode_kept,
}

module _ {k : Kernel} {s t u : Sb} {dir dno : ℕ} (ready : Ready k s dir) (h : IsDir s dir)
    (a : Appended s dir dno t u) where
  pub Appended-Frame : Frame s dir dir u
  Appended-Frame = record {
    same_info = same_info ready h a;
    data_marks = λ q lq used. data_kept ready h a q lq (a.extended.marks q lq used);
    number_marks = λ n bit word used. inode_kept ready h a n bit word ∙ used;
    other_inodes = λ n nd ni. a.others n nd ∙ a.extended.others n nd;
    held = λ q lq (i, lo, li, now). elim (last_or_old ready h a i li) [
      | inl new ↦
          let same : q ≡ dno = cc (now, new, at_last ready h a) in
          elim a.extended.origin [
            | inl free ↦ inr (rw same free)
            | inr (inside, before) ↦ inl (last_of s dir, omega arith, inside, rw same before)
          ]
      | inr old ↦ inl (i, lo, old, sym (at_old ready h a i (inl old)) ∙ now)
    ];
  }
