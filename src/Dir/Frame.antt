-- ===== src/Dir/Frame.antt =====
-- What the creation of a name in a directory, driver/inode.c, leaves of the rest of the file system.
use yaf.Base.{
  ℕ, ◌*◌, ◌<◌, ◌≡◌, ◌≢◌, ◌⊎◌, ◌∙◌, inl, inr, refl, true, false, true-false, Bool-cases, sym,
}
use yaf.Base.Word.{IsWord}
use yaf.Layout.{bits_per_block}
use yaf.Machine.{Sb}
use yaf.Bitmap.Used.{data_used, inode_used}
use yaf.Dentry.Scan.{after_calls}
use yaf.Dir.Release.{Holds}

-- The marks of blocks and inode numbers are kept, the inodes other than the directory and `ino` are
-- as before, and a block that the directory has now it had before, or the block was free.
pub record Frame (s : Sb) (dir ino : ℕ) (u : Sb) : Type 0 where
  pub same_info : u.info ≡ s.info
  pub data_marks : (q : ℕ) → q < s.info.nr_d → data_used s q ≡ true → data_used u q ≡ true
  pub number_marks :
      (n : ℕ)
      → n < s.info.nr_ibp * bits_per_block
      → IsWord n
      → inode_used s n ≡ true
      → inode_used u n ≡ true
  pub other_inodes : (n : ℕ) → n ≢ dir → n ≢ ino → u.inode n ≡ s.inode n
  pub held : (q : ℕ) → q < s.info.nr_d → Holds u dir 0 q → Holds s dir 0 q ⊎ (data_used s q ≡ false)

pub Frame-calls : {s : Sb} (dir ino c : ℕ) → Frame s dir ino (after_calls s c)
unfolding data_used inode_used
Frame-calls dir ino c = record {
  same_info = refl;
  data_marks = λ q lq used. used;
  number_marks = λ n bit word used. used;
  other_inodes = λ n nd ni. refl;
  held = λ q lq h. inl h;
}

-- The frames of two steps.
pub Frame-trans :
    {s t u : Sb} {dir ino : ℕ} → Frame s dir dir t → Frame t dir ino u → Frame s dir ino u
Frame-trans {s} {t} f g = record {
  same_info = g.same_info ∙ f.same_info;
  data_marks = λ q lq used. g.data_marks q (rw f.same_info lq) (f.data_marks q lq used);
  number_marks = λ n bit word used.
      g.number_marks n (rw f.same_info bit) word (f.number_marks n bit word used);
  other_inodes = λ n nd ni. g.other_inodes n nd ni ∙ f.other_inodes n nd nd;
  held = λ q lq now. elim (g.held q (rw f.same_info lq) now) [
    | inl before ↦ f.held q lq before
    | inr free ↦ elim (Bool-cases (data_used s q)) [
      | inl used ↦ absurd (true-false (sym (f.data_marks q lq used) ∙ free))
      | inr clear ↦ inr clear
    ]
  ];
}
