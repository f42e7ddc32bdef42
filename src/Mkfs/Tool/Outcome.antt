-- ===== src/Mkfs/Tool/Outcome.antt =====
-- The sections that `main` of tool/mkfs.c writes one after another: what is on the device when it
-- ends, whatever calls fail.
use yaf.Base.{ℕ, ◌+◌, ◌*◌, ◌≤◌, ◌<◌, ◌≡◌, ◌≢◌, ◌∙◌, refl, arith, some, none, subst, ne→==}
use yaf.Base.Word.{IsWord}
use yaf.Layout.{SbInfo, bid_d_min}
use yaf.Layout.Bounds.{bid_d_min-eq}
use yaf.Layout.Regions.{IsLayout}
use yaf.Mkfs.{Disk}
use yaf.Mkfs.Image.{written, written-steps}
use yaf.Mkfs.Sections.{Converts}
use yaf.Mkfs.Tool.{
  Process, Host, Finish, returns, exits, aborts, checked, write_superblock, write_inode_bitmap,
  write_data_bitmap, write_inode_blocks,
}
use yaf.Mkfs.Tool.Store.{Shows}
use yaf.Mkfs.Tool.Calls.{IsHost, Failing, WritesShort, Section, complete, failed, short, Untouched}
use yaf.Mkfs.Tool.Written.{
  write_superblock-Section, write_superblock-Untouched, write_inode_bitmap-Section,
  write_data_bitmap-Section, write_data_bitmap-Untouched, write_inode_blocks-Section,
  write_inode_blocks-Untouched,
}

-- The program has returned, with a code and a state for which `P` holds.
abbrev pub Ends : (ℕ → Process → Type 0) → Finish → Type 0
Ends P (returns e t) = P e t
Ends P exits = ⊥
Ends P aborts = ⊥

-- What the code that `main` returns says: 0 for a device that shows the disk, and otherwise the errno
-- of a failed call. After a short write the code says nothing.
pub data Outcome (h : Host) (d : Disk) (e : ℕ) (t : Process) : Type 0 where
  formatted : e ≡ 0 → Shows t.image d → Outcome h d e t
  stopped : e ≢ 0 → Failing h → Outcome h d e t
  torn : WritesShort h → Outcome h d e t

-- A host that stores 32-bit words in little-endian order.
abbrev pub IsLittle : Host → Type 0
IsLittle h = (x : ℕ) → IsWord x → h.le32toh x ≡ x

module _ (h : Host) (d' : Disk) (top : ℕ) (s : Process) where
  abbrev pub Good : ℕ → Process → Type 0
  Good e t = Outcome h d' e t × Untouched top s t

  checked-Good :
      (d : Disk) (from : Process) (r : ℕ × Process) (next : Process → Finish)
      → Section h d r
      → Untouched top s from
      → Untouched top from r.1
      → (Shows r.1.image d → Untouched top s r.1 → Ends Good (next r.1))
      → Ends Good (checked h r next)
  unfolding checked
  checked-Good d from r next (complete z image) before kept go =
      rw z (go image λ a past. kept a past ∙ before a past)
  checked-Good d from r next (failed ne errno why) before kept go =
      rw (ne→== r.0 0 ne) (stopped errno why, λ a past. kept a past ∙ before a past)
  checked-Good d from r next (short ne why) before kept go =
      rw (ne→== r.0 0 ne) (torn why, λ a past. kept a past ∙ before a past)

module _ {h : Host} (is : IsHost h) (little : IsLittle h) {i : SbInfo} (l : IsLayout i) where
  pub little-Converts : Converts h.le32toh i i
  little-Converts = record {
    ibp = little i.nr_ibp l.info.ibp_word;
    dbp = little i.nr_dbp l.info.dbp_word;
    inodes = little i.nr_i l.info.i_word;
    data_blocks = little i.nr_d l.info.d_word;
  }

  -- The four sections, one after another.
  pub sections-Good :
      (d : Disk) (s : Process)
      → 0 < i.nr_i
      → Shows s.image d
      → Ends (Good h (written i l d h.geteuid h.getegid) (bid_d_min i * 4096) s) (
          checked h (write_superblock h i s) λ t. elim (write_inode_bitmap h i t) [
            | none ↦ aborts
            | some r ↦ checked h r λ u.
                checked h
                  (write_data_bitmap h i u)
                  λ v. checked h (write_inode_blocks h i v) λ w. returns 0 w
          ])
  sections-Good d s some_inodes image =
      let end = written i l d h.geteuid h.getegid in
      let top = bid_d_min i * 4096 in
      let w = l.info in
      let c = little-Converts in
      let room : (1 + i.nr_ibp + i.nr_dbp + 1) * 4096 ≤ top = omega (arith, bid_d_min-eq w) in
      let steps = written-steps i l d h.geteuid h.getegid in
      let go = checked-Good h end top s in
      go _ s (write_superblock h i s) _ (write_superblock-Section is w c d s image) (λ a past. refl)
        (write_superblock-Untouched is w c s top (omega (arith, room)))
        λ image1 kept1.
          let t = (write_superblock h i s).1 in
          let (r, made, section, kept) =
            write_inode_bitmap-Section is w c _ t top image1 (omega (arith, room))
              (omega (arith, room)) in
          rw made (
            go _ t r _ section kept1 kept λ image2 kept2.
              go _ r.1 (write_data_bitmap h i r.1) _ (write_data_bitmap-Section is w c _ r.1 image2)
                kept2 (write_data_bitmap-Untouched is w c r.1 top (omega (arith, room)))
                λ image3 kept3.
                  let v = (write_data_bitmap h i r.1).1 in
                  go _ v (write_inode_blocks h i v) _ (write_inode_blocks-Section is w c _ v image3)
                    kept3 (write_inode_blocks-Untouched is w c v top (omega (arith, room)))
                    λ image4 kept4. (
                      formatted refl
                          (subst (Shows (write_inode_blocks h i v).1.image) steps image4),
                      kept4,
                    ))
