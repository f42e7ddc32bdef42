-- ===== src/Mkfs/Tool/Written.antt =====
-- Each section that tool/mkfs.c writes, as blocks of a disk, with the errors of its calls, and the
-- bytes that it does not touch.
use yaf.Base.{ℕ, ◌+◌, ◌*◌, ◌≤◌, ◌≡◌, ◌∙◌, refl, arith, some, ◌==◌, subst, inl, inr, Bool-cases}
use yaf.Base.Word.{add64, mul64}
use yaf.Layout.{SbInfo, IsInfo, bid_dbp_min, idxi2bid, idx2bkoff, ino2bid, ino2boff}
use yaf.Layout.Bounds.{bid_ibp_min-eq, bid_dbp_min-eq, bid_i_min-eq}
use yaf.Machine.{update}
use yaf.Machine.Bytes.{write_words}
use yaf.Mkfs.{Disk, root_ino, superblock, zero_blocks, root_words}
use yaf.Mkfs.Image.{marked}
use yaf.Mkfs.Sections.{user_bid_ibp_min, user_bid_dbp_min, user_bid_i_min, Converts, user_starts}
use yaf.Mkfs.Tool.{
  Process, Host, write_at, write_superblock, zero_section, write_inode_bitmap, write_data_bitmap,
  write_inode_blocks,
}
use yaf.Mkfs.Tool.Store.{Shows, Replaces-byte, Replaces-words}
use yaf.Mkfs.Tool.Calls.{IsHost, Section, Untouched, write_at-Section, write_at-Untouched}
use yaf.Mkfs.Tool.Steps.{
  not_complete, shows, block-Section, zero_section-Section, zero_section-Untouched,
  mark_first-write_at,
}

module _ {h : Host} (is : IsHost h) {i : SbInfo} (w : IsInfo i) (c : Converts h.le32toh i i) where
  starts :
      (user_bid_ibp_min h.le32toh i ≡ 1)
      × (user_bid_dbp_min h.le32toh i ≡ 1 + i.nr_ibp)
      × (user_bid_i_min h.le32toh i ≡ 1 + i.nr_ibp + i.nr_dbp)
  starts = (
    (user_starts c).0 ∙ bid_ibp_min-eq i,
    (user_starts c).1 ∙ bid_dbp_min-eq w,
    (user_starts c).2 ∙ bid_i_min-eq w,
  )

  pub write_superblock-Section :
      (d : Disk) (s : Process)
      → Shows s.image d
      → Section h (update d 0 (superblock i)) (write_superblock h i s)
  unfolding write_superblock
  write_superblock-Section d s image = block-Section is d 0 (superblock i) s (omega arith) image

  pub write_superblock-Untouched :
      (s : Process) (top : ℕ) → 4096 ≤ top → Untouched top s (write_superblock h i s).1
  unfolding write_superblock
  write_superblock-Untouched s top fits =
      write_at-Untouched is 0 (superblock i) 4096 top s (omega arith) (omega arith)

  -- The inode bitmap, zeroed and marked.
  pub write_inode_bitmap-Section :
      (d : Disk) (s : Process) (top : ℕ)
      → Shows s.image d
      → (1 + i.nr_ibp) * 4096 ≤ top
      → 4097 ≤ top
      → (r : ℕ × Process) × (write_inode_bitmap h i s ≡ some r)
        × Section h (marked d i) r
        × Untouched top s r.1
  unfolding write_inode_bitmap idxi2bid idx2bkoff
  write_inode_bitmap-Section d s top image fits room =
      let z = zero_section h 1 0 i.nr_ibp s in
      let e = zero_blocks d 1 i.nr_ibp in
      let zeroed : Section h e z =
        zero_section-Section is i.nr_ibp 1 0 d s (omega (arith, w.ibp_word)) image in
      let kept : Untouched top s z.1 =
        zero_section-Untouched is i.nr_ibp 1 0 top s (omega (arith, w.ibp_word)) (omega arith) in
      rw (starts.0, bid_ibp_min-eq i, c.ibp)
        (elim (Bool-cases (z.0 == 0)) [
          | inl go ↦ rw go (
            write_at h 4096 (λ o. 3) 1 z.1,
            mark_first-write_at is i 4096 z.1 (rw starts.0 refl),
            write_at-Section is e 1 0 1 (λ o. 3) _ z.1 (omega arith) (shows go zeroed)
                (Replaces-byte (e 1) 0 3),
            λ a past.
                write_at-Untouched is 4096 (λ o. 3) 1 top z.1 (omega arith) room a past
                ∙ kept a past,
          )
          | inr stop ↦ rw stop (z, refl, not_complete e _ z stop zeroed, kept)
        ])

  pub write_data_bitmap-Section :
      (d : Disk) (s : Process)
      → Shows s.image d
      → Section h (zero_blocks d (bid_dbp_min i) i.nr_dbp) (write_data_bitmap h i s)
  unfolding write_data_bitmap
  write_data_bitmap-Section d s image =
      let start : 1 + i.nr_ibp + 0 ≡ 1 + i.nr_ibp = omega arith in
      rw (starts.1, bid_dbp_min-eq w, c.dbp)
        (subst
          (λ x. Section h (zero_blocks d x i.nr_dbp) (zero_section h (1 + i.nr_ibp) 0 i.nr_dbp s))
          start
          (zero_section-Section is i.nr_dbp (1 + i.nr_ibp) 0 d s
            (omega (arith, w.ibp_word, w.dbp_word)) image))

  pub write_data_bitmap-Untouched :
      (s : Process) (top : ℕ)
      → (1 + i.nr_ibp + i.nr_dbp) * 4096 ≤ top
      → Untouched top s (write_data_bitmap h i s).1
  unfolding write_data_bitmap
  write_data_bitmap-Untouched s top fits =
      rw (starts.1, c.dbp)
        (zero_section-Untouched is i.nr_dbp (1 + i.nr_ibp) 0 top s
          (omega (arith, w.ibp_word, w.dbp_word)) (omega arith))

  pub write_inode_blocks-Section :
      (d : Disk) (s : Process)
      → Shows s.image d
      → Section h
          (update d (ino2bid i root_ino) (
            write_words
              (d (ino2bid i root_ino))
              (ino2boff root_ino)
              (root_words h.geteuid h.getegid)))
          (write_inode_blocks h i s)
  unfolding write_inode_blocks ino2bid ino2boff root_words
  write_inode_blocks-Section d s image =
      let off : add64 (mul64 (add64 (1 + i.nr_ibp + i.nr_dbp) 0) 4096) 64
          ≡ (1 + i.nr_ibp + i.nr_dbp) * 4096 + 64 =
        omega (arith, w.ibp_word, w.dbp_word) in
      let bid : add64 (1 + i.nr_ibp + i.nr_dbp) 0 ≡ 1 + i.nr_ibp + i.nr_dbp =
        omega (arith, w.ibp_word, w.dbp_word) in
      rw (starts.2, bid_i_min-eq w, off, bid)
        (write_at-Section is d (1 + i.nr_ibp + i.nr_dbp) 64 64 _ _ s (omega arith) image
          (Replaces-words (d (1 + i.nr_ibp + i.nr_dbp)) 64 (root_words h.geteuid h.getegid)))

  pub write_inode_blocks-Untouched :
      (s : Process) (top : ℕ)
      → (1 + i.nr_ibp + i.nr_dbp) * 4096 + 128 ≤ top
      → Untouched top s (write_inode_blocks h i s).1
  unfolding write_inode_blocks ino2boff
  write_inode_blocks-Untouched s top fits =
      write_at-Untouched is _ _ 64 top s (omega arith)
        (omega (arith, starts.2, w.ibp_word, w.dbp_word))
