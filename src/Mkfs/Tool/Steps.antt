-- ===== src/Mkfs/Tool/Steps.antt =====
-- The loop that zeroes a section and the byte of the inode bitmap, tool/mkfs.c, as blocks of a disk,
-- with the errors of their calls.
use yaf.Base.{
  ℕ, zero, suc, ◌+◌, ◌*◌, ◌≤◌, ◌<◌, ◌^◌, ◌≡◌, ◌∙◌, refl, arith, true, false, some, ◌==◌, inl, inr,
  Bool-cases, ==→eq,
}
use yaf.Base.Word.{add64, mul64}
use yaf.Layout.{SbInfo, idx2bkoff}
use yaf.Machine.{update}
use yaf.Mkfs.{Disk, zero_blocks, first_byte}
use yaf.Mkfs.Sections.{user_bid_ibp_min}
use yaf.Mkfs.Tool.{Process, Host, lseek, write_at, zero_section, mark_first}
use yaf.Mkfs.Tool.Store.{Shows, Replaces-block}
use yaf.Mkfs.Tool.Calls.{
  IsHost, Section, complete, failed, short, Untouched, write_at-Section, write_at-Untouched,
}

-- A section that has not been completed is not completed with respect to another disk either.
pub not_complete :
    {h : Host} (d e : Disk) (r : ℕ × Process) → (r.0 == 0) ≡ false → Section h d r → Section h e r
not_complete d e r stop (complete z shows) = absurd (ground arith)
not_complete d e r stop (failed ne errno why) = failed ne errno why
not_complete d e r stop (short ne why) = short ne why

pub shows :
    {h : Host} {d : Disk} {r : ℕ × Process} → (r.0 == 0) ≡ true → Section h d r → Shows r.1.image d
shows {r = r} z (complete zero_ image) = image
shows {r = r} z (failed ne errno why) = absurd (ne (==→eq r.0 0 z))
shows {r = r} z (short ne why) = absurd (ne (==→eq r.0 0 z))

module _ {h : Host} (is : IsHost h) where
  pub block-Section :
      (d : Disk) (bid : ℕ) (bytes : ℕ → ℕ) (s : Process)
      → bid < 2 ^ 40
      → Shows s.image d
      → Section h (update d bid bytes) (write_at h (mul64 bid 4096) bytes 4096 s)
  block-Section d bid bytes s small image =
      let at : mul64 bid 4096 ≡ bid * 4096 + 0 = omega arith in
      rw at (
        write_at-Section is d bid 0 4096 bytes bytes s (omega arith) image
          (Replaces-block (d bid) bytes))

  pub zero_section-Section :
      (left bid i : ℕ) (d : Disk) (s : Process)
      → bid + i + left < 2 ^ 40
      → Shows s.image d
      → Section h (zero_blocks d (bid + i) left) (zero_section h bid i left s)
  unfolding zero_section zero_blocks
  zero_section-Section zero bid i d s small image = complete refl image
  zero_section-Section (suc left) bid i d s small image =
      let here : add64 bid i ≡ bid + i = omega arith in
      let next : add64 (bid + i) 1 ≡ bid + (i + 1) = omega arith in
      let now = write_at h (mul64 (bid + i) 4096) (λ o. 0) 4096 s in
      let first = block-Section d (bid + i) (λ o. 0) s (omega arith) image in
      rw (here, next)
        (elim (Bool-cases (now.0 == 0)) [
          | inl z ↦ rw z (
              zero_section-Section left bid (i + 1) (update d (bid + i) (λ o. 0)) now.1
                (omega arith) (shows z first))
          | inr stop ↦ rw stop (not_complete (update d (bid + i) (λ o. 0)) _ now stop first)
        ])

  pub zero_section-Untouched :
      (left bid i top : ℕ) (s : Process)
      → bid + i + left < 2 ^ 40
      → (bid + i + left) * 4096 ≤ top
      → Untouched top s (zero_section h bid i left s).1
  unfolding zero_section
  zero_section-Untouched zero bid i top s small fits a past = refl
  zero_section-Untouched (suc left) bid i top s small fits a past =
      let at : mul64 (add64 bid i) 4096 ≡ (bid + i) * 4096 = omega arith in
      let now = write_at h ((bid + i) * 4096) (λ o. 0) 4096 s in
      let first =
        write_at-Untouched is ((bid + i) * 4096) (λ o. 0) 4096 top s (omega arith) (omega arith) a
          past in
      rw at (elim (Bool-cases (now.0 == 0)) [
        | inl z ↦ rw z (
            zero_section-Untouched left bid (i + 1) top now.1 (omega arith) (omega arith) a past
            ∙ first)
        | inr stop ↦ rw stop first
      ])

  -- The byte of the inode bitmap is written like a block.
  pub mark_first-write_at :
      (i : SbInfo) (off : ℕ) (s : Process)
      → add64 (mul64 (add64 (user_bid_ibp_min h.le32toh i) 0) 4096) 0 ≡ off
      → mark_first h i s ≡ some (write_at h off (λ o. 3) 1 s)
  unfolding mark_first write_at first_byte idx2bkoff
  mark_first-write_at i off s e =
      rw e (elim (Bool-cases (lseek h off s).0) [
        | inl found ↦ rw found refl
        | inr lost ↦ rw lost refl
      ])
