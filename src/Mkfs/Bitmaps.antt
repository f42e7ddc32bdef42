-- ===== src/Mkfs/Bitmaps.antt =====
-- The bitmaps of the disk that `main` of tool/mkfs.c leaves.
use yaf.Base.{
  ℕ, zero, suc, ◌+◌, ◌*◌, ◌/◌, ◌^◌, ◌%◌, ◌≤◌, ◌<◌, ◌≡◌, ◌≢◌, ◌∙◌, refl, arith, false, ◌==◌,
  if◌then◌else◌, ne→==, ==-refl, Bool-cases, inl, inr, ==→eq, ltb,
}
use yaf.Base.Word.{IsWord, add64}
use yaf.Layout.{
  SbInfo, bits_per_block, bid_ibp_min, bid_dbp_min, idxi2bid, idxd2bid, idx2bkoff, ino2bid,
}
use yaf.Layout.Bounds.{bid_ibp_min-eq, bid_dbp_min-eq, bid_i_min-eq}
use yaf.Layout.Regions.{IsLayout}
use yaf.Machine.{Sb, update}
use yaf.Machine.Bits.{bit_of, test_bit}
use yaf.Bitmap.{reserved_ino}
use yaf.Bitmap.Used.{inode_used, data_used}
use yaf.Mkfs.{Disk, root_ino, zero_blocks, write_superblock, write_data_bitmap, write_inode_blocks}
use yaf.Mkfs.Image.{marked, written, zero_blocks-apart}

zero_blocks-above :
    (n : ℕ) (d : Disk) (bid b : ℕ) → bid + n < 2 ^ 64 → bid + n ≤ b → zero_blocks d bid n b ≡ d b
unfolding zero_blocks
zero_blocks-above zero d bid b h le = refl
zero_blocks-above (suc n) d bid b h le =
    let next : add64 bid 1 ≡ bid + 1 = omega arith in
    rw
      (
        next,
        zero_blocks-above n (update d bid (λ o. 0)) (bid + 1) b (omega arith) (omega arith),
        ne→== b bid (omega arith),
      )
      refl

zero_blocks-inside :
    (n : ℕ) (d : Disk) (bid b : ℕ)
    → bid + n < 2 ^ 64
    → bid ≤ b
    → b < bid + n
    → zero_blocks d bid n b ≡ (λ o. 0)
unfolding zero_blocks
zero_blocks-inside zero d bid b h le lt = absurd (omega arith)
zero_blocks-inside (suc n) d bid b h le lt =
    let next : add64 bid 1 ≡ bid + 1 = omega arith in
    elim (Bool-cases (b == bid)) [
      | inl here ↦
          rw
            (
              next,
              ==→eq b bid here,
              zero_blocks-apart n (update d bid (λ o. 0)) (bid + 1) bid (omega arith) (omega arith),
              ==-refl bid,
            )
            refl
      | inr there ↦
          let ne : b ≢ bid = ground arith in
          rw next (
            zero_blocks-inside n (update d bid (λ o. 0)) (bid + 1) b (omega arith)
              (omega (arith, ne)) (omega arith))
    ]

bit_of-0 : (k : ℕ) → bit_of k 0 ≡ false
unfolding bit_of
bit_of-0 zero = refl
bit_of-0 (suc k) = bit_of-0 k

bit_of-3 : (k : ℕ) → bit_of k 3 ≡ ltb k 2
unfolding bit_of
bit_of-3 zero = refl
bit_of-3 (suc zero) = refl
bit_of-3 (suc (suc k)) = bit_of-0 k ∙ ground arith

module _ (i : SbInfo) (l : IsLayout i) (d : Disk) (uid gid : ℕ) where
  apart :
      (idxi2bid i reserved_ino ≡ bid_ibp_min i)
      × (bid_ibp_min i ≢ ino2bid i root_ino)
      × ((b : ℕ) → b < bid_dbp_min i + i.nr_dbp → b ≢ ino2bid i root_ino)
  unfolding ino2bid idxi2bid
  apart = (
    omega (arith, bid_ibp_min-eq i),
    omega (arith, bid_i_min-eq l.info, bid_ibp_min-eq i, l.fits, l.info.ibp_word),
    λ b lt. omega (arith, bid_i_min-eq l.info, bid_dbp_min-eq l.info, l.fits),
  )

  marked-first : (e : Disk) → marked e i (bid_ibp_min i) ≡ (λ o. if o == 0 then 3 else 0)
  unfolding idx2bkoff
  marked-first e =
      rw
        (
          apart.0,
          ==-refl (bid_ibp_min i),
          zero_blocks-inside i.nr_ibp e (bid_ibp_min i) (bid_ibp_min i)
              (omega (arith, bid_ibp_min-eq i, l.info.ibp_word)) (omega arith)
              (omega (arith, l.has_ibp)),
        )
        refl

  -- The first block of the inode bitmap.
  written-first : written i l d uid gid (bid_ibp_min i) ≡ (λ o. if o == 0 then 3 else 0)
  unfolding write_inode_blocks write_data_bitmap
  written-first =
      rw
        (
          ne→== (bid_ibp_min i) (ino2bid i root_ino) apart.1,
          zero_blocks-apart i.nr_dbp (marked (write_superblock d i) i) (bid_dbp_min i)
              (bid_ibp_min i) (omega (arith, bid_dbp_min-eq l.info, l.fits))
              (omega (arith, bid_dbp_min-eq l.info, bid_ibp_min-eq i, l.has_ibp)),
        )
        (marked-first (write_superblock d i))

  written-data :
      (b : ℕ)
      → bid_dbp_min i ≤ b
      → b < bid_dbp_min i + i.nr_dbp
      → written i l d uid gid b ≡ (λ o. 0)
  unfolding write_inode_blocks write_data_bitmap
  written-data b lo hi = rw (ne→== b (ino2bid i root_ino) (apart.2 b hi)) (
      zero_blocks-inside i.nr_dbp (marked (write_superblock d i) i) (bid_dbp_min i) b
        (omega (arith, bid_dbp_min-eq l.info, l.fits)) lo hi)

  module _ (s : Sb) (info : s.info ≡ i) (made : s.buffer ≡ written i l d uid gid) where
    -- In the first block of the inode bitmap RESERVED_INO and the root are marked and nothing else.
    pub inode_used-mkfs : (n : ℕ) → n < bits_per_block → inode_used s n ≡ ltb n 2
    unfolding inode_used idxi2bid test_bit
    inode_used-mkfs n lt =
        let there : add64 (bid_ibp_min i) (n / bits_per_block) ≡ bid_ibp_min i =
          omega (arith, bid_ibp_min-eq i) in
        let bit : n % bits_per_block ≡ n = omega arith in
        rw (info, made, there, written-first, bit)
          (elim (Bool-cases ((n / 8) == 0)) [
            | inl low ↦ let same : n % 8 ≡ n = ground arith in rw (low, same) (bit_of-3 n)
            | inr high ↦
                let big : ltb n 2 ≡ false = ground arith in rw (high, big) (bit_of-0 (n % 8))
          ])

    -- In the data bitmap nothing is marked.
    pub data_used-mkfs : (n : ℕ) → n < i.nr_dbp * bits_per_block → IsWord n → data_used s n ≡ false
    unfolding data_used idxd2bid test_bit
    data_used-mkfs n lt w =
        let there : add64 (bid_dbp_min i) (n / bits_per_block)
            ≡ bid_dbp_min i + n / bits_per_block =
          omega (arith, bid_dbp_min-eq l.info, l.fits) in
        rw
          (
            info,
            made,
            there,
            written-data (bid_dbp_min i + n / bits_per_block) (omega arith) (omega arith),
          )
          (bit_of-0 (n % bits_per_block % 8))
