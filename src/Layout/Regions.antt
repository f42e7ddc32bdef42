-- ===== src/Layout/Regions.antt =====
-- The sections of include/fs.h partition the disk, and the conversions of include/bitmap.h and
-- include/inode.h stay inside their section.
use yaf.Base.{
  ℕ, ◌+◌, ◌*◌, ◌/◌, ◌≤◌, ◌<◌, ◌≡◌, ◌≢◌, ◌⊎◌, ◌↔◌, inl, inr, arith, ltb, if◌then◌else◌, Bool-cases,
  ltb→lt, ltb→ge,
}
use yaf.Base.Word.{IsWord}
use yaf.Layout.{
  SbInfo, IsInfo, bits_per_block, inodes_per_block, block_size, sizeof_inode, bid_sb_min,
  bid_sb_max, bid_ibp_min, bid_ibp_max, bid_dbp_min, bid_dbp_max, bid_i_min, bid_i_max, bid_d_min,
  bid_d_max, idxi2bid, idxd2bid, ino2bid, ino2boff, dno2bid,
}
use yaf.Layout.Bounds.{
  bid_ibp_min-eq, bid_ibp_max-eq, bid_dbp_min-eq, bid_dbp_max-eq, bid_i_min-eq, bid_i_max-eq,
  bid_d_min-eq, bid_d_max-eq,
}

-- The five sections of the partition.
pub data Region : Type 0 where
  super inode_bitmap data_bitmap inode_blocks data_blocks : Region

abbrev pub region_min : SbInfo → Region → ℕ
region_min i super = bid_sb_min
region_min i inode_bitmap = bid_ibp_min i
region_min i data_bitmap = bid_dbp_min i
region_min i inode_blocks = bid_i_min i
region_min i data_blocks = bid_d_min i

abbrev pub region_max : SbInfo → Region → ℕ
region_max i super = bid_sb_max
region_max i inode_bitmap = bid_ibp_max i
region_max i data_bitmap = bid_dbp_max i
region_max i inode_blocks = bid_i_max i
region_max i data_blocks = bid_d_max i

abbrev pub InRegion : SbInfo → Region → ℕ → Type 0
InRegion i r b = (region_min i r ≤ b) × (b ≤ region_max i r)

-- Number of blocks that the sections take together.
abbrev pub total_blocks : SbInfo → ℕ
total_blocks i = 1 + i.nr_ibp + i.nr_dbp + i.nr_i + i.nr_d

-- A layout whose blocks are all numbered by 32-bit numbers, with both bitmaps present.
pub record IsLayout (i : SbInfo) : Type 0 where
  pub info : IsInfo i
  pub fits : IsWord (total_blocks i)
  pub has_ibp : 0 < i.nr_ibp
  pub has_dbp : 0 < i.nr_dbp

-- The section of a block by adding up the sizes in the order of the partition's picture.
unfoldable pub region_of : SbInfo → ℕ → Region
region_of i b =
    if ltb b 1
    then super
    else if ltb b (1 + i.nr_ibp)
    then inode_bitmap
    else if ltb b (1 + i.nr_ibp + i.nr_dbp)
    then data_bitmap
    else if ltb b (1 + i.nr_ibp + i.nr_dbp + i.nr_i)
    then inode_blocks
    else data_blocks

module _ {i : SbInfo} (w : IsInfo i) where
  -- The bounds that the proofs below read.
  region_bounds :
      (bid_ibp_min i ≡ 1)
      × (bid_ibp_max i ≡ i.nr_ibp)
      × (bid_dbp_min i ≡ 1 + i.nr_ibp)
      × (bid_dbp_max i ≡ i.nr_ibp + i.nr_dbp)
      × (bid_i_min i ≡ 1 + i.nr_ibp + i.nr_dbp)
      × (bid_i_max i ≡ i.nr_ibp + i.nr_dbp + i.nr_i)
      × (bid_d_min i ≡ 1 + i.nr_ibp + i.nr_dbp + i.nr_i)
      × (bid_d_max i ≡ i.nr_ibp + i.nr_dbp + i.nr_i + i.nr_d)
  region_bounds = (
    bid_ibp_min-eq i,
    bid_ibp_max-eq w,
    bid_dbp_min-eq w,
    bid_dbp_max-eq w,
    bid_i_min-eq w,
    bid_i_max-eq w,
    bid_d_min-eq w,
    bid_d_max-eq w,
  )

  -- For section sizes that are 32-bit numbers, a block below the sum of the sizes and the
  -- superblock lies between the bounds of the section that the description `region_of` gives for
  -- it, and between those of no other section.
  pub regions_partition :
      (r : Region) (b : ℕ) → b < total_blocks i → InRegion i r b ↔ (region_of i b ≡ r)
  unfolding region_of
  regions_partition super b h = ground (arith, region_bounds)
  regions_partition inode_bitmap b h = ground (arith, region_bounds)
  regions_partition data_bitmap b h = ground (arith, region_bounds)
  regions_partition inode_blocks b h = ground (arith, region_bounds)
  regions_partition data_blocks b h = ground (arith, region_bounds)

  -- An inode number below `nr_i * INODES_PER_BLOCK` is stored in a block of the inode section, and
  -- its 64 bytes end inside that block.
  ino_in_blocks :
      (ino : ℕ)
      → ino < i.nr_i * inodes_per_block
      → InRegion i inode_blocks (ino2bid i ino) × (ino2boff ino + sizeof_inode ≤ block_size)
  unfolding ino2bid ino2boff
  ino_in_blocks ino h = omega (arith, region_bounds, w.ibp_word)

  -- Two inodes of the inode section are stored in different blocks or in disjoint byte ranges of
  -- one block.
  pub ino_disjoint :
      (a b : ℕ)
      → a < i.nr_i * inodes_per_block
      → b < i.nr_i * inodes_per_block
      → a ≢ b
      → (ino2bid i a ≢ ino2bid i b)
        ⊎ ((ino2boff a + sizeof_inode ≤ ino2boff b) ⊎ (ino2boff b + sizeof_inode ≤ ino2boff a))
  unfolding ino2bid ino2boff
  ino_disjoint a b ha hb ne = elim (Bool-cases (ltb (a / 64) (b / 64))) [
    | inl e ↦ inl (omega (arith, region_bounds, ltb→lt _ _ e))
    | inr e ↦ elim (Bool-cases (ltb (b / 64) (a / 64))) [
      | inl f ↦ inl (omega (arith, region_bounds, ltb→lt _ _ f))
      | inr f ↦ elim (Bool-cases (ltb a b)) [
        | inl g ↦ inr (inl (omega (arith, ltb→ge _ _ e, ltb→ge _ _ f, ltb→lt _ _ g)))
        | inr g ↦ inr (inr (omega (arith, ltb→ge _ _ e, ltb→ge _ _ f, ltb→ge _ _ g)))
      ]
    ]
  ]

  -- A bit number that the inode bitmap's blocks can hold lies in the inode bitmap section.
  pub ino_bit_in_bitmap :
      (idx : ℕ)
      → idx < i.nr_ibp * bits_per_block
      → IsWord idx
      → InRegion i inode_bitmap (idxi2bid i idx)
  unfolding idxi2bid
  ino_bit_in_bitmap idx lt h = omega (arith, region_bounds)

  -- A bit number that the data bitmap's blocks can hold lies in the data bitmap section.
  pub dno_bit_in_bitmap :
      (idx : ℕ)
      → idx < i.nr_dbp * bits_per_block
      → IsWord idx
      → InRegion i data_bitmap (idxd2bid i idx)
  unfolding idxd2bid
  dno_bit_in_bitmap idx lt h = omega (arith, region_bounds)

  -- A data block number below `nr_d` is a block of the data section, and different numbers are
  -- different blocks.
  dno_in_blocks :
      (a b : ℕ)
      → a < i.nr_d
      → b < i.nr_d
      → InRegion i data_blocks (dno2bid i a) × ((dno2bid i a ≡ dno2bid i b) ↔ (a ≡ b))
  unfolding dno2bid
  dno_in_blocks a b ha hb = ground (arith, region_bounds)
