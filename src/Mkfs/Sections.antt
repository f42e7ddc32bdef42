-- ===== src/Mkfs/Sections.antt =====
-- The section bounds as `mkfs` computes them: the user-space copies of include/fs.h. There the sizes are
-- read with the host's `le32toh`, a parameter here, and on a host in which it gives the sizes the
-- bounds are those of the driver.
use yaf.Base.{ℕ, ◌≡◌, refl, List, [], ◌∷◌}
use yaf.Base.Word.{add64, sub64}
use yaf.Layout.{
  SbInfo, bid_sb_min, bid_sb_max, bid_ibp_min, bid_ibp_max, bid_dbp_min, bid_dbp_max, bid_i_min,
  bid_i_max, bid_d_min, bid_d_max,
}

abbrev pub user_bid_min : SbInfo → ℕ
user_bid_min ysb = 0

abbrev pub user_bid_sb_min : SbInfo → ℕ
user_bid_sb_min ysb = user_bid_min ysb

abbrev pub user_bid_sb_max : SbInfo → ℕ
user_bid_sb_max ysb = sub64 (add64 (user_bid_sb_min ysb) 1) 1

module _ (le32toh : ℕ → ℕ) where
  pub user_bid_ibp_min : SbInfo → ℕ
  user_bid_ibp_min ysb = add64 (user_bid_sb_max ysb) 1

  pub user_bid_ibp_max : SbInfo → ℕ
  unfolding user_bid_ibp_min
  user_bid_ibp_max ysb = sub64 (add64 (user_bid_ibp_min ysb) (le32toh ysb.nr_ibp)) 1

  pub user_bid_dbp_min : SbInfo → ℕ
  unfolding user_bid_ibp_max
  user_bid_dbp_min ysb = add64 (user_bid_ibp_max ysb) 1

  pub user_bid_dbp_max : SbInfo → ℕ
  unfolding user_bid_dbp_min
  user_bid_dbp_max ysb = sub64 (add64 (user_bid_dbp_min ysb) (le32toh ysb.nr_dbp)) 1

  pub user_bid_i_min : SbInfo → ℕ
  unfolding user_bid_dbp_max
  user_bid_i_min ysb = add64 (user_bid_dbp_max ysb) 1

  pub user_bid_i_max : SbInfo → ℕ
  unfolding user_bid_i_min
  user_bid_i_max ysb = sub64 (add64 (user_bid_i_min ysb) (le32toh ysb.nr_i)) 1

  pub user_bid_d_min : SbInfo → ℕ
  unfolding user_bid_i_max
  user_bid_d_min ysb = add64 (user_bid_i_max ysb) 1

  pub user_bid_d_max : SbInfo → ℕ
  unfolding user_bid_d_min
  user_bid_d_max ysb = sub64 (add64 (user_bid_d_min ysb) (le32toh ysb.nr_d)) 1

  -- All bounds, in the order of the sections.
  abbrev pub user_bounds : SbInfo → List ℕ
  user_bounds ysb =
      user_bid_sb_min ysb
      ∷ user_bid_sb_max ysb
      ∷ user_bid_ibp_min ysb
      ∷ user_bid_ibp_max ysb
      ∷ user_bid_dbp_min ysb
      ∷ user_bid_dbp_max ysb
      ∷ user_bid_i_min ysb
      ∷ user_bid_i_max ysb
      ∷ user_bid_d_min ysb
      ∷ user_bid_d_max ysb
      ∷ []

abbrev pub bounds : SbInfo → List ℕ
bounds i =
    bid_sb_min
    ∷ bid_sb_max
    ∷ bid_ibp_min i
    ∷ bid_ibp_max i
    ∷ bid_dbp_min i
    ∷ bid_dbp_max i
    ∷ bid_i_min i
    ∷ bid_i_max i
    ∷ bid_d_min i
    ∷ bid_d_max i
    ∷ []

-- The superblock's members give these sizes.
pub record Converts (le32toh : ℕ → ℕ) (ysb i : SbInfo) : Type 0 where
  pub ibp : le32toh ysb.nr_ibp ≡ i.nr_ibp
  pub dbp : le32toh ysb.nr_dbp ≡ i.nr_dbp
  pub inodes : le32toh ysb.nr_i ≡ i.nr_i
  pub data_blocks : le32toh ysb.nr_d ≡ i.nr_d

pub user_starts :
    {le32toh : ℕ → ℕ} {ysb i : SbInfo}
    → Converts le32toh ysb i
    → (user_bid_ibp_min le32toh ysb ≡ bid_ibp_min i)
      × (user_bid_dbp_min le32toh ysb ≡ bid_dbp_min i)
      × (user_bid_i_min le32toh ysb ≡ bid_i_min i)
unfolding user_bid_ibp_min user_bid_ibp_max user_bid_dbp_min user_bid_dbp_max user_bid_i_min
    bid_ibp_min bid_ibp_max bid_dbp_min bid_dbp_max bid_i_min
user_starts c = rw (c.ibp, c.dbp) (refl, refl, refl)

-- Where `le32toh` gives the driver's sizes for the members of the superblock, the bounds of all
-- sections that `mkfs` computes are those of the driver.
pub user_bounds-bounds :
    (le32toh : ℕ → ℕ) (ysb i : SbInfo) → Converts le32toh ysb i → user_bounds le32toh ysb ≡ bounds i
unfolding user_bid_ibp_min user_bid_ibp_max user_bid_dbp_min user_bid_dbp_max user_bid_i_min
    user_bid_i_max user_bid_d_min user_bid_d_max bid_ibp_min bid_ibp_max bid_dbp_min bid_dbp_max
    bid_i_min bid_i_max bid_d_min bid_d_max
user_bounds-bounds le32toh ysb i c = rw (c.ibp, c.dbp, c.inodes, c.data_blocks) refl
