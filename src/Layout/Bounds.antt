-- ===== src/Layout/Bounds.antt =====
-- Closed forms of the section bounds of include/fs.h for `uint32_t` section sizes.
use yaf.Base.{◌+◌, ◌≡◌, arith}
use yaf.Layout.{
  SbInfo, IsInfo, bid_ibp_min, bid_ibp_max, bid_dbp_min, bid_dbp_max, bid_i_min, bid_i_max,
  bid_d_min, bid_d_max,
}

pub bid_ibp_min-eq : (i : SbInfo) → bid_ibp_min i ≡ 1
unfolding bid_ibp_min
bid_ibp_min-eq i = omega arith

module _ {i : SbInfo} (w : IsInfo i) where
  pub bid_ibp_max-eq : bid_ibp_max i ≡ i.nr_ibp
  unfolding bid_ibp_max
  bid_ibp_max-eq = omega arith

  pub bid_dbp_min-eq : bid_dbp_min i ≡ 1 + i.nr_ibp
  unfolding bid_dbp_min
  bid_dbp_min-eq = omega arith

  pub bid_dbp_max-eq : bid_dbp_max i ≡ i.nr_ibp + i.nr_dbp
  unfolding bid_dbp_max
  bid_dbp_max-eq = omega arith

  pub bid_i_min-eq : bid_i_min i ≡ 1 + i.nr_ibp + i.nr_dbp
  unfolding bid_i_min
  bid_i_min-eq = omega arith

  pub bid_i_max-eq : bid_i_max i ≡ i.nr_ibp + i.nr_dbp + i.nr_i
  unfolding bid_i_max
  bid_i_max-eq = omega arith

  pub bid_d_min-eq : bid_d_min i ≡ 1 + i.nr_ibp + i.nr_dbp + i.nr_i
  unfolding bid_d_min
  bid_d_min-eq = omega arith

  pub bid_d_max-eq : bid_d_max i ≡ i.nr_ibp + i.nr_dbp + i.nr_i + i.nr_d
  unfolding bid_d_max
  bid_d_max-eq = omega arith
