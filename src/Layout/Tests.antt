-- ===== src/Layout/Tests.antt =====
-- Tests of the layout functions, and their theorems on the layout of a device of 64 blocks.
use yaf.Base.{◌≡◌, ◌↔◌, refl, arith}
use yaf.Layout.{SbInfo, IsInfo, bid_d_min, bid_d_max}
use yaf.Layout.Regions.{data_blocks, InRegion, region_of, regions_partition}

abbrev small : SbInfo
small = record { nr_ibp = 1; nr_dbp = 1; nr_i = 1; nr_d = 60 }

small-IsInfo : IsInfo small
small-IsInfo = omega arith

data_section : (bid_d_min small ≡ 4) × (bid_d_max small ≡ 63)
unfolding bid_d_max
data_section = (refl, refl)

regions_partition_example : InRegion small data_blocks 40 ↔ (region_of small 40 ≡ data_blocks)
regions_partition_example = regions_partition small-IsInfo data_blocks 40 (omega arith)
