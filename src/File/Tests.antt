-- ===== src/File/Tests.antt =====
-- Tests of the file functions, and their theorems at a small file system.
use yaf.Base.{◌⊎◌, ◌*◌, ℕ, zero, suc, false, ◌-◌, ◌^◌, ◌/◌, ◌≡◌, ◌<◌, refl, true, arith, [], ◌∷◌}
use yaf.Layout.{block_size, idxd2bid, bid_dbp_min}
use yaf.Machine.{ok, err, done, Returns}
use yaf.Machine.Example.{plain, plain-IsBitops, small-IsLayout, mounted}
use yaf.Bitmap.{reserved_dno}
use yaf.Inode.{yaf_iblocks, enospc}
use yaf.File.{count_used, get_block, write_begin}
use yaf.File.Extents.{Spares, MapsTo, get_block-MapsTo}
use yaf.File.Write.{write_begin-in_file}
use yaf.File.Own.{IsOwn-empty}
use yaf.Bitmap.Used.{data_used}
use yaf.Machine.Bits.{test_bit, bit_of}

two_used : count_used (7 ∷ 9 ∷ reserved_dno ∷ reserved_dno ∷ []) ≡ 2
unfolding count_used
two_used = refl

accepted : write_begin plain 32000 768 (λ s. done (ok tt) s) mounted ≡ done (ok tt) mounted
unfolding write_begin
accepted = refl

write_begin-in_file_example :
    ((write_begin plain 32000 768 (λ s. done (ok tt) s) mounted ≡ done (ok tt) mounted)
      × (32767 / block_size < yaf_iblocks))
    ⊎ ((write_begin plain 32000 768 (λ s. done (ok tt) s) mounted ≡ done (err enospc) mounted)
        × (yaf_iblocks * block_size < 32768))
write_begin-in_file_example =
    write_begin-in_file plain 32000 768 32767 (λ s. done (ok tt) s) mounted (omega arith)
      (omega arith) (omega arith)

-- The sum wraps to a negative `loff_t`, and the check lets it through.
overflow : write_begin plain (2 ^ 63 - 1) 1 (λ s. done (ok tt) s) mounted ≡ done (ok tt) mounted
unfolding write_begin
overflow = refl

free_below_3 : (i : ℕ) → i < 3 → data_used mounted i ≡ false
unfolding data_used idxd2bid test_bit bit_of bid_dbp_min
free_below_3 zero lt = refl
free_below_3 (suc zero) lt = refl
free_below_3 (suc (suc zero)) lt = refl
free_below_3 (suc (suc (suc i))) lt = absurd (omega arith)

-- The empty file is three blocks short of its third.
mounted-Spares : Spares plain mounted (3 - count_used (mounted.inode 1).i_block)
mounted-Spares = record {
  dno = λ i. i;
  rising = λ i j lt less. lt;
  bit = λ i lt. omega arith;
  in_range = λ i lt. omega arith;
  free = λ i lt. free_below_3 i (omega arith);
  stays = λ c. refl;
}

get_block-MapsTo_example : Returns (MapsTo 1 2 mounted) (get_block plain 1 2 true mounted)
get_block-MapsTo_example =
    get_block-MapsTo plain-IsBitops (λ c b. refl) 1 2 (omega arith) mounted small-IsLayout
      (IsOwn-empty mounted 1 refl refl) mounted-Spares
