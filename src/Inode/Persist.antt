-- ===== src/Inode/Persist.antt =====
-- `yaf_write_inode` and `yaf_iget` on the whole file system.
use yaf.Base.{
  ℕ, ◌+◌, ◌*◌, ◌<◌, ◌≡◌, ◌≢◌, sym, refl, ◌⊎◌, inl, inr, true, false, Bool-cases, leb, arith, ◌==◌,
  ==-refl, ==→eq,
}
use yaf.Base.Word.{mul64}
use yaf.Layout.{IsInfo, inodes_per_block, ino2bid, ino2boff}
use yaf.Layout.Regions.{ino_disjoint}
use yaf.Machine.{Inode, Sb, Kernel, Result, ok, err, Returns, done, update, ◌>>=◌}
use yaf.Inode.{load_inode, store_inode, yaf_iget, write_inode, einval}
use yaf.Inode.Codec.{IsStorable, persisted, load-store, store_inode-Outside, load_inode-cong}

-- What a load of inode `ino` into the in-memory inode `j` would give.
unfoldable pub on_disk : Sb → ℕ → Inode → Inode
on_disk s ino j = load_inode (s.buffer (ino2bid s.info ino)) (ino2boff ino) j

-- The state after a successful `yaf_write_inode`.
abbrev written : ℕ → Sb → Sb
written ino s = record s {
  buffer =
      update s.buffer (ino2bid s.info ino)
        (store_inode (s.inode ino) (s.buffer (ino2bid s.info ino)) (ino2boff ino));
  buffer_dirty = update s.buffer_dirty (ino2bid s.info ino) true;
  calls = s.calls + 1;
}

-- The two outcomes of `yaf_iget`.
abbrev pub Loaded : Sb → ℕ → Result ℕ → Sb → Type 0
Loaded s ino r s' =
    (r ≡ ok ino)
    × (ino < s.info.nr_i * inodes_per_block)
    × (s'.inode ino ≡ on_disk s ino (s.inode ino))

abbrev pub Refused : Sb → ℕ → Result ℕ → Sb → Type 0
Refused s ino r s' =
    (e : ℕ) × (r ≡ err e)
    × (s'.inode ≡ s.inode)
    × ((e ≡ einval) ⊎ (ino < s.info.nr_i * inodes_per_block))

module _ (k : Kernel) (s : Sb) (ino : ℕ) (w : IsInfo s.info) where
  pub write_inode-done :
      k.sb_bread s.calls (ino2bid s.info ino) ≡ true
      → write_inode k ino s ≡ done (ok tt) (written ino s)
  unfolding write_inode
  write_inode-done read = rw read

  -- The state after a successful `yaf_iget`.
  pub yaf_iget-done :
      ino < s.info.nr_i * inodes_per_block
      → k.iget_locked s.calls ino ≡ true
      → k.sb_bread (s.calls + 1) (ino2bid s.info ino) ≡ true
      → yaf_iget k ino s
        ≡ done (ok ino) (record s {
          inode = update s.inode ino (on_disk s ino (s.inode ino));
          calls = s.calls + 1 + 1;
        })
  unfolding yaf_iget on_disk
  yaf_iget-done h mem read =
      let bound : leb (mul64 s.info.nr_i inodes_per_block) ino ≡ false = ground (arith, w.i_word) in
      rw (bound, mem, read)

module _ (k : Kernel) (s : Sb) (ino : ℕ) (w : IsInfo s.info)
    (h : ino < s.info.nr_i * inodes_per_block)
    (read : (c : ℕ) → k.sb_bread c (ino2bid s.info ino) ≡ true)
    (st : IsStorable (s.inode ino)) where
  -- If the number is in range, its block can be read at every call and there is memory, then
  -- `yaf_write_inode` followed by `yaf_iget` succeeds, and every member that is stored on disk has
  -- the value that a storable in-memory inode had.
  pub write_inode-yaf_iget :
      ((c : ℕ) → k.iget_locked c ino ≡ true)
      → Returns
          (λ r s'. (r ≡ ok ino) × (persisted (s'.inode ino) ≡ persisted (s.inode ino)))
          ((write_inode k ino >>= λ _. yaf_iget k ino) s)
  unfolding on_disk
  write_inode-yaf_iget mem =
      rw
        (
          write_inode-done k s ino w (read s.calls),
          yaf_iget-done k (written ino s) ino w h (mem _) (read _),
        )
        (
          refl,
          rw (==-refl ino, ==-refl (ino2bid s.info ino))
              (load-store (s.inode ino) (s.buffer (ino2bid s.info ino)) (ino2boff ino) (s.inode ino)
                st),
        )

  -- A store of another inode of the same block spares the bytes of `ino'`.
  spared :
      (ino' : ℕ) (j : Inode)
      → ino' < s.info.nr_i * inodes_per_block
      → ino ≢ ino'
      → ino2bid s.info ino' ≡ ino2bid s.info ino
      → load_inode
          (store_inode (s.inode ino) (s.buffer (ino2bid s.info ino)) (ino2boff ino))
          (ino2boff ino')
          j
        ≡ load_inode (s.buffer (ino2bid s.info ino)) (ino2boff ino') j
  spared ino' j h' ne same = elim (ino_disjoint w ino ino' h h' ne) [
    | inl apart ↦ absurd (apart (sym same))
    | inr (inl below) ↦ load_inode-cong _ _ (ino2boff ino') j λ n lo hi.
        store_inode-Outside (s.inode ino) _ (ino2boff ino) n st.blocks (inr (omega arith))
    | inr (inr above) ↦ load_inode-cong _ _ (ino2boff ino') j λ n lo hi.
        store_inode-Outside (s.inode ino) _ (ino2boff ino) n st.blocks (inl (omega arith))
  ]

  -- If the number of a storable inode is in range and its block can be read at every call, then
  -- `yaf_write_inode` succeeds, marks its block dirty, and leaves what is on disk of any other inode
  -- of the inode section as it was.
  pub write_inode-other :
      (ino' : ℕ) (j : Inode)
      → ino' < s.info.nr_i * inodes_per_block
      → ino ≢ ino'
      → Returns
          (λ r s'.
            (r ≡ ok tt)
            × (on_disk s' ino' j ≡ on_disk s ino' j)
            × (s'.buffer_dirty (ino2bid s.info ino) ≡ true))
          (write_inode k ino s)
  unfolding on_disk
  write_inode-other ino' j h' ne =
      rw (write_inode-done k s ino w (read s.calls)) (refl, kept, rw (==-refl (ino2bid s.info ino)))
    where
      kept : on_disk (written ino s) ino' j ≡ on_disk s ino' j
      kept = elim (Bool-cases (ino2bid s.info ino' == ino2bid s.info ino)) [
        | inl e ↦
            let same = ==→eq (ino2bid s.info ino') (ino2bid s.info ino) e in
            rw (e, same) (spared ino' j h' ne same)
        | inr e ↦ rw e
      ]
