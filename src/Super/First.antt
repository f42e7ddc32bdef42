-- ===== src/Super/First.antt =====
-- The first name in a file system that `mkfs` made and `yaf_fill_super` mounted.
use yaf.Base.{
  ℕ, ◌*◌, ◌≤◌, ◌<◌, ◌≡◌, ◌∙◌, refl, sym, ap, true, arith, some, inl, false, replicate, ltb,
}
use yaf.Base.Word.{IsWord}
use yaf.Layout.{bid_dbp_min, idxi2bid, bits_per_block, inodes_per_block}
use yaf.Layout.Regions.{IsLayout}
use yaf.Machine.{Block, Inode, Sb, Kernel, Cmd, Result, ok, err, pure, Returns, ◌>>=◌}
use yaf.Machine.Bits.{IsBitops}
use yaf.Machine.Rules.{Returns-bind, Returns-mono}
use yaf.Bitmap.{reserved_dno}
use yaf.Inode.{yaf_iblocks}
use yaf.Inode.Codec.{persisted}
use yaf.Bitmap.Used.{inode_used, inode_used-kept}
use yaf.Dentry.{Name}
use yaf.Dir.{create_entry}
use yaf.Dir.View.{IsDir, IsEntryName}
use yaf.Dir.Refine.{Refines, insert}
use yaf.Dir.Ready.{Ready, SpareBlock, Stays}
use yaf.Dir.Fill.{Created}
use yaf.Dir.Create.{create_entry-Created}
use yaf.Dir.Empty.{nothing, empty-IsDir, empty-Refines}
use yaf.Mkfs.{Disk, root_ino, root_words, mkfs, superblock_info}
use yaf.Mkfs.Image.{written, mkfs-written}
use yaf.Mkfs.Sizes.{superblock_info-IsLayout, superblock_info-data}
use yaf.Mkfs.Bitmaps.{inode_used-mkfs, data_used-mkfs}
use yaf.Super.{fill_super}
use yaf.Super.Mount.{mkfs-fill_super}

-- The root inode that `mkfs` writes is empty.
pub root_empty :
    (i : Inode) (uid gid : ℕ)
    → persisted i ≡ root_words uid gid
    → (i.i_size ≡ 0) × (i.i_block ≡ replicate yaf_iblocks reserved_dno)
unfolding root_words
root_empty i uid gid e = (cc e, cc e)

module _ (k : Kernel) (laws : IsBitops k) (read : (c b : ℕ) → k.sb_bread c b ≡ true)
    (memory : (c i : ℕ) → k.iget_locked c i ≡ true) where
  pub mounted-Ready :
      (d : Disk) (bnr uid gid : ℕ) (s : Sb)
      → 64 ≤ bnr
      → IsWord bnr
      → s.info ≡ superblock_info bnr
      → mkfs d bnr uid gid ≡ some s.buffer
      → Ready k s root_ino × (Stays k → SpareBlock k s)
  mounted-Ready d bnr uid gid s lo w info made = (
    record {
      laws = laws;
      read = read;
      memory = memory;
      layout = rw info l;
      bits = rw info (superblock_info-IsLayout bnr lo w).4;
      spare_ino = 2;
      spare_bit = omega arith;
      spare_in_range = rw info (omega (arith, room));
      spare_free = mark 2 (omega arith);
      reserved = mark 0 (omega arith);
      dir_used = mark 1 (omega arith);
      dir_bit = rw info (omega (arith, l.has_ibp));
      dir_word = omega arith;
    },
    λ stays. record {
      dno = 0;
      bit = omega arith;
      in_range = rw info room.0;
      free =
          data_used-mkfs (superblock_info bnr) l d uid gid s info same 0 (omega (arith, l.has_dbp))
            (omega arith);
      stays = λ c. stays c (bid_dbp_min s.info);
    },
  )
    where
      l : IsLayout (superblock_info bnr)
      l = (superblock_info-IsLayout bnr lo w).0

      room : (0 < (superblock_info bnr).nr_d) × (64 ≤ (superblock_info bnr).nr_i * inodes_per_block)
      room = superblock_info-data bnr lo w

      same : s.buffer ≡ written (superblock_info bnr) l d uid gid
      same = cc (made, mkfs-written d bnr uid gid l)

      mark : (n : ℕ) → n < bits_per_block → inode_used s n ≡ ltb n 2
      mark = inode_used-mkfs (superblock_info bnr) l d uid gid s info same

  -- On a device that can be read, with memory for inodes and released buffers that stay in the cache: `mkfs` of at least 64 blocks, whose
  -- number is a 32-bit number, then `yaf_fill_super`, then `_yaf_create` in the root of a name that
  -- fits. The name is made, with an inode number that is unused on the disk that `mkfs` wrote and
  -- used afterwards, and the root is a well-formed directory of this name alone.
  pub mkfs-create_entry :
      (d : Disk) (bnr uid gid : ℕ) (s : Sb) (name : Name) (mode : ℕ)
      → 64 ≤ bnr
      → IsWord bnr
      → IsWord uid
      → IsWord gid
      → mkfs d bnr uid gid ≡ some s.buffer
      → IsEntryName name
      → Stays k
      → Returns
          (λ r u.
            (ino : ℕ) × (r ≡ ok ino)
            × (inode_used (record s { info = superblock_info bnr }) ino ≡ false)
            × (inode_used u ino ≡ true)
            × IsDir u root_ino
            × Refines (insert name ino nothing) u root_ino)
          ((do
            r ← fill_super k true true
            elim r as (λ x. Cmd (Result ℕ)) [
              | err e ↦ pure (err e)
              | ok x ↦ create_entry k root_ino name mode
            ])
            s)
  mkfs-create_entry d bnr uid gid s name mode lo w u g made n stays =
      Returns-bind _ (fill_super k true true s) _
        (mkfs-fill_super k read memory d bnr uid gid s lo w u g made)
        λ r t (success, info, kept, root).
          let (size, blocks) = root_empty (t.inode root_ino) uid gid root in
          let (ready, spare) =
            mounted-Ready d bnr uid gid t lo w info (made ∙ ap some (sym kept)) in
          rw success (
            Returns-mono
              {P = λ r v. (ino : ℕ) × (r ≡ ok ino) × Created nothing t root_ino name ino v} _ _
              (create_entry-Created ready (empty-IsDir t root_ino size blocks) nothing
                (empty-Refines t root_ino size) name mode n refl
                (inl (omega (arith, size), spare stays)))
              λ r' v (ino, e, c).
                let unused : inode_used (record s { info = superblock_info bnr }) ino ≡ false =
                  inode_used-kept t (record s { info = superblock_info bnr }) ino (sym info)
                    (ap (λ (x : ℕ → Block). x (idxi2bid t.info ino)) (sym kept))
                  ∙ c.was_free in
                (ino, e, unused, c.in_use, c.is_dir, c.refines))
