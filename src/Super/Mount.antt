-- ===== src/Super/Mount.antt =====
-- A file system that `mkfs` made can be mounted.
use yaf.Base.{
  ℕ, ◌+◌, ◌≤◌, ◌<◌, ◌≡◌, ◌∙◌, refl, sym, ap, List, [], ◌∷◌, ◌^◌, ◌%◌, subst, true, arith, some,
  none,
}
use yaf.Base.Word.{IsWord}
use yaf.Layout.{SbInfo, ino2bid, ino2boff}
use yaf.Layout.Regions.{IsLayout}
use yaf.Machine.{Block, Inode, Sb, Kernel, ok, Returns}
use yaf.Machine.Bytes.{get32, read_words}
use yaf.Machine.Rules.{Returns-mono}
use yaf.Inode.{load_inode}
use yaf.Inode.Codec.{persisted, persisted-install_ops}
use yaf.Inode.Persist.{on_disk, yaf_iget-done}
use yaf.Mkfs.{Disk, root_ino, root_words, mkfs, superblock, superblock_info, root_mode}
use yaf.Mkfs.Image.{mkfs-image}
use yaf.Mkfs.Sizes.{superblock_info-IsLayout}
use yaf.Super.{fill_super}
use yaf.Super.Magic.{load_info-superblock}

-- What `yaf_iget` loads of inode 1 are the words at byte 64.
persisted-load_inode :
    (b : Block) (j : Inode)
    → get32 b 64 < 2 ^ 16
    → persisted (load_inode b 64 j) ≡ read_words b 64 16
unfolding load_inode read_words
persisted-load_inode b j h =
    let mode : get32 b 64 % 65536 ≡ get32 b 64 = omega arith in
    persisted-install_ops _ ∙ rw mode refl

first_word : List ℕ → ℕ
first_word [] = 0
first_word (w ∷ ws) = w

root_on_disk :
    (s : Sb) (uid gid : ℕ) (j : Inode)
    → read_words (s.buffer (ino2bid s.info root_ino)) (ino2boff root_ino) 16 ≡ root_words uid gid
    → persisted (on_disk s root_ino j) ≡ root_words uid gid
unfolding on_disk ino2boff
root_on_disk s uid gid j words =
    persisted-load_inode (s.buffer (ino2bid s.info root_ino)) j (omega (arith, mode)) ∙ words
  where
    mode : get32 (s.buffer (ino2bid s.info root_ino)) 64 ≡ root_mode
    mode = unfold root_words read_words first_word in ap first_word words

module _ (k : Kernel) (read : (c b : ℕ) → k.sb_bread c b ≡ true)
    (memory : (c i : ℕ) → k.iget_locked c i ≡ true) where
  -- A state whose first block is the superblock of a layout with inodes.
  fill_super-superblock :
      (i : SbInfo)
      → IsLayout i
      → 0 < i.nr_i
      → (s : Sb) → s.buffer 0 ≡ superblock i
      → Returns
          (λ r s'.
            (r ≡ ok tt)
            × (s'.info ≡ i)
            × (s'.buffer ≡ s.buffer)
            × (s'.inode root_ino ≡ on_disk (record s { info = i }) root_ino (s.inode root_ino)))
          (fill_super k true true s)
  unfolding fill_super on_disk load_inode
  fill_super-superblock i l some_inode s first =
      let loaded = load_info-superblock i l.info in
      rw
        (
          read s.calls 0,
          first,
          loaded.0,
          loaded.1,
          yaf_iget-done k (record s { info = i; calls = s.calls + 1 }) root_ino l.info (omega arith)
              (memory _ _) (read _ _),
        )
        (refl, refl, refl, refl)

  -- On a device that can be read, with memory for the root, `yaf_fill_super` mounts what `mkfs`
  -- left on a device of at least 64 blocks whose number is a 32-bit number: the sizes are those
  -- that `mkfs` computed, the root inode is the directory that `mkfs` wrote for the user and the
  -- group, and no block changes.
  pub mkfs-fill_super :
      (d : Disk) (bnr uid gid : ℕ) (s : Sb)
      → 64 ≤ bnr
      → IsWord bnr
      → IsWord uid
      → IsWord gid
      → mkfs d bnr uid gid ≡ some s.buffer
      → Returns
          (λ r s'.
            (r ≡ ok tt)
            × (s'.info ≡ superblock_info bnr)
            × (s'.buffer ≡ s.buffer)
            × (persisted (s'.inode root_ino) ≡ root_words uid gid))
          (fill_super k true true s)
  mkfs-fill_super d bnr uid gid s lo w u g made =
      let i = superblock_info bnr in
      let sizes = superblock_info-IsLayout bnr lo w in
      let (d', made', first, root) = mkfs-image d bnr uid gid lo w u g in
      let same : d' ≡ s.buffer = ap (λ o. elim o [ none ↦ d | some x ↦ x ]) (sym made' ∙ made) in
      Returns-mono _ (fill_super k true true s)
        (fill_super-superblock i sizes.0 (omega (arith, sizes)) s
          (subst (λ x. x 0 ≡ superblock i) same first))
        (λ r s' (success, info, kept, loaded). (
          success,
          info,
          kept,
          ap persisted loaded
              ∙ root_on_disk (record s { info = i }) uid gid (s.inode root_ino)
                  (subst
                    (λ x.
                      read_words (x (ino2bid i root_ino)) (ino2boff root_ino) 16
                      ≡ root_words uid gid)
                    same root),
        ))
