-- ===== src/File/Write.antt =====
-- What `yaf_write_begin` and `yaf_write_end` promise.
use yaf.Base.{
  ◌*◌, ℕ, ◌+◌, ◌/◌, ◌^◌, ◌≤◌, ◌<◌, ◌≡◌, ◌⊎◌, inl, inr, refl, true, arith, Bool-cases, ltb, ltb→lt,
  ltb→ge, ==-refl,
}
use yaf.Base.Word.{add64}
use yaf.Layout.{block_size}
use yaf.Machine.{Sb, Kernel, Cmd, Result, err, done, Returns}
use yaf.Inode.{yaf_iblocks, enospc}
use yaf.File.{write_begin, write_end, max_filesize}

module _ (k : Kernel) where
  -- A write whose end is below `2 ^ 63`, so that it is a `loff_t`: either `yaf_write_begin` goes on
  -- with `block_write_begin`, and every byte of the write lies in one of the eight blocks of the
  -- file, or the write ends behind these blocks, and it returns -ENOSPC and changes nothing.
  pub write_begin-in_file :
      (pos len byte : ℕ) (begin : Cmd (Result (Unit {0}))) (s : Sb)
      → pos + len < 2 ^ 63
      → pos ≤ byte
      → byte < pos + len
      → ((write_begin k pos len begin s ≡ begin s) × (byte / block_size < yaf_iblocks))
        ⊎ ((write_begin k pos len begin s ≡ done (err enospc) s)
            × (yaf_iblocks * block_size < pos + len))
  unfolding write_begin
  write_begin-in_file pos len byte begin s small lo hi =
      elim (Bool-cases (ltb max_filesize (add64 pos len))) [
        | inl big ↦
            let positive : ltb (add64 pos len) (2 ^ 63) ≡ true = ground arith in
            rw (big, positive) (inr (refl, omega (arith, ltb→lt max_filesize (add64 pos len) big)))
        | inr fits ↦ rw fits (inl (refl, omega (arith, ltb→ge max_filesize (add64 pos len) fits)))
      ]

  -- If `generic_write_end` ends, so does `yaf_write_end`, with the same result. Only an inode whose
  -- write was complete (the result is at least `len`) changes: its `i_ctime` and `i_mtime` are set
  -- to one time and it is marked dirty; its size and its blocks are as `generic_write_end` left
  -- them.
  write_end-total :
      (ino len : ℕ) (end : Cmd ℕ) (s t : Sb) (copied : ℕ)
      → end s ≡ done copied t
      → Returns
          (λ r s'.
            (r ≡ copied)
            × (((copied < len) × (s' ≡ t))
                ⊎ ((len ≤ copied)
                    × ((s'.inode ino).i_ctime ≡ (s'.inode ino).i_mtime)
                    × ((s'.inode ino).i_size ≡ (t.inode ino).i_size)
                    × ((s'.inode ino).i_block ≡ (t.inode ino).i_block)
                    × (s'.inode_dirty ino ≡ true))))
          (write_end k ino len end s)
  unfolding write_end
  write_end-total ino len end s t copied e = elim (Bool-cases (ltb copied len)) [
    | inl part ↦ rw (e, part) (refl, inl (ltb→lt copied len part, refl))
    | inr whole ↦
        rw (e, whole, ==-refl ino) (refl, inr (ltb→ge copied len whole, refl, refl, refl, refl))
  ]
