-- ===== src/Readdir/Iterate.antt =====
-- `yaf_iterate_shared` of driver/dir.c emits the entries from its position to the directory's end.
use yaf.Base.{
  ℕ, ◌+◌, ◌*◌, ◌%◌, ◌^◌, ◌≤◌, ◌<◌, ◌≡◌, ◌≢◌, ◌⊎◌, inl, inr, refl, true, false, ◌==◌, Bool-cases,
  arith,
}
use yaf.Machine.{Sb, Kernel, Result, ok, err, Returns}
use yaf.Bitmap.{enoent}
use yaf.Inode.{eio, is_dir}
use yaf.Dentry.{dentry_size}
use yaf.Dentry.Scan.{after_calls}
use yaf.Readdir.{Context, Emitter, iterate_from, iterate_shared, start_of, enotdir}
use yaf.Readdir.Listing.{listing}
use yaf.Readdir.Walk.{Unread}

module _ {C : Type 0} (em : Emitter C) (k : Kernel) (s : Sb) (dir : ℕ) where
  -- What `yaf_iterate_shared` gives from offset `start` on: the context behind the last entry, or an
  -- error with the position kept, after the entries up to there.
  abbrev pub Iterated : ℕ → Context C → Result (Unit {0}) × Context C → Sb → Type 0
  Iterated start u (ok x, v) t =
      ((n : ℕ) × (v.pos ≡ (start + n * dentry_size + 2) % 2 ^ 64)
        × (v.actor ≡ listing em s dir start n start u.actor)
        × ((s.inode dir).i_size ≤ start + n * dentry_size)
        × ((n ≡ 0) ⊎ (start + n * dentry_size < (s.inode dir).i_size + dentry_size)))
      × ((calls : ℕ) × (t ≡ after_calls s calls))
  Iterated start u (err e, v) t =
      (n : ℕ) × (e ≡ eio)
      × (v ≡ record u { actor = listing em s dir start n start u.actor })
      × (start + n * dentry_size < (s.inode dir).i_size)
      × Unread em k s dir (start + n * dentry_size) t

  -- The three ways in which `yaf_iterate_shared` returns before it reads an entry.
  abbrev pub Refused : Context C → Result (Unit {0}) × Context C → Sb → Type 0
  Refused ctx (r, v) t =
      (t ≡ s)
      × (((is_dir (s.inode dir).i_mode ≡ false) × (r ≡ err enotdir) × (v ≡ ctx))
          ⊎ ((is_dir (s.inode dir).i_mode ≡ true)
              × ((em.dir_emit_dots ctx).0 ≡ false)
              × (r ≡ ok tt)
              × (v ≡ (em.dir_emit_dots ctx).1))
          ⊎ ((is_dir (s.inode dir).i_mode ≡ true)
              × ((em.dir_emit_dots ctx).0 ≡ true)
              × (r ≡ err enoent)
              × (v ≡ (em.dir_emit_dots ctx).1)))

  -- On an inode that is not a directory, or if the dots cannot be emitted, or at a position that is
  -- not that of an entry, `yaf_iterate_shared` returns and leaves the file system and what the dots
  -- left of the context: with ENOTDIR and the context as it is in the first case, with success in
  -- the second, with ENOENT in the third.
  iterate_shared-Refused :
      (ctx : Context C)
      → (is_dir (s.inode dir).i_mode ≡ false)
        ⊎ ((em.dir_emit_dots ctx).0 ≡ false)
        ⊎ (start_of (em.dir_emit_dots ctx).1.pos % dentry_size ≢ 0)
      → Returns (Refused ctx) (iterate_shared em k dir ctx s)
  unfolding iterate_shared iterate_from
  iterate_shared-Refused ctx why = elim (Bool-cases (is_dir (s.inode dir).i_mode)) [
    | inr mode ↦ rw mode (refl, inl (mode, refl, refl))
    | inl mode ↦ elim (Bool-cases (em.dir_emit_dots ctx).0) [
      | inr dots ↦ rw (mode, dots) (refl, inr (inl (mode, dots, refl, refl)))
      | inl dots ↦
          let off : ((start_of (em.dir_emit_dots ctx).1.pos % dentry_size) == 0) ≡ false =
            ground (arith, mode, dots, why) in
          rw (mode, dots, off) (refl, inr (inr (mode, dots, refl, refl)))
    ]
  ]
