-- ===== src/Readdir.antt =====
-- Directory iteration, driver/dir.c. `dir` stands for the directory's in-memory inode; the VFS's
-- `struct dir_context` is its position and the state of its actor, which takes what is emitted.
pub mod Listing
pub mod Walk
pub mod Iterate
pub mod Names
mod Tests
use yaf.Base.{
  ℕ, zero, suc, ◌+◌, ◌-◌, ◌*◌, ◌/◌, ◌%◌, ◌^◌, Bool, true, false, Option, none, some, ◌==◌, ltb,
  if◌then◌else◌, get_elem?, not,
}
use yaf.Layout.{block_size, dno2bid}
use yaf.Machine.{Block, Kernel, Cmd, Result, ok, err, panic, out_of_fuel, pure, ◌>>=◌, get, bread}
use yaf.Machine.Bytes.{get32}
use yaf.Bitmap.{enoent, reserved_ino}
use yaf.Inode.{eio, is_dir}
use yaf.Dentry.{dentry_size, dentrys_per_block, d_ino}
use yaf.Dir.{rounds_for}

abbrev pub enotdir : ℕ
enotdir = 20

-- `struct dir_context`: `pos`, and the state of the actor.
pub record Context (C : Type 0) : Type 0 where
  pub pos : ℕ
  pub actor : C

-- The kernel's functions over a context. `dir_emit` is given the block and the offset in it that
-- `yd->d_name` points to, the length and the inode number, and says whether the actor took the entry.
pub record Emitter (C : Type 0) : Type 0 where
  pub dir_emit_dots : Context C → Bool × Context C
  pub dir_emit : C → Block → (off len ino : ℕ) → Bool × C

-- `doff` for a position, of which it is 2 less.
abbrev pub start_of : ℕ → ℕ
start_of pos = if pos == 2 then 0 else (pos + (2 ^ 64 - 2)) % 2 ^ 64

module _ {C : Type 0} (em : Emitter C) where
  -- The entry at an offset of a block, if it is used. That the actor refused it is logged only.
  unfoldable pub emit_entry : Block → ℕ → C → C
  emit_entry b off c =
      if not (d_ino b off == reserved_ino)
      then (em.dir_emit c b (off + 8) (get32 b (off + 4)) (d_ino b off)).1
      else c

  -- The inner loop, with the entries left in the block, the index of `yd` and the offset in the
  -- directory. `yd` starts at the block's first entry wherever `doff` is.
  unfoldable pub emit_entries : Block → ℕ → (left y doff : ℕ) → C → ℕ × C
  emit_entries b size zero y doff c = (doff, c)
  emit_entries b size (suc left) y doff c =
      let rest =
        emit_entries b size left (y + 1) (doff + dentry_size) (emit_entry b (y * dentry_size) c) in
      if ltb doff size then rest else (doff, c)

  module _ (k : Kernel) (dir : ℕ) where
    -- The outer loop, from offset `doff` on, with the actor's state.
    unfoldable pub emit_blocks : (rounds doff : ℕ) → C → Cmd (Result ℕ × C)
    emit_blocks zero doff c = λ _. out_of_fuel
    emit_blocks (suc rounds) doff c = do
      s ← get
      if ltb doff (s.inode dir).i_size
          then elim (get_elem? (s.inode dir).i_block (doff / block_size)) [
            | none ↦ (λ _. panic)
            | some dno ↦ (do
              bh ← bread k (dno2bid s.info dno)
              elim bh [
                | none ↦ pure (err eio, c)
                | some p ↦ (do
                  t ← get
                  let (d, c') =
                      emit_entries (t.buffer p) (t.inode dir).i_size
                        (dentrys_per_block - doff % block_size / dentry_size) 0 doff c
                  emit_blocks rounds d c')
              ])
          ]
          else pure (ok doff, c)

    -- The end of `yaf_iterate_shared`, once the dots are emitted.
    unfoldable pub iterate_from : Context C → Cmd (Result (Unit {0}) × Context C)
    iterate_from u = do
      let doff = start_of u.pos
      if not (doff % dentry_size == 0) then pure (err enoent, u) else (do
        s ← get
        (r, c) ← emit_blocks (rounds_for (s.inode dir).i_size) doff u.actor
        elim r [
          | err e ↦ pure (err e, record u { actor = c })
          | ok d ↦ pure (ok tt, record { pos = (d + 2) % 2 ^ 64; actor = c })
        ])

    -- `yaf_iterate_shared`; the context is returned with the result.
    unfoldable pub iterate_shared : Context C → Cmd (Result (Unit {0}) × Context C)
    iterate_shared ctx = do
      s ← get
      if not (is_dir (s.inode dir).i_mode) then pure (err enotdir, ctx) else (do
        let (emitted, u) = em.dir_emit_dots ctx
        if not emitted then pure (ok tt, u) else iterate_from u)
