-- ===== src/Dir/Lookup.antt =====
-- The search for a name in a directory, `_yaf_lookup` of driver/inode.c.
use yaf.Base.{
  ℕ, ◌∙◌, sym, true-false, ◌==◌, if◌then◌else◌, ◌*◌, ◌/◌, ◌%◌, ◌≤◌, ◌<◌, ◌≡◌, inl, refl, true,
  arith, length, ge→ltb,
}
use yaf.Layout.{block_size}
use yaf.Machine.{Sb, Kernel, Result, ok, err, Returns, Cmd, pure, get, ◌>>=◌}
use yaf.Machine.Rules.{Returns-bind}
use yaf.Bitmap.{enoent}
use yaf.Inode.{enospc}
use yaf.Dentry.{Name, Stop, hit, miss, dentry_size, dentry_name_len, has_name, is_unused, scan_dir}
use yaf.Dentry.Scan.{AllFail, passes, after_calls, Searched, scan_dir-Searched}
use yaf.Base.Word.{neg64}
use yaf.Dir.{get_free_dentry, extend_dir, append_dentry, max_dentrys, rounds_for, lookup_offset}

-- The first entry of the directory that has the name, or the proof that none has.
abbrev pub FirstNamed : Sb → ℕ → Name → Result ℕ → Type 0
FirstNamed s dir name (ok d) =
    (d < (s.inode dir).i_size)
    × (d % dentry_size ≡ 0)
    × (passes s dir (has_name name) d ≡ true)
    × AllFail (passes s dir (has_name name)) 0 d
FirstNamed s dir name (err e) =
    (e ≡ enoent) × AllFail (passes s dir (has_name name)) 0 (s.inode dir).i_size

-- With a device that can be read, and a directory whose bytes have blocks, the search for a name
-- that is not too long ends: with the offset of the first used entry that has the name, or with
-- -ENOENT when no used entry of the directory has it. It changes nothing.
pub lookup_offset-FirstNamed :
    (k : Kernel) (dir : ℕ) (s : Sb) (name : Name)
    → ((c b : ℕ) → k.sb_bread c b ≡ true)
    → (s.inode dir).i_size ≤ block_size * length (s.inode dir).i_block
    → length name ≤ dentry_name_len
    → Returns
        (λ r s'. FirstNamed s dir name r × ((c : ℕ) × (s' ≡ after_calls s c)))
        (lookup_offset k dir name s)
unfolding lookup_offset
lookup_offset-FirstNamed k dir s name read backed short =
    rw (ge→ltb dentry_name_len (length name) short) (
      Returns-bind _ (scan_dir k (has_name name) dir (rounds_for (s.inode dir).i_size) 0 s) _
        (scan_dir-Searched k (has_name name) dir s read backed (rounds_for (s.inode dir).i_size) 0
          s.calls (inl refl) (omega arith) (omega arith) (omega arith))
        (λ r s' found. ending r s' found))
  where
    ending :
        (r : Result Stop) (s' : Sb)
        → Searched s dir (has_name name) 0 r s'
        → Returns
            (λ a t. FirstNamed s dir name a × ((c : ℕ) × (t ≡ after_calls s c)))
            ((elim r as (λ x. Cmd (Result ℕ)) [
              | err e ↦ pure (err e)
              | ok (hit doff) ↦ pure (ok doff)
              | ok (miss doff) ↦ pure (err enoent)
            ])
              s')
    ending (ok (hit d)) s' ((l, sz, md, at, rest), same) = ((sz, md, at, rest), same)
    ending (ok (miss d)) s' ((l, md, at, rest), same) =
        ((refl, λ e lo hi m. rest e lo (omega arith) m), same)
    ending (err e) s' never = absurd never

-- The first unused entry of a directory.
abbrev pub FirstUnused : Sb → ℕ → ℕ → Type 0
FirstUnused s dir d =
    (d < (s.inode dir).i_size)
    × (d % dentry_size ≡ 0)
    × (passes s dir is_unused d ≡ true)
    × AllFail (passes s dir is_unused) 0 d

-- With a device that can be read, and a directory whose bytes have blocks and one of whose entries
-- is unused, the search for a free entry gives the offset of the first unused one. It changes nothing,
-- so the directory does not grow.
pub get_free_dentry-FirstUnused :
    (k : Kernel) (dir : ℕ) (s : Sb) (e : ℕ)
    → ((c b : ℕ) → k.sb_bread c b ≡ true)
    → (s.inode dir).i_size ≤ block_size * length (s.inode dir).i_block
    → e < (s.inode dir).i_size
    → e % dentry_size ≡ 0
    → passes s dir is_unused e ≡ true
    → Returns
        (λ d s'. FirstUnused s dir d × ((c : ℕ) × (s' ≡ after_calls s c)))
        (get_free_dentry k dir s)
unfolding get_free_dentry
get_free_dentry-FirstUnused k dir s e read backed le m unused =
    Returns-bind _ (scan_dir k is_unused dir (rounds_for (s.inode dir).i_size) 0 s) _
      (scan_dir-Searched k is_unused dir s read backed (rounds_for (s.inode dir).i_size) 0 s.calls
        (inl refl) (omega arith) (omega arith) (omega arith))
      (λ r s' found. ending r s' found)
  where
    ending :
        (r : Result Stop) (s' : Sb)
        → Searched s dir is_unused 0 r s'
        → Returns
            (λ d t. FirstUnused s dir d × ((c : ℕ) × (t ≡ after_calls s c)))
            ((elim r as (λ x. Cmd ℕ) [
              | err e ↦ pure (neg64 e)
              | ok (hit doff) ↦ pure doff
              | ok (miss doff) ↦ (do
                t ← get
                if (t.inode dir).i_size / dentry_size == max_dentrys
                    then pure (neg64 enospc)
                    else (do
                      extended ← extend_dir k dir doff
                      if extended then append_dentry k dir doff else pure (neg64 enospc)))
            ])
              s')
    ending (ok (hit d)) s' ((l, sz, md, at, rest), same) = ((sz, md, at, rest), same)
    ending (ok (miss d)) s' ((l, md, at, rest), same) =
        absurd (true-false (sym unused ∙ rest e (omega arith) (omega arith) m))
    ending (err e) s' never = absurd never
