-- ===== src/Dir/Full.antt =====
-- Entries that cannot be made: names that are too long, and directories that are full.
use yaf.Base.{
  ℕ, ◌*◌, ◌/◌, ◌≤◌, ◌<◌, ◌≡◌, inl, refl, true, arith, length, ge→ltb, lt→ltb, List, [], ◌∷◌, zero,
  suc, get_elem?, none, ◌∙◌, sym, true-false, ◌==◌, if◌then◌else◌,
}
use yaf.Base.Word.{neg64}
use yaf.Layout.{block_size}
use yaf.Machine.{Sb, Kernel, Cmd, Result, ok, err, Returns, done, panic, get, pure, ◌>>=◌}
use yaf.Machine.Rules.{Returns-bind, Returns-panic, Returns-mono}
use yaf.Inode.{enospc, yaf_iblocks}
use yaf.Dentry.{Name, Stop, hit, miss, dentry_size, dentry_name_len, is_unused, scan_dir}
use yaf.Dentry.Scan.{AllFail, passes, after_calls, Searched, scan_dir-Searched}
use yaf.Dir.{
  extend_dir, append_dentry, rounds_for, max_dentrys, enametoolong, create_entry, lookup_offset,
  get_free_dentry, block_at,
}

-- A name of more than 24 bytes is refused with -ENAMETOOLONG by the search for it and by the
-- creation of an entry, before anything is read or changed.
name_too_long :
    (k : Kernel) (dir : ℕ) (s : Sb) (name : Name) (mode : ℕ)
    → dentry_name_len < length name
    → (lookup_offset k dir name s ≡ done (err enametoolong) s)
      × (create_entry k dir name mode s ≡ done (err enametoolong) s)
unfolding lookup_offset create_entry
name_too_long k dir s name mode long = rw (lt→ltb dentry_name_len (length name) long) (refl, refl)

get_elem?-past : (xs : List ℕ) (i : ℕ) → length xs ≤ i → get_elem? xs i ≡ none
get_elem?-past [] i h = refl
get_elem?-past (x ∷ xs) zero h = absurd (omega arith)
get_elem?-past (x ∷ xs) (suc i) h = get_elem?-past xs i (omega arith)

block_at-past :
    (dir index : ℕ) (s : Sb) → length (s.inode dir).i_block ≤ index → block_at dir index s ≡ panic
block_at-past dir index s past = rw (get_elem?-past (s.inode dir).i_block index past, block_at) refl

-- A directory all of whose entries are used, as many as it can have: the search for a free entry
-- gives -ENOSPC.
get_free_dentry-full :
    (k : Kernel) (dir : ℕ) (s : Sb)
    → ((c b : ℕ) → k.sb_bread c b ≡ true)
    → (s.inode dir).i_size ≡ max_dentrys * dentry_size
    → (s.inode dir).i_size ≤ block_size * length (s.inode dir).i_block
    → AllFail (passes s dir is_unused) 0 (s.inode dir).i_size
    → Returns
        (λ r s'. (r ≡ neg64 enospc) × ((c : ℕ) × (s' ≡ after_calls s c)))
        (get_free_dentry k dir s)
unfolding get_free_dentry
get_free_dentry-full k dir s read full backed used =
    Returns-bind _ (scan_dir k is_unused dir (rounds_for (s.inode dir).i_size) 0 s) _
      (scan_dir-Searched k is_unused dir s read backed (rounds_for (s.inode dir).i_size) 0 s.calls
        (inl refl) (omega arith) (omega arith) (omega arith))
      (λ r s' found. ending r s' found)
  where
    ending :
        (r : Result Stop) (s' : Sb)
        → Searched s dir is_unused 0 r s'
        → Returns
            (λ a t. (a ≡ neg64 enospc) × ((c : ℕ) × (t ≡ after_calls s c)))
            ((elim r as (λ x. Cmd ℕ) [
              | err e ↦ pure (neg64 e)
              | ok (hit doff) ↦ pure doff
              | ok (miss doff) ↦ (do
                t ← get
                if (t.inode dir).i_size / dentry_size == max_dentrys
                    then pure (neg64 enospc)
                    else (do
                      extended ← extend_dir k dir doff
                      if extended then append_dentry k dir doff else pure (neg64 enospc)))
            ])
              s')
    ending (ok (hit d)) s' ((l, sz, md, at, rest), same) =
        absurd (true-false (sym at ∙ used d (omega arith) sz md))
    ending (ok (miss d)) s' (stops, (c, same)) = rw (same, full) (refl, (c, refl))
    ending (err e) s' never = absurd never

-- The offset is -ENOSPC, a valid one nowhere, and the index into `i_block` that it gives is out of
-- bounds.
abbrev pub FailsAt : Sb → (dir d : ℕ) → Sb → Type 0
FailsAt s dir d u =
    (d ≡ neg64 enospc)
    × (block_at dir (d / block_size) u ≡ panic)
    × (yaf_iblocks ≤ d / block_size)
    × ((c : ℕ) × (u ≡ after_calls s c))

-- A directory of the largest size, 1024 entries in eight blocks, that are all used, on a device that
-- can be read, and a name that fits: the search for a free entry returns the bit pattern of -ENOSPC
-- and changes nothing, and `_yaf_create` then fails where it indexes `i_block`, which has eight
-- elements, with this number divided by the block size.
pub create_entry-full :
    (k : Kernel) (dir : ℕ) (s : Sb) (name : Name) (mode : ℕ)
    → ((c b : ℕ) → k.sb_bread c b ≡ true)
    → (s.inode dir).i_size ≡ max_dentrys * dentry_size
    → length (s.inode dir).i_block ≡ yaf_iblocks
    → AllFail (passes s dir is_unused) 0 (s.inode dir).i_size
    → length name ≤ dentry_name_len
    → Returns (FailsAt s dir) (get_free_dentry k dir s) × (create_entry k dir name mode s ≡ panic)
unfolding create_entry
create_entry-full k dir s name mode read full blocks used short =
    let negative = get_free_dentry-full k dir s read full (omega arith) used in
    let past : (c : ℕ) → block_at dir (neg64 enospc / block_size) (after_calls s c) ≡ panic =
      λ c. block_at-past dir (neg64 enospc / block_size) (after_calls s c) (omega arith) in
    (
      Returns-mono (FailsAt s dir) _ negative
          (λ d u (e, (c, same)). (e, rw (e, same) (past c), omega (arith, e), (c, same))),
      rw (ge→ltb dentry_name_len (length name) short) (
          Returns-panic (get_free_dentry k dir s) _ negative
            (λ r s' (e, (c, same)). rw (e, same, past c) refl)),
    )
