-- ===== src/Dir/Find.antt =====
-- `yaf_lookup` of driver/inode.c reads the abstract directory.
use yaf.Base.{
  ℕ, ◌+◌, ◌*◌, ◌/◌, ◌%◌, ◌<◌, ◌≡◌, ◌≢◌, ◌∙◌, sym, ap, inl, inr, refl, true, ◌==◌, arith, get_elem?,
  Option, some, none, true-false, Option-cases, if◌then◌else◌,
}
use yaf.Layout.{block_size, inodes_per_block, dno2bid, idxd2bid}
use yaf.Layout.Regions.{IsLayout}
use yaf.Machine.{Block, Inode, Sb, Kernel, Cmd, Result, ok, err, Returns, update, pure, get, ◌>>=◌}
use yaf.Machine.Rules.{Returns-bind, update_self, update_ne}
use yaf.Bitmap.{enoent}
use yaf.Bitmap.Used.{data_used-kept}
use yaf.Inode.{yaf_iget, eio}
use yaf.Inode.Persist.{on_disk, yaf_iget-done}
use yaf.Dentry.{Name, dentry_size, d_ino, has_name}
use yaf.Dentry.Scan.{AllFail, passes, after_calls}
use yaf.Dir.{lookup_offset, lookup, add_dentry, bread_at}
use yaf.Dir.View.{binds, IsDir, IsEntryName}
use yaf.Dir.Refine.{Dict, Refines, binds-has_name, has_name-binds, passes-inv, binds_parts}
use yaf.Dir.Grow.{block_at-some}
use yaf.Dir.Same.{SameDir, SameDir-IsDir, SameDir-Refines}
use yaf.Dir.Lookup.{FirstNamed, lookup_offset-FirstNamed}

-- What `yaf_lookup` promises of a directory that implements a map: the inode number of the map,
-- whose inode is the one on disk, or none, and the directory as it was.
abbrev pub Finds : Dict → Sb → ℕ → Name → Result (Option ℕ) → Sb → Type 0
Finds m s dir name r u =
    (r ≡ ok (m name))
    × IsDir u dir
    × Refines m u dir
    × ((ino : ℕ) → m name ≡ some ino → u.inode ino ≡ on_disk s ino (s.inode ino))

-- The inodes of a state after one is loaded.
abbrev loaded_in : Sb → ℕ → ℕ → Inode
loaded_in s ino = update s.inode ino (on_disk s ino (s.inode ino))

module _ {s : Sb} {dir : ℕ} (l : IsLayout s.info) (h : IsDir s dir) {m : Dict}
    (refines : Refines m s dir) where
  -- The directory's inode may differ in its times, other inodes as they like.
  found_kept :
      (u : Sb)
      → u.info ≡ s.info
      → u.buffer ≡ s.buffer
      → (u.inode dir).i_block ≡ (s.inode dir).i_block
      → (u.inode dir).i_size ≡ (s.inode dir).i_size
      → IsDir u dir × Refines m u dir
  found_kept u info buffer blocks size =
      (SameDir-IsDir l.info h same, SameDir-Refines l.info h same refines)
    where
      same : SameDir s dir u
      same = record {
        info = info;
        blocks = blocks;
        size = size;
        bytes = λ b le. ap (λ (f : ℕ → Block). f b) buffer;
        marks = λ i dno lt at small used.
            data_used-kept s u dno info (ap (λ (f : ℕ → Block). f (idxd2bid s.info dno)) buffer)
            ∙ used;
      }

  missing :
      (name : Name)
      → IsEntryName name
      → AllFail (passes s dir (has_name name)) 0 (s.inode dir).i_size
      → m name ≡ none
  missing name n fails = elim (Option-cases (m name)) [
    | inl gone ↦ gone
    | inr (ino, there) ↦
        let (e, le, me, p) = (refines name n ino).1 there in
        absurd (true-false (sym (binds-has_name s dir name ino e p) ∙ fails e (omega arith) le me))
  ]

  -- The inode number in the entry that was found, and its block.
  present :
      (name : Name) (d : ℕ)
      → IsEntryName name
      → d < (s.inode dir).i_size
      → d % dentry_size ≡ 0
      → passes s dir (has_name name) d ≡ true
      → (dno : ℕ) × (get_elem? (s.inode dir).i_block (d / block_size) ≡ some dno)
        × (m name ≡ some (d_ino (s.buffer (dno2bid s.info dno)) (d % block_size)))
  present name d n lt md named =
      let (ino, bound) = has_name-binds s dir name d named in
      let (dno, at, e) = passes-inv s dir (binds name ino) d bound in
      (
        dno,
        at,
        (refines name n ino).0 (d, lt, md, bound)
            ∙ ap some (
                sym
                  ((binds_parts name ino (s.buffer (dno2bid s.info dno)) (d % block_size)).0 e).1),
      )

  module _ (k : Kernel) where
    not_found :
        (name : Name) (c : ℕ)
        → m name ≡ none
        → Returns (Finds m s dir name) (add_dentry k dir none (after_calls s c))
    unfolding add_dentry
    not_found name c gone =
        let kept =
          found_kept _ refl refl (ap (λ (i : Inode). i.i_block) (update_self s.inode dir _))
            (ap (λ (i : Inode). i.i_size) (update_self s.inode dir _)) in
        (ap ok (sym gone), kept.0, kept.1, λ ino there. cc (gone, there))

    -- `ino` was found and loaded.
    found :
        (name : Name) (ino c : ℕ)
        → m name ≡ some ino
        → ino ≢ dir
        → Returns
            (Finds m s dir name)
            (add_dentry k dir (some ino) (record s { inode = loaded_in s ino; calls = c }))
    unfolding add_dentry
    found name ino c there ne =
        let old = update_ne s.inode ino dir (on_disk s ino (s.inode ino)) (λ e. ne (sym e)) in
        let kept =
          found_kept _ refl refl
            (ap (λ (i : Inode). i.i_block) (update_self (loaded_in s ino) dir _)
              ∙ ap (λ (i : Inode). i.i_block) old)
            (ap (λ (i : Inode). i.i_size) (update_self (loaded_in s ino) dir _)
              ∙ ap (λ (i : Inode). i.i_size) old) in
        (
          ap ok (sym there),
          kept.0,
          kept.1,
          λ ino' there'.
              let same : ino ≡ ino' = cc (there, there') in
              rw (← same) (update_ne (loaded_in s ino) dir ino _ ne ∙ update_self s.inode ino _),
        )

    -- In a well-formed directory that implements a map, with a device that can be read and memory
    -- for inodes, `yaf_lookup` of a name that fits gives the inode number of the map, loaded from
    -- disk, or no inode if the map has none, and the directory stays as it was. The numbers in the
    -- map are those of inodes and not of the directory itself.
    pub lookup-Finds :
        (name : Name)
        → ((c b : ℕ) → k.sb_bread c b ≡ true)
        → ((c i : ℕ) → k.iget_locked c i ≡ true)
        → IsEntryName name
        → ((ino : ℕ) → m name ≡ some ino → (ino < s.info.nr_i * inodes_per_block) × (ino ≢ dir))
        → Returns (Finds m s dir name) (lookup k dir name s)
    unfolding lookup on_disk
    lookup-Finds name read memory n range =
        Returns-bind _ (lookup_offset k dir name s) _
          (lookup_offset-FirstNamed k dir s name read
            (omega (arith, h.blocks.eight, h.blocks.sized)) n.1)
          λ a t first. ending a t first
      where
        ending :
            (a : Result ℕ) (t : Sb)
            → FirstNamed s dir name a × ((c : ℕ) × (t ≡ after_calls s c))
            → Returns (Finds m s dir name) (
                (elim a as (λ x. Cmd (Result (Option ℕ))) [
                  | err e ↦ if e == enoent then add_dentry k dir none else pure (err e)
                  | ok doff ↦ (do
                    bh ← bread_at k dir doff
                    elim bh as (λ x. Cmd (Result (Option ℕ))) [
                      | none ↦ pure (err eio)
                      | some p ↦ (do
                        u ← get
                        i ← yaf_iget k (d_ino (u.buffer p) (doff % block_size))
                        elim i as (λ x. Cmd (Result (Option ℕ))) [
                          | err e ↦ pure (err e)
                          | ok ino ↦ add_dentry k dir (some ino)
                        ])
                    ])
                ])
                  t)
        ending (err e) t ((code, fails), (c, same)) =
            rw (code, same) (not_found name c (missing name n fails))
        ending (ok d) t ((lt, md, named, before), (c, same)) =
            let (dno, at, there) = present name d n lt md named in
            let fit = range (d_ino (s.buffer (dno2bid s.info dno)) (d % block_size)) there in
            rw
              (
                same,
                block_at-some dir (d / block_size) (after_calls s c) dno at,
                read c (dno2bid s.info dno),
                yaf_iget-done k (after_calls s (c + 1))
                    (d_ino (s.buffer (dno2bid s.info dno)) (d % block_size)) l.info fit.0
                    (memory _ _) (read _ _),
              )
              (found name (d_ino (s.buffer (dno2bid s.info dno)) (d % block_size)) (c + 1 + 1 + 1)
                there fit.1)
