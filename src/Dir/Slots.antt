-- ===== src/Dir/Slots.antt =====
-- The entry that `yaf_get_free_dentry` of driver/inode.c finds or makes.
use yaf.Base.{
  ℕ, ◌*◌, ◌/◌, ◌%◌, ◌<◌, ◌≡◌, ◌⊎◌, ◌∙◌, sym, ap, inl, inr, refl, true, false, ◌==◌, arith,
  true-false, if◌then◌else◌,
}
use yaf.Base.Word.{neg64}
use yaf.Layout.{SbInfo, block_size, dno2bid}
use yaf.Machine.{Inode, Sb, Kernel, Cmd, Result, ok, err, Returns, update, get, pure, ◌>>=◌}
use yaf.Machine.Bytes.{put32}
use yaf.Machine.Rules.{Returns-bind, Returns-mono, update_self, update_ne}
use yaf.Bitmap.{reserved_ino}
use yaf.Bitmap.Used.{inode_used, data_used}
use yaf.Inode.{enospc, yaf_iblocks}
use yaf.Dentry.{Stop, hit, miss, dentry_size, is_unused, scan_dir}
use yaf.Dentry.Scan.{passes, after_calls, Searched, scan_dir-Searched}
use yaf.Dir.{rounds_for, max_dentrys, extend_dir, append_dentry, get_free_dentry}
use yaf.Dir.Ready.{Ready, SpareBlock}
use yaf.Dir.View.{IsDir, IsDir-calls}
use yaf.Dir.Refine.{Dict, Refines}
use yaf.Dir.Grow.{extend_dir-Extended, block_at-some}
use yaf.Dir.Append.{Slot, Appended, Appended-Slot}
use yaf.Dir.Append.Held.{Appended-Frame}
use yaf.Dir.Frame.{Frame, Frame-calls, Frame-trans}

-- The entry, and the frame of the step that found or made it.
abbrev pub Placed : Dict → Sb → (dir d : ℕ) → Sb → Type 0
Placed m s dir d u = Slot m s dir d u × Frame s dir dir u

-- The directory can take one more name: it has an unused entry, or it is not of its largest size and
-- there is a free block that a bit of the first block of the data bitmap stands for, whose buffer stays
-- in the cache until it is marked.
abbrev pub HasRoom : Kernel → Sb → ℕ → Type 0
HasRoom k s dir =
    (((s.inode dir).i_size < block_size * yaf_iblocks) × SpareBlock k s)
    ⊎ ((e : ℕ) × (e < (s.inode dir).i_size)
        × (e % dentry_size ≡ 0)
        × (passes s dir is_unused e ≡ true))

pub Ready-calls :
    {k : Kernel} {s : Sb} {dir : ℕ} (c : ℕ) → Ready k s dir → Ready k (after_calls s c) dir
unfolding inode_used
Ready-calls c r = record {
  laws = r.laws;
  read = r.read;
  memory = r.memory;
  layout = r.layout;
  bits = r.bits;
  spare_ino = r.spare_ino;
  spare_bit = r.spare_bit;
  spare_in_range = r.spare_in_range;
  spare_free = r.spare_free;
  reserved = r.reserved;
  dir_used = r.dir_used;
  dir_bit = r.dir_bit;
  dir_word = r.dir_word;
}

module _ {k : Kernel} {s : Sb} {dir : ℕ} (ready : Ready k s dir) (h : IsDir s dir) (m : Dict)
    (refines : Refines m s dir) where
  both : (t u : Sb) (dno : ℕ) → Appended s dir dno t u → Placed m s dir (s.inode dir).i_size u
  both t u dno a = (Appended-Slot ready h a m refines, Appended-Frame ready h a)

  grow-Slot :
      SpareBlock k s
      → (s.inode dir).i_size < block_size * yaf_iblocks
      → Returns
          (λ d u. Placed m s dir d u)
          ((do
            extended ← extend_dir k dir (s.inode dir).i_size
            if extended then append_dentry k dir (s.inode dir).i_size else pure (neg64 enospc))
            s)
  unfolding append_dentry
  grow-Slot spare room =
      Returns-bind _ (extend_dir k dir (s.inode dir).i_size s) _
        (extend_dir-Extended ready spare h.blocks room)
        λ b t (yes_b, (dno, x)).
          rw
            (
              yes_b,
              block_at-some dir ((s.inode dir).i_size / block_size) t dno x.at,
              ready.read t.calls (dno2bid t.info dno),
            )
            (both t _ dno (record {
              room = room;
              extended = x;
              buffer =
                  ap
                    (λ (i : SbInfo). update t.buffer (dno2bid i dno) (
                      put32 (t.buffer (dno2bid i dno)) ((s.inode dir).i_size % block_size)
                        reserved_ino))
                    x.same_info;
              info = refl;
              blocks = ap (λ (i : Inode). i.i_block) (update_self t.inode dir _);
              grown = ap (λ (i : Inode). i.i_size) (update_self t.inode dir _);
              others = λ n ne. update_ne t.inode dir n _ ne;
            }))

Slot-calls :
    {m : Dict} {s : Sb} {dir d : ℕ} {u : Sb} (c : ℕ)
    → Placed m (after_calls s c) dir d u
    → Placed m s dir d u
unfolding inode_used
Slot-calls {dir = dir} c (x, f) = (
  record {
    is_dir = x.is_dir;
    refines = x.refines;
    inside = x.inside;
    aligned = x.aligned;
    free = x.free;
    same_info = x.same_info;
    inode_marks = x.inode_marks;
  },
  Frame-trans (Frame-calls dir dir c) f,
)

-- What the search for a free entry gives, where the directory has room.
module _ {k : Kernel} {s : Sb} {dir : ℕ} (ready : Ready k s dir) (h : IsDir s dir) (m : Dict)
    (refines : Refines m s dir) where
  found-Slot :
      (c d : ℕ)
      → d < (s.inode dir).i_size
      → d % dentry_size ≡ 0
      → passes s dir is_unused d ≡ true
      → Placed m s dir d (after_calls s c)
  unfolding passes inode_used
  found-Slot c d lt md free = (
    record {
      is_dir = IsDir-calls dir c h;
      refines = refines;
      inside = lt;
      aligned = md;
      free = free;
      same_info = refl;
      inode_marks = λ n bit word. refl;
    },
    Frame-calls dir dir c,
  )

  not_full :
      (c : ℕ)
      → SpareBlock k s
      → (s.inode dir).i_size < block_size * yaf_iblocks
      → Returns
          (λ d u. Placed m s dir d u)
          ((if (s.inode dir).i_size / dentry_size == max_dentrys then pure (neg64 enospc) else (do
            extended ← extend_dir k dir (s.inode dir).i_size
            if extended then append_dentry k dir (s.inode dir).i_size else pure (neg64 enospc)))
            (after_calls s c))
  unfolding passes data_used
  not_full c spare lt =
      let small : ((s.inode dir).i_size / dentry_size == max_dentrys) ≡ false = ground arith in
      rw small (
        Returns-mono (λ d u. Placed m s dir d u) _
          (grow-Slot (Ready-calls c ready) (IsDir-calls dir c h) m refines
            (record {
              dno = spare.dno;
              bit = spare.bit;
              in_range = spare.in_range;
              free = spare.free;
              stays = spare.stays;
            })
            lt)
          λ d u x. Slot-calls c x)

  pub get_free_dentry-Slot :
      HasRoom k s dir → Returns (λ d u. Placed m s dir d u) (get_free_dentry k dir s)
  unfolding get_free_dentry
  get_free_dentry-Slot room =
      Returns-bind _ (scan_dir k is_unused dir (rounds_for (s.inode dir).i_size) 0 s) _
        (scan_dir-Searched k is_unused dir s ready.read
          (omega (arith, h.blocks.eight, h.blocks.sized)) (rounds_for (s.inode dir).i_size) 0
          s.calls (inl refl) (omega arith) (omega arith) (omega arith))
        (λ r s' found. ending r s' found)
    where
      ending :
          (r : Result Stop) (s' : Sb)
          → Searched s dir is_unused 0 r s'
          → Returns
              (λ d u. Placed m s dir d u)
              ((elim r as (λ x. Cmd ℕ) [
                | err e ↦ pure (neg64 e)
                | ok (hit doff) ↦ pure doff
                | ok (miss doff) ↦ (do
                  t ← get
                  if (t.inode dir).i_size / dentry_size == max_dentrys
                      then pure (neg64 enospc)
                      else (do
                        extended ← extend_dir k dir doff
                        if extended then append_dentry k dir doff else pure (neg64 enospc)))
              ])
                s')
      ending (err e) s' never = absurd never
      ending (ok (hit d)) s' ((l, sz, md, at, rest), (c, same)) = rw same (found-Slot c d sz md at)
      ending (ok (miss d)) s' ((l, md, at, rest), (c, same)) =
          let last : d ≡ (s.inode dir).i_size = omega (arith, h.whole) in
          rw (same, last)
            (elim room [
              | inl (lt, spare) ↦ not_full c spare lt
              | inr (e, le, me, free) ↦
                  absurd (true-false (sym free ∙ rest e (omega arith) (omega arith) me))
            ])
