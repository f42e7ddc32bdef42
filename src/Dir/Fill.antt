-- ===== src/Dir/Fill.antt =====
-- The end of `_yaf_create`: an inode is made and written to a free entry.
use yaf.Base.{
  replicate, ℕ, ◌*◌, inl, ◌/◌, ◌%◌, ◌<◌, ◌≡◌, ◌≢◌, ◌∙◌, sym, ap, refl, true, false, arith, ==-refl,
  ne→==, get_elem?, some, none, length, true-false,
}
use yaf.Base.Word.{IsWord}
use yaf.Layout.{IsInfo, block_size, bits_per_block, dno2bid, bid_ibp_min, idxd2bid, idxi2bid}
use yaf.Machine.{Block, Inode, Sb, Kernel, ok, Returns, update}
use yaf.Machine.Rules.{Returns-bind}
use yaf.Bitmap.Used.{data_used, inode_used, data_used-kept, inode_used-kept}
use yaf.Inode.{new_inode, yaf_iblocks}
use yaf.Bitmap.{reserved_dno}
use yaf.Inode.Create.{Fresh, new_inode-Fresh}
use yaf.Dentry.{Name, dentry_size, is_unused, write_dentry}
use yaf.Dentry.Entry.{write_dentry-Outside}
use yaf.Dentry.Scan.{passes}
use yaf.Dir.{fill_dentry}
use yaf.Dir.Ready.{Ready}
use yaf.Dir.Apart.{dno2bid-apart, idxi2bid-apart}
use yaf.Dir.Frame.{Frame}
use yaf.Dir.View.{IsDir, IsEntryName, Rewrote}
use yaf.Layout.Bounds.{bid_d_min-eq, bid_ibp_min-eq}
use yaf.Dir.Refine.{Dict, insert, Refines}
use yaf.Dir.Insert.{insert-Refines, insert-IsDir}

-- The directory has the new name, for an inode number that was unused and is now marked, and is
-- well-formed; the rest of the file system is as before.
pub record Created (m : Dict) (s : Sb) (dir : ℕ) (name : Name) (ino : ℕ) (s' : Sb) : Type 0 where
  pub was_free : inode_used s ino ≡ false
  pub in_first_block : ino < bits_per_block
  pub is_dir : IsDir s' dir
  pub refines : Refines (insert name ino m) s' dir
  pub empty : (s'.inode ino).i_size ≡ 0
  pub no_blocks : (s'.inode ino).i_block ≡ replicate yaf_iblocks reserved_dno
  pub not_dir : ino ≢ dir
  pub in_use : inode_used s' ino ≡ true
  pub frame : Frame s dir ino s'

module _ {k : Kernel} {s : Sb} {dir : ℕ} (ready : Ready k s dir) (h : IsDir s dir) where
  -- The state `u` in which the entry is written, after the state `t` in which the inode is made.
  filled-Created :
      (m : Dict) (d dno ino : ℕ) (name : Name) (t u : Sb)
      → d < (s.inode dir).i_size
      → d % dentry_size ≡ 0
      → get_elem? (s.inode dir).i_block (d / block_size) ≡ some dno
      → dno < s.info.nr_d
      → passes s dir is_unused d ≡ true
      → IsEntryName name
      → Refines m s dir
      → m name ≡ none
      → Fresh s ino t
      → u.buffer
        ≡ update t.buffer
            (dno2bid s.info dno)
            (write_dentry (t.buffer (dno2bid s.info dno)) (d % block_size) ino name (length name))
      → u.info ≡ t.info
      → (u.inode dir).i_block ≡ (t.inode dir).i_block
      → (u.inode dir).i_size ≡ (t.inode dir).i_size
      → ((n : ℕ) → n ≢ dir → u.inode n ≡ t.inode n)
      → Created m s dir name ino u
  filled-Created m d dno ino name t u ld md at small free n refines gone f buffer info blocks size
        others =
      record {
        was_free = f.was_free;
        in_first_block = f.in_first_block;
        is_dir =
            insert-IsDir (length name) (t.buffer p) w h rewrote ld md free word f.not_reserved n
              refines gone marks;
        refines =
            insert-Refines (length name) (t.buffer p) w h rewrote ld md free word f.not_reserved n
              refines gone;
        empty = ap (λ (x : Inode). x.i_size) (others ino (λ e. dir-ne (sym e))) ∙ f.size;
        no_blocks = ap (λ (x : Inode). x.i_block) (others ino (λ e. dir-ne (sym e))) ∙ f.blocks;
        not_dir = λ e. dir-ne (sym e);
        in_use = number ino number_bit word ∙ f.marked ino word ∙ rw (==-refl ino) refl;
        frame = record {
          same_info = info ∙ f.same_info;
          data_marks = marks;
          number_marks = λ n bit wn used. number n bit wn ∙ f.marked n wn ∙ rw used (ground arith);
          other_inodes = λ n nd ni. others n nd ∙ f.others n ni;
          held = λ q lq now. inl (rw (rewrote.same_blocks, rewrote.same_size) at now);
        };
      }
    where
      w : IsInfo s.info
      w = ready.layout.info

      word : IsWord ino
      word = omega (arith, f.in_first_block)

      p : ℕ
      p = dno2bid s.info dno

      dir-ne : dir ≢ ino
      dir-ne e = true-false (sym ready.dir_used ∙ ap (inode_used s) e ∙ f.was_free)

      kept : (b : ℕ) → b ≢ p → b ≢ bid_ibp_min s.info → u.buffer b ≡ s.buffer b
      kept b np ni = ap (λ (x : ℕ → Block). x b) buffer ∙ rw (ne→== b p np) (f.buffers b ni)

      rewrote :
          Rewrote s dir d dno (write_dentry (t.buffer p) (d % block_size) ino name (length name)) u
      rewrote = record {
        at = at;
        same_info = info ∙ f.same_info;
        same_blocks = blocks ∙ ap (λ (x : Inode). x.i_block) (f.others dir dir-ne);
        same_size = size ∙ ap (λ (x : Inode). x.i_size) (f.others dir dir-ne);
        here = ap (λ (x : ℕ → Block). x p) buffer ∙ rw (==-refl p) refl;
        around = λ o out.
            write_dentry-Outside (t.buffer p) (d % block_size) ino name (length name) o out
            ∙ ap (λ (x : Block). x o)
                (f.buffers p (
                  (dno2bid-apart s.info dno 0 ready.layout small
                    (omega (arith, ready.layout.has_dbp)) (omega arith)).0));
        others = λ b le np.
            kept b np (omega (arith, bid_d_min-eq w, bid_ibp_min-eq s.info, ready.layout.has_ibp));
      }

      number_bit : ino < s.info.nr_ibp * bits_per_block
      number_bit = omega (arith, f.in_first_block, ready.layout.has_ibp)

      -- The store of the entry leaves the inode bitmap as it is.
      number :
          (n : ℕ) → n < s.info.nr_ibp * bits_per_block → IsWord n → inode_used u n ≡ inode_used t n
      number n bit wn = inode_used-kept t u n info (
          ap (λ (x : ℕ → Block). x (idxi2bid t.info n)) buffer
          ∙ rw
              (ne→== (idxi2bid t.info n) p (λ e.
                (idxi2bid-apart s.info dno n ready.layout small bit wn).0
                  (sym (ap (λ i. idxi2bid i n) f.same_info) ∙ e)))
              refl)

      marks : (q : ℕ) → q < s.info.nr_d → data_used s q ≡ true → data_used u q ≡ true
      marks q lt used =
          let far =
            dno2bid-apart s.info dno q ready.layout small (omega (arith, ready.bits))
              (omega (arith, w.d_word)) in
          data_used-kept s u q (info ∙ f.same_info)
            (kept (idxd2bid s.info q) (λ e. far.1 (sym e)) far.2)
          ∙ used

  pub fill_dentry-Created :
      (m : Dict) (d dno : ℕ) (name : Name) (mode : ℕ)
      → d < (s.inode dir).i_size
      → d % dentry_size ≡ 0
      → get_elem? (s.inode dir).i_block (d / block_size) ≡ some dno
      → dno < s.info.nr_d
      → passes s dir is_unused d ≡ true
      → IsEntryName name
      → Refines m s dir
      → m name ≡ none
      → Returns
          (λ r s'. (ino : ℕ) × (r ≡ ok ino) × Created m s dir name ino s')
          (fill_dentry k dir (dno2bid s.info dno) d name mode s)
  unfolding fill_dentry
  fill_dentry-Created m d dno name mode ld md at small free n refines gone =
      Returns-bind _ (new_inode k dir mode s) _
        (new_inode-Fresh ready.laws s ready.layout ready.read dir mode ready.spare_ino
          ready.spare_bit ready.spare_in_range ready.spare_free ready.reserved ready.memory)
        λ r t (ino, e, f). rw e (
          ino,
          refl,
          filled-Created m d dno ino name t _ ld md at small free n refines gone f refl refl
              (rw (==-refl dir)) (rw (==-refl dir)) (λ n apart. rw (ne→== n dir apart)),
        )
