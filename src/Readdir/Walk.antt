-- ===== src/Readdir/Walk.antt =====
-- The outer loop of `yaf_iterate_shared` of driver/dir.c lists the directory block by block.
use yaf.Base.{
  ℕ, zero, suc, ◌+◌, ◌-◌, ◌*◌, ◌/◌, ◌%◌, ◌≤◌, ◌<◌, ◌≡◌, ◌⊎◌, ◌∙◌, sym, ap, inl, inr, refl, true,
  false, some, ◌==◌, ltb, ltb→lt, ltb→ge, Bool-cases, get_elem?, arith, length,
}
use yaf.Layout.{block_size, dno2bid}
use yaf.Machine.{Sb, Kernel, Result, ok, err, Returns}
use yaf.Machine.Rules.{Returns-mono}
use yaf.Inode.{eio}
use yaf.Dentry.{dentry_size, dentrys_per_block}
use yaf.Dentry.Scan.{after_calls, get_elem?-lt}
use yaf.Readdir.{Emitter, emit_entries, emit_blocks}
use yaf.Readdir.Listing.{read_at, listing, listing-append, Stopped, emit_entries-Stopped}

module _ {C : Type 0} (em : Emitter C) (k : Kernel) (s : Sb) (dir : ℕ) where
  -- The directory's block for the byte at `at` could not be read by the last call.
  abbrev pub Unread : (at : ℕ) → Sb → Type 0
  Unread at t =
      (call dno : ℕ) × (get_elem? (s.inode dir).i_block (at / block_size) ≡ some dno)
      × (k.sb_bread call (dno2bid s.info dno) ≡ false)
      × (t ≡ after_calls s (call + 1))

  -- From `doff` on the directory was listed to its end, or to a block that could not be read.
  abbrev pub Walked : (start doff : ℕ) → C → Result ℕ × C → Sb → Type 0
  Walked start doff c (ok d, c') t =
      ((n : ℕ) × (d ≡ doff + n * dentry_size)
        × (c' ≡ listing em s dir start n doff c)
        × ((s.inode dir).i_size ≤ d)
        × ((n ≡ 0) ⊎ (d < (s.inode dir).i_size + dentry_size)))
      × ((calls : ℕ) × (t ≡ after_calls s calls))
  Walked start doff c (err e, c') t =
      (n : ℕ) × (e ≡ eio)
      × (c' ≡ listing em s dir start n doff c)
      × (doff + n * dentry_size < (s.inode dir).i_size)
      × Unread (doff + n * dentry_size) t

  listing-none : (start doff : ℕ) (c : C) → listing em s dir start 0 doff c ≡ c
  unfolding listing
  listing-none start doff c = refl

  none_yet : (doff : ℕ) → doff + 0 * dentry_size ≡ doff
  none_yet doff = omega arith

  -- `n` entries were listed before the rest.
  Walked-prefix :
      (start doff n d : ℕ) (c c' : C) (r : Result ℕ × C) (t : Sb)
      → doff < (s.inode dir).i_size
      → (d ≡ doff + n * dentry_size)
      → (c' ≡ listing em s dir start n doff c)
      → d < (s.inode dir).i_size + dentry_size
      → Walked start d c' r t
      → Walked start doff c r t
  Walked-prefix start doff n d c c' (ok e, c'') t lt there so_far small
        ((m, at, rest, end, bound), same) =
      let all : c'' ≡ listing em s dir start (n + m) doff c =
        rest ∙ rw (so_far, there) (sym (listing-append em s dir start n m doff c)) in
      ((n + m, omega arith, all, end, omega arith), same)
  Walked-prefix start doff n d c c' (err e, c'') t lt there so_far small
        (m, code, rest, inside, (call, dno, at, failed, last)) =
      let all : c'' ≡ listing em s dir start (n + m) doff c =
        rest ∙ rw (so_far, there) (sym (listing-append em s dir start n m doff c)) in
      let place : d + m * dentry_size ≡ doff + (n + m) * dentry_size = omega arith in
      (
        n + m,
        code,
        all,
        omega arith,
        (
          call,
          dno,
          ap (λ x. get_elem? (s.inode dir).i_block (x / block_size)) (sym place) ∙ at,
          failed,
          last,
        ),
      )

  -- The offset where a block's loop begins.
  abbrev Begins : (start doff : ℕ) → Type 0
  Begins start doff =
      (doff % dentry_size ≡ 0) × ((doff ≡ start) ⊎ ((doff % block_size ≡ 0) × (start < doff)))

  read_at-lag :
      (start doff e : ℕ)
      → Begins start doff
      → e / block_size ≡ doff / block_size
      → read_at start e ≡ e - doff % block_size
  unfolding read_at
  read_at-lag start doff e (md, begins) index = elim begins [
    | inl here ↦
        let first : ((e / block_size) == (start / block_size)) ≡ true =
          ground (arith, here, index) in
        rw (first, here) refl
    | inr (aligned, past) ↦
        let later : ((e / block_size) == (start / block_size)) ≡ false =
          ground (arith, index, aligned, past) in
        rw (later, aligned) (omega arith)
  ]

  block_Stopped :
      (start doff dno : ℕ) (c : C)
      → Begins start doff
      → get_elem? (s.inode dir).i_block (doff / block_size) ≡ some dno
      → (n : ℕ) × Stopped em s dir start (s.inode dir).i_size (doff / block_size) doff n c (
          emit_entries em
            (s.buffer (dno2bid s.info dno))
            (s.inode dir).i_size
            (dentrys_per_block - doff % block_size / dentry_size)
            0
            doff
            c)
  block_Stopped start doff dno c begins at =
      emit_entries-Stopped em s dir start (s.inode dir).i_size (doff / block_size) dno
        (doff % block_size) (dentrys_per_block - doff % block_size / dentry_size) 0 doff c at
        (λ e index. read_at-lag start doff e begins index) (omega arith) (omega (arith, begins))

  onwards :
      (start rounds doff d : ℕ)
      → (s.inode dir).i_size + block_size ≤ doff / block_size * block_size + suc rounds * block_size
      → ((s.inode dir).i_size ≤ d) ⊎ (Begins start d × (d ≡ (doff / block_size + 1) * block_size))
      → ((s.inode dir).i_size ≤ d)
        ⊎ (Begins start d
            × ((s.inode dir).i_size + block_size
                ≤ d / block_size * block_size + rounds * block_size))
  onwards start rounds doff d enough (inl past) = inl past
  onwards start rounds doff d enough (inr (begins, end)) = inr (begins, omega (arith, end))

  module _ (backed : (s.inode dir).i_size ≤ block_size * length (s.inode dir).i_block) where
    -- The rounds behind a block whose loop stopped.
    after_block :
        (start rounds doff n calls : ℕ) (c : C) (r : ℕ × C)
        → Begins start doff
        → doff < (s.inode dir).i_size
        → Stopped em s dir start (s.inode dir).i_size (doff / block_size) doff n c r
        → (((s.inode dir).i_size ≤ r.0)
              ⊎ (Begins start r.0 × (r.0 ≡ (doff / block_size + 1) * block_size))
            → Returns
                (Walked start r.0 r.1)
                (emit_blocks em k dir rounds r.0 r.1 (after_calls s calls)))
        → Returns (Walked start doff c) (emit_blocks em k dir rounds r.0 r.1 (after_calls s calls))
    after_block start rounds doff n calls c r begins lt (run, stop, bound) rest =
        let there : r.0 ≡ doff + n * dentry_size = ap (λ (x : ℕ × C). x.0) run in
        let next : ((s.inode dir).i_size ≤ r.0)
            ⊎ (Begins start r.0 × (r.0 ≡ (doff / block_size + 1) * block_size)) =
          elim stop [
            | inl end ↦ inr ((omega arith, inr (omega arith, omega (arith, begins))), omega arith)
            | inr past ↦ inl (omega arith)
          ] in
        Returns-mono (Walked start doff c) _ (rest next) (λ (q : Result ℕ × C) t walked.
          Walked-prefix start doff n r.0 c r.1 q t lt there (ap (λ (x : ℕ × C). x.1) run)
            (omega (arith, bound, there)) walked)

    pub emit_blocks-Walked :
        (start rounds doff calls : ℕ) (c : C)
        → ((s.inode dir).i_size ≤ doff)
          ⊎ (Begins start doff
              × ((s.inode dir).i_size + block_size
                  ≤ doff / block_size * block_size + rounds * block_size))
        → 0 < rounds
        → Returns (Walked start doff c) (emit_blocks em k dir rounds doff c (after_calls s calls))
    unfolding emit_blocks
    emit_blocks-Walked start zero doff calls c from pos = absurd (omega arith)
    emit_blocks-Walked start (suc rounds) doff calls c from pos =
        elim (Bool-cases (ltb doff (s.inode dir).i_size)) [
          | inr past ↦ rw past (
            (0, omega arith, sym (listing-none start doff c), ltb→ge doff _ past, inl refl),
            (calls, refl),
          )
          | inl more ↦ elim from [
            | inl past ↦ absurd (omega (arith, ltb→lt doff _ more))
            | inr (begins, enough) ↦
                let lt : doff < (s.inode dir).i_size = ltb→lt doff _ more in
                let (dno, at) =
                  get_elem?-lt (s.inode dir).i_block (doff / block_size) (omega arith) in
                elim (Bool-cases (k.sb_bread calls (dno2bid s.info dno))) [
                  | inr bad ↦
                      rw (more, at, bad)
                        (
                          0,
                          refl,
                          sym (listing-none start doff c),
                          omega arith,
                          (
                            calls,
                            dno,
                            ap (λ x. get_elem? (s.inode dir).i_block (x / block_size))
                                  (none_yet doff)
                                ∙ at,
                            bad,
                            refl,
                          ),
                        )
                  | inl good ↦
                      let (n, stopped) = block_Stopped start doff dno c begins at in
                      rw (more, at, good)
                        (after_block start rounds doff n (calls + 1) c _ begins lt stopped (λ next.
                          emit_blocks-Walked start rounds _ (calls + 1) _
                            (onwards start rounds doff _ enough next) (omega arith)))
                ]
          ]
        ]
