-- ===== src/Readdir/Listing.antt =====
-- What an iteration over a directory is to emit: the entries of a run of offsets, in their order.
use yaf.Base.{
  ℕ, zero, suc, ◌+◌, ◌-◌, ◌*◌, ◌/◌, ◌%◌, ◌≤◌, ◌<◌, ◌≡◌, ◌⊎◌, ◌∙◌, ap, inl, inr, refl, some, none,
  ◌==◌, ltb, ltb→lt, ltb→ge, Bool-cases, if◌then◌else◌, get_elem?, arith,
}
use yaf.Layout.{block_size, dno2bid}
use yaf.Machine.{Sb}
use yaf.Dentry.{dentry_size}
use yaf.Readdir.{Emitter, emit_entry, emit_entries}

-- The offset of the entry that is read for the one at `e`, in an iteration that starts at `start`:
-- in the block where it starts the driver reads from the block's first entry on.
unfoldable pub read_at : ℕ → ℕ → ℕ
read_at start e = if e / block_size == start / block_size then e - start % block_size else e

module _ {C : Type 0} (em : Emitter C) (s : Sb) (dir : ℕ) where
  -- The entry at an offset of the directory is emitted if it is used.
  unfoldable pub emit_at : ℕ → C → C
  emit_at e c = elim (get_elem? (s.inode dir).i_block (e / block_size)) [
    | none ↦ c
    | some dno ↦ emit_entry em (s.buffer (dno2bid s.info dno)) (e % block_size) c
  ]

  -- `n` entries from offset `d` on, in an iteration from `start`.
  unfoldable pub listing : (start n d : ℕ) → C → C
  listing start zero d c = c
  listing start (suc n) d c = listing start n (d + dentry_size) (emit_at (read_at start d) c)

  pub listing-append :
      (start n m d : ℕ) (c : C)
      → listing start (n + m) d c ≡ listing start m (d + n * dentry_size) (listing start n d c)
  unfolding listing
  listing-append start zero m d c =
      let count : 0 + m ≡ m = omega arith in
      let same : d + 0 * dentry_size ≡ d = omega arith in rw (count, same) refl
  listing-append start (suc n) m d c =
      let whole : suc n + m ≡ suc (n + m) = omega arith in
      let next : d + dentry_size + n * dentry_size ≡ d + suc n * dentry_size = omega arith in
      rw (whole, ← next) (listing-append start n m (d + dentry_size) (emit_at (read_at start d) c))

  emit_at-block :
      (e q dno : ℕ) (c : C)
      → get_elem? (s.inode dir).i_block q ≡ some dno
      → e / block_size ≡ q
      → emit_at e c ≡ emit_entry em (s.buffer (dno2bid s.info dno)) (e % block_size) c
  unfolding emit_at
  emit_at-block e q dno c at index =
      let there : get_elem? (s.inode dir).i_block (e / block_size) ≡ some dno =
        ap (get_elem? (s.inode dir).i_block) index ∙ at in
      rw (there, emit_at) refl

  -- Where the loop over block `q` stops when it starts at `doff`: after `n` entries, at the end of
  -- the block or of the directory.
  abbrev pub Stopped : (start size q doff n : ℕ) → C → ℕ × C → Type 0
  Stopped start size q doff n c r =
      (r ≡ (doff + n * dentry_size, listing start n doff c))
      × ((doff + n * dentry_size ≡ (q + 1) * block_size) ⊎ (size ≤ doff + n * dentry_size))
      × ((n ≡ 0) ⊎ (doff + n * dentry_size < size + dentry_size))

  -- One entry was emitted, and `n` behind it.
  Stopped-suc :
      (start size q doff n : ℕ) (c : C) (r : ℕ × C)
      → doff < size
      → Stopped start size q (doff + dentry_size) n (emit_at (read_at start doff) c) r
      → Stopped start size q doff (suc n) c r
  unfolding listing
  Stopped-suc start size q doff n c r more (run, stop, bound) =
      let next : doff + dentry_size + n * dentry_size ≡ doff + suc n * dentry_size = omega arith in
      (
        run
            ∙ ap (λ x. (x, listing start n (doff + dentry_size) (emit_at (read_at start doff) c)))
                next,
        omega arith,
        inr (omega arith),
      )

  -- `yd` lags behind the offset by `lag` bytes of the block.
  pub emit_entries-Stopped :
      (start size q dno lag left y doff : ℕ) (c : C)
      → get_elem? (s.inode dir).i_block q ≡ some dno
      → ((e : ℕ) → e / block_size ≡ q → read_at start e ≡ e - lag)
      → y * dentry_size + lag + q * block_size ≡ doff
      → doff + left * dentry_size ≡ (q + 1) * block_size
      → (n : ℕ) × Stopped start size q doff n c
          (emit_entries em (s.buffer (dno2bid s.info dno)) size left y doff c)
  unfolding emit_entries listing
  emit_entries-Stopped start size q dno lag zero y doff c at read pos end =
      (0, (ap (λ x. (x, c)) (omega arith), inl (omega arith), inl refl))
  emit_entries-Stopped start size q dno lag (suc left) y doff c at read pos end =
      elim (Bool-cases (ltb doff size)) [
        | inr past ↦ rw past (
          0,
          (ap (λ x. (x, c)) (omega arith), inr (omega (arith, ltb→ge doff size past)), inl refl),
        )
        | inl more ↦
            let src : read_at start doff ≡ doff - lag = read doff (omega arith) in
            let index : (doff - lag) / block_size ≡ q = omega arith in
            let off : (doff - lag) % block_size ≡ y * dentry_size = omega arith in
            let here : emit_at (read_at start doff) c
                ≡ emit_entry em (s.buffer (dno2bid s.info dno)) (y * dentry_size) c =
              rw (src, emit_at-block (doff - lag) q dno c at index, off) refl in
            let (n, rest) =
              emit_entries-Stopped start size q dno lag left (y + 1) (doff + dentry_size)
                (emit_at (read_at start doff) c) at read (omega arith) (omega arith) in
            rw (more, ← here)
              (suc n, Stopped-suc start size q doff n c _ (ltb→lt doff size more) rest)
      ]
