-- ===== src/Dentry/Scan.antt =====
-- The loop over a directory's entries finds the first one that passes its test.
use yaf.Base.{
  ℕ, zero, suc, ◌+◌, ◌*◌, ◌/◌, ◌%◌, ◌≤◌, ◌<◌, ◌≡◌, ◌∙◌, sym, ap, refl, ◌⊎◌, inl, inr, List, [], ◌∷◌,
  Bool, true, false, ◌==◌, some, none, arith, subst, length, get_elem?, ltb, ltb→lt, ltb→ge, lt→ltb,
  Bool-cases, ==→eq,
}
use yaf.Layout.{block_size, dno2bid}
use yaf.Machine.{Block, Sb, Kernel, Result, ok, err, Returns, Cmd, pure}
use yaf.Machine.Rules.{Returns-mono}
use yaf.Dentry.{Stop, hit, miss, dentry_size, dentrys_per_block, scan_entries, scan_dir}

-- No entry between two offsets passes.
abbrev pub AllFail : (ℕ → Bool) → ℕ → ℕ → Type 0
AllFail p lo hi = (e : ℕ) → lo ≤ e → e < hi → e % dentry_size ≡ 0 → p e ≡ false

-- The stop is the first passing entry between `lo` and `size`, or the first offset behind all of them. A loop
-- over one block may also miss at the end of the block, `limit`.
abbrev pub Stops : (ℕ → Bool) → (size lo limit : ℕ) → Stop → Type 0
Stops p size lo limit (hit d) =
    (lo ≤ d) × (d < size) × (d % dentry_size ≡ 0) × (p d ≡ true) × AllFail p lo d
Stops p size lo limit (miss d) =
    (lo ≤ d)
    × ((d % dentry_size ≡ 0) × (d < size + dentry_size))
    × ((d ≡ limit) ⊎ (size ≤ d))
    × AllFail p lo d

AllFail-cons :
    (p : ℕ → Bool) (lo hi : ℕ)
    → lo % dentry_size ≡ 0
    → p lo ≡ false
    → AllFail p (lo + dentry_size) hi
    → AllFail p lo hi
AllFail-cons p lo hi m here rest e l h me = elim (Bool-cases (e == lo)) [
  | inl same ↦ ap p (==→eq e lo same) ∙ here
  | inr other ↦ rest e (ground arith) h me
]

Stops-cons :
    (p : ℕ → Bool) (size lo limit : ℕ) (st : Stop)
    → lo % dentry_size ≡ 0
    → p lo ≡ false
    → Stops p size (lo + dentry_size) limit st
    → Stops p size lo limit st
Stops-cons p size lo limit (hit d) m here (l, s, md, at, rest) =
    (omega arith, s, md, at, AllFail-cons p lo d m here rest)
Stops-cons p size lo limit (miss d) m here (l, md, at, rest) =
    (omega arith, md, at, AllFail-cons p lo d m here rest)

scan_entries-Stops :
    (test : Block → ℕ → Bool) (b : Block) (size base left i : ℕ)
    → base % block_size ≡ 0
    → i + left ≡ dentrys_per_block
    → base + i * dentry_size < size + dentry_size
    → Stops
        (λ e. test b (e % block_size))
        size
        (base + i * dentry_size)
        (base + block_size)
        (scan_entries test b size left i (base + i * dentry_size))
unfolding scan_entries
scan_entries-Stops test b size base zero i m e up =
    (omega arith, omega arith, inl (omega arith), λ x lo hi mx. absurd (omega arith))
scan_entries-Stops test b size base (suc left) i m e up =
    let doff : ℕ = base + i * dentry_size in
    let here : doff % block_size ≡ i * dentry_size = omega arith in
    elim (Bool-cases (ltb doff size)) [
      | inr past ↦ rw past (
        omega arith,
        omega arith,
        inr (ltb→ge doff size past),
        λ x lo hi mx. absurd (omega arith),
      )
      | inl more ↦ elim (Bool-cases (test b (i * dentry_size))) [
        | inl found ↦
            rw (more, found)
              (
                omega arith,
                ltb→lt doff size more,
                omega arith,
                rw here found,
                λ x lo hi mx. absurd (omega arith),
              )
        | inr other ↦
            let next : doff + dentry_size ≡ base + (i + 1) * dentry_size = omega arith in
            rw (more, other)
              (Stops-cons (λ e'. test b (e' % block_size)) size doff (base + block_size) _
                (omega arith) (rw here other)
                (rw next (
                  scan_entries-Stops test b size base left (i + 1) m (omega arith)
                    (omega (arith, ltb→lt doff size more)))))
      ]
    ]

-- Whether the entry at an offset of a directory passes a test.
unfoldable pub passes : Sb → ℕ → (Block → ℕ → Bool) → ℕ → Bool
passes s dir test d = elim (get_elem? (s.inode dir).i_block (d / block_size)) [
  | none ↦ false
  | some dno ↦ test (s.buffer (dno2bid s.info dno)) (d % block_size)
]

-- A state after kernel calls that changed nothing.
abbrev pub after_calls : Sb → ℕ → Sb
after_calls s c = record s { calls = c }

-- The search ended at a stop that is right for the whole directory, and changed nothing.
abbrev pub Searched : Sb → ℕ → (Block → ℕ → Bool) → ℕ → Result Stop → Sb → Type 0
Searched s dir test lo (ok st) s' =
    Stops (passes s dir test) (s.inode dir).i_size lo (s.inode dir).i_size st
    × ((c : ℕ) × (s' ≡ after_calls s c))
Searched s dir test lo (err e) s' = ⊥

AllFail-append :
    (p : ℕ → Bool) (lo mid hi : ℕ) → AllFail p lo mid → AllFail p mid hi → AllFail p lo hi
AllFail-append p lo mid hi f g e l h m = elim (Bool-cases (ltb e mid)) [
  | inl low ↦ f e l (ltb→lt e mid low) m
  | inr high ↦ g e (ltb→ge e mid high) h m
]

Stops-append :
    (p : ℕ → Bool) (size lo mid limit : ℕ) (st : Stop)
    → lo ≤ mid
    → AllFail p lo mid
    → Stops p size mid limit st
    → Stops p size lo limit st
Stops-append p size lo mid limit (hit d) le f (l, s, md, at, rest) =
    (omega arith, s, md, at, AllFail-append p lo mid d f rest)
Stops-append p size lo mid limit (miss d) le f (l, md, at, rest) =
    (omega arith, md, at, AllFail-append p lo mid d f rest)

-- A stop inside the block that ends at `limit`.
abbrev Within : ℕ → Stop → Type 0
Within limit (hit d) = d < limit
Within limit (miss d) = d ≤ limit

scan_entries-Within :
    (test : Block → ℕ → Bool) (b : Block) (size left i doff : ℕ)
    → Within (doff + left * dentry_size) (scan_entries test b size left i doff)
unfolding scan_entries
scan_entries-Within test b size zero i doff = omega arith
scan_entries-Within test b size (suc left) i doff =
    let next : doff + suc left * dentry_size ≡ doff + dentry_size + left * dentry_size =
      omega arith in
    let rest = scan_entries-Within test b size left (i + 1) (doff + dentry_size) in
    elim (Bool-cases (ltb doff size)) [
      | inr past ↦ rw past (omega arith)
      | inl more ↦ elim (Bool-cases (test b (i * dentry_size))) [
        | inl found ↦ rw (more, found) (omega arith)
        | inr other ↦ rw (more, other, next) rest
      ]
    ]

-- Within a block a test of it may be replaced by one that agrees there.
Stops-cong :
    (p q : ℕ → Bool) (size lo limit : ℕ) (st : Stop)
    → ((e : ℕ) → lo ≤ e → e < limit → p e ≡ q e)
    → Within limit st
    → Stops p size lo limit st
    → Stops q size lo limit st
Stops-cong p q size lo limit (hit d) same w (l, sz, md, at, rest) = (
  l,
  sz,
  md,
  sym (same d l w) ∙ at,
  λ e le lt me. sym (same e le (omega arith)) ∙ rest e le lt me,
)
Stops-cong p q size lo limit (miss d) same w (l, md, at, rest) =
    (l, md, at, λ e le lt me. sym (same e le (omega arith)) ∙ rest e le lt me)

-- A block of a directory that holds its bytes.
pub get_elem?-lt {ℓ} :
    {A : Type ℓ} (xs : List A) (i : ℕ) → i < length xs → (a : A) × (get_elem? xs i ≡ some a)
get_elem?-lt [] i h = absurd (omega arith)
get_elem?-lt (x ∷ xs) zero h = (x, refl)
get_elem?-lt (x ∷ xs) (suc i) h = get_elem?-lt xs i (omega arith)

pub passes-some :
    (s : Sb) (dir : ℕ) (test : Block → ℕ → Bool) (e dno : ℕ)
    → get_elem? (s.inode dir).i_block (e / block_size) ≡ some dno
    → passes s dir test e ≡ test (s.buffer (dno2bid s.info dno)) (e % block_size)
unfolding passes
passes-some s dir test e dno at = rw (at, passes) refl

passes-block :
    (s : Sb) (dir : ℕ) (test : Block → ℕ → Bool) (doff dno e : ℕ)
    → doff % block_size ≡ 0
    → get_elem? (s.inode dir).i_block (doff / block_size) ≡ some dno
    → doff ≤ e
    → e < doff + block_size
    → test (s.buffer (dno2bid s.info dno)) (e % block_size) ≡ passes s dir test e
passes-block s dir test doff dno e m at lo hi =
    sym (passes-some s dir test e dno (ap (get_elem? (s.inode dir).i_block) index ∙ at))
  where
    index : e / block_size ≡ doff / block_size
    index = omega arith

module _ (k : Kernel) (test : Block → ℕ → Bool) (dir : ℕ) (s : Sb) where
  -- The block that holds the bytes from `doff` on is searched.
  scan_block :
      (doff dno : ℕ)
      → doff % block_size ≡ 0
      → doff < (s.inode dir).i_size
      → get_elem? (s.inode dir).i_block (doff / block_size) ≡ some dno
      → Stops (passes s dir test) (s.inode dir).i_size doff (doff + block_size) (
          scan_entries test
            (s.buffer (dno2bid s.info dno))
            (s.inode dir).i_size
            dentrys_per_block
            0
            doff)
  scan_block doff dno m lt at =
      Stops-cong _ (passes s dir test) (s.inode dir).i_size doff (doff + block_size) _
        (λ e lo hi. passes-block s dir test doff dno e m at lo hi)
        (scan_entries-Within test b size 128 0 doff)
        (subst
          (λ x.
            Stops (λ e. test b (e % block_size)) size x (doff + block_size)
              (scan_entries test b size dentrys_per_block 0 x))
          start (scan_entries-Stops test b size doff 128 0 m refl (omega arith)))
    where
      start : doff + 0 * dentry_size ≡ doff
      start = omega arith

      b : Block
      b = s.buffer (dno2bid s.info dno)

      size : ℕ
      size = (s.inode dir).i_size

  -- The search goes on where the block's loop stopped.
  resume :
      (rounds doff c : ℕ) (st : Stop)
      → doff < (s.inode dir).i_size
      → Stops (passes s dir test) (s.inode dir).i_size doff (doff + block_size) st
      → ((d : ℕ)
          → (d ≡ doff + block_size) ⊎ ((s.inode dir).i_size ≤ d)
          → (d % dentry_size ≡ 0) × (d < (s.inode dir).i_size + dentry_size)
          → Returns (Searched s dir test d) (scan_dir k test dir rounds d (after_calls s c)))
      → Returns (Searched s dir test doff) (
          (elim st as (λ x. Cmd (Result Stop)) [
            | hit d ↦ pure (ok (hit d))
            | miss d ↦ scan_dir k test dir rounds d
          ])
            (after_calls s c))
  resume rounds doff c (hit d) lt stops rest = (stops, (c, refl))
  resume rounds doff c (miss d) lt (le, md, at, failed) rest =
      Returns-mono (Searched s dir test doff) _ (rest d at md) (λ r s' found. extend r s' found)
    where
      extend :
          (r : Result Stop) (s' : Sb) → Searched s dir test d r s' → Searched s dir test doff r s'
      extend (ok st) s' (stops, same) =
          (Stops-append (passes s dir test) _ doff d _ st le failed stops, same)
      extend (err e) s' never = never

  module _ (read : (c b : ℕ) → k.sb_bread c b ≡ true)
      (backed : (s.inode dir).i_size ≤ block_size * length (s.inode dir).i_block) where
    -- One round that reads a block, and the rounds behind it.
    in_block :
        (rounds doff c : ℕ)
        → doff < (s.inode dir).i_size
        → (dno : ℕ) × (get_elem? (s.inode dir).i_block (doff / block_size) ≡ some dno)
        → doff % block_size ≡ 0
        → ((d : ℕ)
            → (d ≡ doff + block_size) ⊎ ((s.inode dir).i_size ≤ d)
            → (d % dentry_size ≡ 0) × (d < (s.inode dir).i_size + dentry_size)
            → Returns
                (Searched s dir test d)
                (scan_dir k test dir rounds d (after_calls s (c + 1))))
        → Returns
            (Searched s dir test doff)
            (scan_dir k test dir (suc rounds) doff (after_calls s c))
    unfolding scan_dir
    in_block rounds doff c lt (dno, at) m rest =
        rw (lt→ltb doff _ lt, at, read c (dno2bid s.info dno))
          (resume rounds doff (c + 1) _ lt (scan_block doff dno m lt at) rest)

    pub scan_dir-Searched :
        (rounds doff c : ℕ)
        → (doff % block_size ≡ 0) ⊎ ((s.inode dir).i_size ≤ doff)
        → (doff % dentry_size ≡ 0) × (doff < (s.inode dir).i_size + dentry_size)
        → (s.inode dir).i_size + block_size ≤ doff + rounds * block_size
        → 0 < rounds
        → Returns (Searched s dir test doff) (scan_dir k test dir rounds doff (after_calls s c))
    unfolding scan_dir
    scan_dir-Searched zero doff c m md enough pos = absurd (omega arith)
    scan_dir-Searched (suc rounds) doff c m md enough pos =
        elim (Bool-cases (ltb doff (s.inode dir).i_size)) [
          | inr past ↦ rw past (
            (omega arith, md, inr (ltb→ge _ _ past), λ x lo hi mx. absurd (omega arith)),
            (c, refl),
          )
          | inl more ↦
              let lt : doff < (s.inode dir).i_size = ltb→lt doff _ more in
              in_block rounds doff c lt
                (get_elem?-lt (s.inode dir).i_block (doff / block_size) (omega arith)) (omega arith)
                (λ d next md'.
                  scan_dir-Searched rounds d (c + 1) (omega arith) md' (omega arith) (omega arith))
        ]
