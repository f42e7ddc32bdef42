-- ===== src/Bitmap/Scanned.antt =====
-- What the scan of the first bitmap block does to the marks of the whole bitmap.
use yaf.Base.{
  ℕ, ◌+◌, ◌/◌, ◌%◌, ◌<◌, ◌≡◌, ◌≢◌, ◌∙◌, refl, true, false, arith, Bool-cases, ltb→lt, ltb→ge,
  lt→ltb, ==-refl, ne→==, inl, inr, ◌==◌, if◌then◌else◌, ltb, ◌&&◌,
}
use yaf.Base.Word.{IsWord, neg32}
use yaf.Layout.{bits_per_block}
use yaf.Machine.{Kernel, Sb}
use yaf.Machine.Bits.{test_bit, IsBitops}
use yaf.Bitmap.{get_free_bit, enoent}
use yaf.Bitmap.Scan.{first_clear, first_clear-clear, first_clear-below, get_free_bit-first_clear}
use yaf.Bitmap.Used.{Allocated, Exhausted, bit_at}
use yaf.Bitmap.First.{scanned}

module _ {k : Kernel} (laws : IsBitops k) (min : ℕ) (s : Sb) where
  abbrev pub res : ℕ
  res = (get_free_bit k bits_per_block (s.buffer min)).0

  abbrev least_clear : ℕ
  least_clear = first_clear bits_per_block 0 (s.buffer min)

  bit_at-first : (m : ℕ) → m < bits_per_block → bit_at min s m ≡ test_bit m (s.buffer min)
  bit_at-first m h =
      let quotient : min + m / bits_per_block ≡ min = omega arith in
      let remainder : m % bits_per_block ≡ m = omega arith in rw (quotient, remainder)

  least_clear-lt :
      (n : ℕ) → n < bits_per_block → bit_at min s n ≡ false → least_clear < bits_per_block
  least_clear-lt n h free = elim (Bool-cases (ltb least_clear bits_per_block)) [
    | inl lt ↦ ltb→lt _ _ lt
    | inr ge ↦
        let beyond = ltb→ge least_clear bits_per_block ge in
        let used =
          first_clear-below bits_per_block 0 (s.buffer min) n (omega arith) (omega arith) in
        cc (free, bit_at-first n h, used)
  ]

  -- What the scan does to the bits of the whole bitmap.
  bit_at-scanned :
      (m : ℕ)
      → bit_at min (scanned k min s) m
        ≡ (if ltb m bits_per_block && (m == least_clear) then true else bit_at min s m)
  bit_at-scanned m = elim (Bool-cases (ltb m bits_per_block)) [
    | inl lt ↦
        let h = ltb→lt _ _ lt in
        let quotient : min + m / bits_per_block ≡ min = omega arith in
        let remainder : m % bits_per_block ≡ m = omega arith in
        rw (quotient, remainder, ==-refl min)
          ((get_free_bit-first_clear laws bits_per_block (s.buffer min) m).1)
    | inr ge ↦
        let other : min + m / bits_per_block ≢ min = omega (arith, ltb→ge _ _ ge) in
        rw (ne→== (min + m / bits_per_block) min other, ge)
  ]

  res-eq : res ≡ (if ltb least_clear bits_per_block then least_clear else neg32 enoent)
  res-eq = (get_free_bit-first_clear laws bits_per_block (s.buffer min) 0).0

  pub scanned-Allocated :
      (n : ℕ)
      → n < bits_per_block
      → bit_at min s n ≡ false
      → IsWord res × Allocated (bit_at min) min s res (scanned k min s)
  scanned-Allocated n h free =
      let lt = least_clear-lt n h free in
      let found : res ≡ least_clear = res-eq ∙ rw (lt→ltb _ _ lt) in
      let below = first_clear-below bits_per_block 0 (s.buffer min) in
      (
        omega (arith, found, lt),
        record {
          was_free =
              rw found (
                bit_at-first least_clear lt ∙ first_clear-clear bits_per_block 0 (s.buffer min) lt);
          least =
              λ m less. bit_at-first m (omega (arith, found)) ∙ below m (omega arith) (omega arith);
          marked = λ m w. bit_at-scanned m ∙ rw found (ground (arith, lt));
          others = λ b ne. rw (ne→== b min ne);
          dirtied = rw (==-refl min);
          same_info = refl;
          same_inodes = refl;
        },
      )

  pub scanned-Exhausted :
      ((n : ℕ) → n < bits_per_block → bit_at min s n ≡ true)
      → Exhausted (bit_at min) s res (scanned k min s)
  scanned-Exhausted full = elim (Bool-cases (ltb least_clear bits_per_block)) [
    | inl lt ↦
        let h = ltb→lt _ _ lt in
        let clear = first_clear-clear bits_per_block 0 (s.buffer min) h in
        absurd (cc (clear, bit_at-first least_clear h, full least_clear h))
    | inr ge ↦ record {
      code = res-eq ∙ rw ge;
      kept = λ m w. bit_at-scanned m ∙ ground (arith, ltb→ge _ _ ge);
      same_info = refl;
    }
  ]
