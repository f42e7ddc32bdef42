-- ===== src/Bitmap/Scan.antt =====
-- `yaf_get_free_bit` against the first clear bit of the bitmap.
use yaf.Base.{
  ℕ, zero, suc, ◌+◌, ◌<◌, ◌≤◌, ◌≡◌, ◌∙◌, refl, true, false, arith, Bool-cases, ==→eq, inl, inr,
  ◌==◌, if◌then◌else◌, ltb, ◌&&◌,
}
use yaf.Base.Word.{neg32}
use yaf.Machine.{Block, Kernel}
use yaf.Machine.Bits.{test_bit, IsBitops}
use yaf.Bitmap.{free_bit_from, get_free_bit, enoent}

-- The first clear bit among the `left` bits from `nr` on, or `nr + left` if there is none.
unfoldable pub first_clear : ℕ → ℕ → Block → ℕ
first_clear zero nr b = nr
first_clear (suc left) nr b =
    let rest = first_clear left (nr + 1) b in if test_bit nr b then rest else nr

-- Two memories with the same bits.
abbrev pub SameBits : Block → Block → Type 0
SameBits b b' = (m : ℕ) → test_bit m b ≡ test_bit m b'

pub first_clear-le :
    (left nr : ℕ) (b : Block) → (nr ≤ first_clear left nr b) × (first_clear left nr b ≤ nr + left)
unfolding first_clear
first_clear-le zero nr b = omega arith
first_clear-le (suc left) nr b = ground (arith, first_clear-le left (nr + 1) b)

first_clear-cong :
    (left nr : ℕ) (b b' : Block) → SameBits b b' → first_clear left nr b ≡ first_clear left nr b'
unfolding first_clear
first_clear-cong zero nr b b' h = refl
first_clear-cong (suc left) nr b b' h = ground (arith, h nr, first_clear-cong left (nr + 1) b b' h)

pub first_clear-clear :
    (left nr : ℕ) (b : Block)
    → first_clear left nr b < nr + left
    → test_bit (first_clear left nr b) b ≡ false
unfolding first_clear
first_clear-clear zero nr b h = absurd (omega arith)
first_clear-clear (suc left) nr b h = ground (arith, first_clear-clear left (nr + 1) b)

pub first_clear-below :
    (left nr : ℕ) (b : Block) (m : ℕ) → nr ≤ m → m < first_clear left nr b → test_bit m b ≡ true
unfolding first_clear
first_clear-below zero nr b m h l = absurd (omega arith)
first_clear-below (suc left) nr b m h l = elim (Bool-cases (test_bit nr b)) [
  | inr clear ↦ absurd (ground arith)
  | inl used ↦ elim (Bool-cases (m == nr)) [
    | inl here ↦ rw (==→eq m nr here) used
    | inr later ↦ first_clear-below left (nr + 1) b m (ground arith) (ground arith)
  ]
]

module _ {k : Kernel} (laws : IsBitops k) where
  tas_same : (nr : ℕ) (b : Block) → test_bit nr b ≡ true → SameBits (k.test_and_set_bit nr b).1 b
  tas_same nr b used m = ground (arith, laws.set_new nr m b)

  -- What the loop returns is the first clear bit, and it sets no other.
  abbrev Found : ℕ → ℕ → Block → Type 0
  Found left nr b =
      ((free_bit_from k left nr b).0 ≡ first_clear left nr b)
      × ((m : ℕ)
          → test_bit m (free_bit_from k left nr b).1
            ≡ (if m == first_clear left nr b then true else test_bit m b))

  abbrev Full : ℕ → ℕ → Block → Type 0
  Full left nr b =
      ((free_bit_from k left nr b).0 ≡ neg32 enoent) × SameBits (free_bit_from k left nr b).1 b

  free_bit_from-Found :
      (left nr : ℕ) (b : Block) → first_clear left nr b < nr + left → Found left nr b
  unfolding free_bit_from first_clear
  free_bit_from-Found zero nr b h = absurd (omega arith)
  free_bit_from-Found (suc left) nr b h = elim (Bool-cases (test_bit nr b)) [
    | inr clear ↦ rw (laws.set_old nr b, clear) (refl, λ m. laws.set_new nr m b)
    | inl used ↦
        let b' : Block = (k.test_and_set_bit nr b).1 in
        let same = first_clear-cong left (nr + 1) b' b (tas_same nr b used) in
        let ih = free_bit_from-Found left (nr + 1) b' (ground arith) in
        rw (laws.set_old nr b, used) (ih.0 ∙ same, λ m. ih.1 m ∙ rw (same, tas_same nr b used m))
  ]

  free_bit_from-Full :
      (left nr : ℕ) (b : Block) → first_clear left nr b ≡ nr + left → Full left nr b
  unfolding free_bit_from first_clear
  free_bit_from-Full zero nr b h = (refl, λ m. refl)
  free_bit_from-Full (suc left) nr b h = elim (Bool-cases (test_bit nr b)) [
    | inr clear ↦ absurd (ground arith)
    | inl used ↦
        let b' : Block = (k.test_and_set_bit nr b).1 in
        let same = first_clear-cong left (nr + 1) b' b (tas_same nr b used) in
        let ih = free_bit_from-Full left (nr + 1) b' (ground arith) in
        rw (laws.set_old nr b, used) (ih.0, λ m. ih.1 m ∙ tas_same nr b used m)
  ]

  -- With the documented bit operations, `yaf_get_free_bit` on `bits` bits returns the number of the
  -- first clear bit, or -ENOENT if all are set; it sets that bit and changes no other bit of the
  -- memory.
  pub get_free_bit-first_clear :
      (bits : ℕ) (b : Block) (m : ℕ)
      → ((get_free_bit k bits b).0
          ≡ (if ltb (first_clear bits 0 b) bits then first_clear bits 0 b else neg32 enoent))
        × (test_bit m (get_free_bit k bits b).1
            ≡ (if ltb m bits && (m == first_clear bits 0 b) then true else test_bit m b))
  unfolding get_free_bit
  get_free_bit-first_clear bits b m = elim (Bool-cases (ltb (first_clear bits 0 b) bits)) [
    | inl some_clear ↦
        let p = free_bit_from-Found bits 0 b (ground arith) in ground (arith, p.0, p.1 m)
    | inr all_set ↦
        let p = free_bit_from-Full bits 0 b (ground (arith, first_clear-le bits 0 b)) in
        ground (arith, p.0, p.1 m)
  ]
