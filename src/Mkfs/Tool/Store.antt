-- ===== src/Mkfs/Tool/Store.antt =====
-- The bytes of a device and the blocks of a disk: what a store within one block, tool/mkfs.c, does to
-- both.
use yaf.Base.{
  ℕ, ◌+◌, ◌-◌, ◌*◌, ◌≤◌, ◌<◌, ◌≡◌, ◌∙◌, sym, refl, arith, ltb, ltb→lt, ltb→ge, ne→==, ◌==◌,
  if◌then◌else◌, Bool-cases, inl, inr, ==→eq, ==-refl, ◌≢◌, ◌⊎◌, subst, [], ◌∷◌, List, length,
}
use yaf.Machine.{update}
use yaf.Machine.Bytes.{put32, write_words, Outside, write_words-Outside}
use yaf.Mkfs.{Disk}
use yaf.Mkfs.Tool.{store}

-- The bytes of the device are those of the blocks.
abbrev pub Shows : (ℕ → ℕ) → Disk → Type 0
Shows image d = (b o : ℕ) → o < 4096 → image (b * 4096 + o) ≡ d b o

pub store-inside :
    (image : ℕ → ℕ) (pos n : ℕ) (bytes : ℕ → ℕ) (a : ℕ)
    → pos ≤ a
    → a < pos + n
    → store image pos bytes n a ≡ bytes (a - pos)
unfolding store
store-inside image pos n bytes a lo hi = ground arith

pub store-Outside :
    (image : ℕ → ℕ) (pos n : ℕ) (bytes : ℕ → ℕ) (a : ℕ)
    → Outside pos (pos + n) a
    → store image pos bytes n a ≡ image a
unfolding store
store-Outside image pos n bytes a (inl h) = ground arith
store-Outside image pos n bytes a (inr h) = ground arith

-- The bytes `off` to `off + len` of a block are replaced.
pub record Replaces (old : ℕ → ℕ) (off len : ℕ) (bytes new : ℕ → ℕ) : Type 0 where
  pub inside : (o : ℕ) → o < len → new (off + o) ≡ bytes o
  pub outside : (o : ℕ) → o < 4096 → Outside off (off + len) o → new o ≡ old o

-- An offset is within a range or outside.
pub sides : (lo len a : ℕ) → (lo ≤ a × a < lo + len) ⊎ Outside lo (lo + len) a
sides lo len a = elim (Bool-cases (ltb a lo)) [
  | inl below ↦ inr (inl (ground arith))
  | inr from ↦ elim (Bool-cases (ltb a (lo + len))) [
    | inl before ↦ inl (ground arith, ground arith)
    | inr after ↦ inr (inr (ground arith))
  ]
]

other_block :
    (bid b off len o : ℕ)
    → off + len ≤ 4096
    → o < 4096
    → b ≢ bid
    → Outside (bid * 4096 + off) (bid * 4096 + off + len) (b * 4096 + o)
other_block bid b off len o fits lt ne = elim (Bool-cases (ltb b bid)) [
  | inl below ↦ let before : b < bid = ltb→lt b bid below in inl (omega arith)
  | inr above ↦ let after : bid ≤ b = ltb→ge b bid above in inr (omega (arith, ne))
]

pub Shows-store :
    (image : ℕ → ℕ) (d : Disk) (bid off len : ℕ) (bytes new : ℕ → ℕ)
    → off + len ≤ 4096
    → Shows image d
    → Replaces (d bid) off len bytes new
    → Shows (store image (bid * 4096 + off) bytes len) (update d bid new)
Shows-store image d bid off len bytes new fits shows r b o lt = elim (Bool-cases (b == bid)) [
  | inr other ↦
      let ne : b ≢ bid = ground arith in
      rw other (
        store-Outside image (bid * 4096 + off) len bytes (b * 4096 + o)
          (other_block bid b off len o fits lt ne)
        ∙ shows b o lt)
  | inl same ↦
      rw (==→eq b bid same, ==-refl bid)
        (elim (sides off len o) [
          | inl (lo, hi) ↦
              let back : bid * 4096 + o - (bid * 4096 + off) ≡ o - off = omega arith in
              let split : off + (o - off) ≡ o = omega arith in
              store-inside image (bid * 4096 + off) len bytes (bid * 4096 + o) (omega arith)
                (omega arith)
              ∙ rw back (sym (r.inside (o - off) (omega arith)) ∙ rw split refl)
          | inr out ↦
              let there : Outside (bid * 4096 + off) (bid * 4096 + off + len) (bid * 4096 + o) =
                elim out [ inl h ↦ inl (omega arith) | inr h ↦ inr (omega arith) ] in
              store-Outside image (bid * 4096 + off) len bytes (bid * 4096 + o) there
              ∙ shows bid o lt
              ∙ sym (r.outside o lt out)
        ])
]

-- A whole block.
pub Replaces-block : (old bytes : ℕ → ℕ) → Replaces old 0 4096 bytes bytes
Replaces-block old bytes = record {
  inside = λ o lt. let same : 0 + o ≡ o = omega arith in rw same refl;
  outside = λ o lt out. elim out [ inl h ↦ absurd (omega arith) | inr h ↦ absurd (omega arith) ];
}

-- One byte.
pub Replaces-byte :
    (old : ℕ → ℕ) (off byte : ℕ)
    → Replaces old off 1 (λ o. byte) (λ o. if o == off then byte else old o)
Replaces-byte old off byte = record {
  inside = λ o lt. let here : off + o ≡ off = omega arith in rw (here, ==-refl off) refl;
  outside = λ o lt out. elim out [
    | inl h ↦ rw (ne→== o off (omega arith)) refl
    | inr h ↦ rw (ne→== o off (omega arith)) refl
  ];
}

-- Words are the same bytes, written at the start of a zeroed buffer or into the block.
put32-shift :
    (b c : ℕ → ℕ) (off at w : ℕ)
    → ((o : ℕ) → o < at → c (off + o) ≡ b o)
    → (o : ℕ) → o < at + 4
    → put32 c (off + at) w (off + o) ≡ put32 b at w o
unfolding put32
put32-shift b c off at w same o lt = elim (Bool-cases (ltb o at)) [
  | inl below ↦ let e = same o (ltb→lt o at below) in ground arith
  | inr above ↦ ground arith
]

write_words-shift :
    (ws : List ℕ) (b c : ℕ → ℕ) (off at : ℕ)
    → ((o : ℕ) → o < at → c (off + o) ≡ b o)
    → (o : ℕ) → o < at + 4 * length ws
    → write_words c (off + at) ws (off + o) ≡ write_words b at ws o
unfolding write_words
write_words-shift [] b c off at same o lt = same o (omega arith)
write_words-shift (w ∷ ws) b c off at same o lt =
    let next : off + at + 4 ≡ off + (at + 4) = omega arith in
    rw next (
      write_words-shift ws (put32 b at w) (put32 c (off + at) w) off (at + 4)
        (put32-shift b c off at w same) o (omega arith))

pub Replaces-words :
    (old : ℕ → ℕ) (off : ℕ) (ws : List ℕ)
    → Replaces old off (4 * length ws) (write_words (λ o. 0) 0 ws) (write_words old off ws)
Replaces-words old off ws =
    let start : off + 0 ≡ off = omega arith in
    record {
      inside = λ o lt.
          subst (λ x. write_words old x ws (off + o) ≡ write_words (λ n. 0) 0 ws o) start
            (write_words-shift ws (λ n. 0) old off 0 (λ n none. absurd (omega arith)) o
              (omega arith));
      outside = λ o lt out. write_words-Outside ws old off o out;
    }
