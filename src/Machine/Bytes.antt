-- ===== src/Machine/Bytes.antt =====
-- Little-endian 32-bit fields in a block: `cpu_to_le32` before a store, `le32_to_cpu` after a load.
use yaf.Base.{
  ℕ, zero, suc, List, [], ◌∷◌, length, map, refl, ap₂, ◌∙◌, ◌<◌, ◌+◌, ◌*◌, ◌/◌, ◌%◌, ◌≤◌, ◌≡◌, ◌⊎◌,
  inl, inr, ◌==◌, if◌then◌else◌, arith,
}
use yaf.Machine.{Block}

unfoldable pub get32 : Block → ℕ → ℕ
get32 b off = b off + 256 * b (off + 1) + 65536 * b (off + 2) + 16777216 * b (off + 3)

unfoldable pub put32 : Block → ℕ → ℕ → Block
put32 b off v n =
    if n == off
    then v % 256
    else if n == off + 1
    then v / 256 % 256
    else if n == off + 2
    then v / 65536 % 256
    else if n == off + 3
    then v / 16777216 % 256
    else b n

-- A field reads back what was stored in it, modulo `2 ^ 32`.
pub get32-put32 : (b : Block) (off v : ℕ) → get32 (put32 b off v) off ≡ v % 4294967296
unfolding get32 put32
get32-put32 b off v = ground arith

pub get32-put32_apart :
    (b : Block) (off o v : ℕ) → (o + 4 ≤ off) ⊎ (off + 4 ≤ o) → get32 (put32 b off v) o ≡ get32 b o
unfolding get32 put32
get32-put32_apart b off o v (inl h) = ground arith
get32-put32_apart b off o v (inr h) = ground arith

-- Consecutive fields: a structure of 32-bit members, or an array of them.
unfoldable pub write_words : Block → ℕ → List ℕ → Block
write_words b off [] = b
write_words b off (w ∷ ws) = write_words (put32 b off w) (off + 4) ws

unfoldable pub read_words : Block → ℕ → ℕ → List ℕ
read_words b off zero = []
read_words b off (suc n) = get32 b off ∷ read_words b (off + 4) n

abbrev pub Outside : ℕ → ℕ → ℕ → Type 0
Outside lo hi n = (n < lo) ⊎ (hi ≤ n)

-- A store changes its own four bytes only.
pub put32-Outside : (b : Block) (off v n : ℕ) → Outside off (off + 4) n → put32 b off v n ≡ b n
unfolding put32
put32-Outside b off v n (inl h) = ground arith
put32-Outside b off v n (inr h) = ground arith

pub write_words-Outside :
    (ws : List ℕ) (b : Block) (off n : ℕ)
    → Outside off (off + 4 * length ws) n
    → write_words b off ws n ≡ b n
unfolding write_words
write_words-Outside [] b off n h = refl
write_words-Outside (w ∷ ws) b off n (inl h) =
    write_words-Outside ws (put32 b off w) (off + 4) n (inl (omega arith))
    ∙ put32-Outside b off w n (inl h)
write_words-Outside (w ∷ ws) b off n (inr h) =
    write_words-Outside ws (put32 b off w) (off + 4) n (inr (omega arith))
    ∙ put32-Outside b off w n (inr (omega arith))

-- Two blocks that agree on the bytes of a field or an array agree on its value.
pub get32-cong :
    (b c : Block) (off : ℕ)
    → ((n : ℕ) → off ≤ n → n < off + 4 → b n ≡ c n)
    → get32 b off ≡ get32 c off
unfolding get32
get32-cong b c off h = ground (arith, h off, h (off + 1), h (off + 2), h (off + 3))

pub read_words-cong :
    (n : ℕ) (b c : Block) (off : ℕ)
    → ((m : ℕ) → off ≤ m → m < off + 4 * n → b m ≡ c m)
    → read_words b off n ≡ read_words c off n
unfolding read_words
read_words-cong zero b c off h = refl
read_words-cong (suc n) b c off h =
    ap₂ ◌∷◌ (get32-cong b c off λ m lo hi. h m lo (omega arith))
      (read_words-cong n b c (off + 4) λ m lo hi. h m (omega arith) (omega arith))

-- An array reads back, each member modulo `2 ^ 32`.
pub read_words-write_words :
    (ws : List ℕ) (b : Block) (off : ℕ)
    → read_words (write_words b off ws) off (length ws) ≡ map (λ w. w % 4294967296) ws
unfolding read_words write_words
read_words-write_words [] b off = refl
read_words-write_words (w ∷ ws) b off =
    ap₂ ◌∷◌
      (get32-cong (write_words (put32 b off w) (off + 4) ws) (put32 b off w) off
          (λ n lo hi. write_words-Outside ws (put32 b off w) (off + 4) n (inl (omega arith)))
        ∙ get32-put32 b off w)
      (read_words-write_words ws (put32 b off w) (off + 4))
