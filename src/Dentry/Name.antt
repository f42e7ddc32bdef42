-- ===== src/Dentry/Name.antt =====
-- Names in directory entries: what `strncpy` wrote, `strncmp` compares.
use yaf.Base.{
  ℕ, zero, suc, ◌+◌, ◌≤◌, ◌<◌, ◌≡◌, ◌≢◌, ◌∙◌, sym, ap, ap₂, refl, ◌↔◌, inl, inr, true, [], ◌∷◌,
  ◌==◌, ◌&&◌, arith, length, if◌then◌else◌, ==-refl, ne→==,
}
use yaf.Machine.{Block}
use yaf.Machine.Bytes.{Outside}
use yaf.Dentry.{Name, strncpy, strneq}

-- A name holds no zero byte.
abbrev pub IsName : Name → Type 0
IsName [] = Unit
IsName (c ∷ cs) = (c ≢ 0) × IsName cs

-- `strncpy` writes its `n` bytes only.
pub strncpy-Outside :
    (n : ℕ) (b : Block) (off : ℕ) (name : Name) (o : ℕ)
    → Outside off (off + n) o
    → strncpy b off name n o ≡ b o
unfolding strncpy
strncpy-Outside zero b off name o h = refl
strncpy-Outside (suc n) b off [] o (inl h) =
    strncpy-Outside n _ (off + 1) [] o (inl (omega arith)) ∙ rw (ne→== o off (omega arith))
strncpy-Outside (suc n) b off [] o (inr h) =
    strncpy-Outside n _ (off + 1) [] o (inr (omega arith)) ∙ rw (ne→== o off (omega arith))
strncpy-Outside (suc n) b off (c ∷ cs) o (inl h) =
    strncpy-Outside n _ (off + 1) cs o (inl (omega arith)) ∙ rw (ne→== o off (omega arith))
strncpy-Outside (suc n) b off (c ∷ cs) o (inr h) =
    strncpy-Outside n _ (off + 1) cs o (inr (omega arith)) ∙ rw (ne→== o off (omega arith))

-- The first byte is the first of the name, or zero.
first_nil : (n : ℕ) (b : Block) (off : ℕ) → strncpy b off [] (suc n) off ≡ 0
unfolding strncpy
first_nil n b off = strncpy-Outside n _ (off + 1) [] off (inl (omega arith)) ∙ rw (==-refl off)

first_cons : (n : ℕ) (b : Block) (off c : ℕ) (cs : Name) → strncpy b off (c ∷ cs) (suc n) off ≡ c
unfolding strncpy
first_cons n b off c cs =
    strncpy-Outside n _ (off + 1) cs off (inl (omega arith)) ∙ rw (==-refl off)

pub strneq-cong :
    (n : ℕ) (b b' : Block) (off : ℕ) (name : Name)
    → ((o : ℕ) → off ≤ o → o < off + n → b o ≡ b' o)
    → strneq b off name n ≡ strneq b' off name n
unfolding strneq
strneq-cong zero b b' off name h = refl
strneq-cong (suc n) b b' off [] h = rw (h off (omega arith) (omega arith))
strneq-cong (suc n) b b' off (c ∷ cs) h = rw (
  h off (omega arith) (omega arith),
  strneq-cong n b b' (off + 1) cs λ o lo hi. h o (omega arith) (omega arith),
)

-- The block after the first byte of a name is written.
abbrev with_byte : Block → ℕ → ℕ → Block
with_byte b off c o = if o == off then c else b o

strncpy-cons :
    (n : ℕ) (b : Block) (off c : ℕ) (cs : Name)
    → strncpy b off (c ∷ cs) (suc n) ≡ strncpy (with_byte b off c) (off + 1) cs n
unfolding strncpy
strncpy-cons n b off c cs = refl

-- One step of the comparison of a written name with another.
strneq-cons :
    (n : ℕ) (b : Block) (off c d : ℕ) (cs ds : Name)
    → strneq (strncpy b off (c ∷ cs) (suc n)) off (d ∷ ds) (suc n)
      ≡ (c == d && strneq (strncpy (with_byte b off c) (off + 1) cs n) (off + 1) ds n)
unfolding strneq
strneq-cons n b off c d cs ds =
    rw (first_cons n b off c cs)
      (ap (λ (f : Block). c == d && strneq f (off + 1) ds n) (strncpy-cons n b off c cs))

strneq_self :
    (n : ℕ) (b : Block) (off : ℕ) (name : Name) → strneq (strncpy b off name n) off name n ≡ true
unfolding strneq
strneq_self zero b off name = refl
strneq_self (suc n) b off [] = rw (first_nil n b off)
strneq_self (suc n) b off (c ∷ cs) =
    strneq-cons n b off c c cs cs ∙ rw (==-refl c) (strneq_self n (with_byte b off c) (off + 1) cs)

eq_of_strneq :
    (n : ℕ) (b : Block) (off : ℕ) (name name' : Name)
    → IsName name
    → IsName name'
    → length name ≤ n
    → length name' ≤ n
    → strneq (strncpy b off name n) off name' n ≡ true
    → name ≡ name'
unfolding strneq
eq_of_strneq zero b off [] [] p q l l' h = refl
eq_of_strneq zero b off [] (c ∷ cs) p q l l' h = absurd (omega arith)
eq_of_strneq zero b off (c ∷ cs) name' p q l l' h = absurd (omega arith)
eq_of_strneq (suc n) b off [] [] p q l l' h = refl
eq_of_strneq (suc n) b off [] (c ∷ cs) p q l l' h = absurd (ground (arith, first_nil n b off))
eq_of_strneq (suc n) b off (c ∷ cs) [] p q l l' h = absurd (ground (arith, first_cons n b off c cs))
eq_of_strneq (suc n) b off (c ∷ cs) (d ∷ ds) p q l l' h =
    let both = sym (strneq-cons n b off c d cs ds) ∙ h in
    let rest = strneq (strncpy (with_byte b off c) (off + 1) cs n) (off + 1) ds n in
    let parts : (c ≡ d) × (rest ≡ true) = ground arith in
    ap₂ ◌∷◌ parts.0 (
      eq_of_strneq n (with_byte b off c) (off + 1) cs ds p.1 q.1 (omega arith) (omega arith)
        parts.1)

-- For names without zero bytes that fit into the field of `n` bytes, `strncmp` of the field that
-- `strncpy` filled finds exactly the name that was written.
pub strneq-strncpy :
    (n : ℕ) (b : Block) (off : ℕ) (name name' : Name)
    → IsName name
    → IsName name'
    → length name ≤ n
    → length name' ≤ n
    → (strneq (strncpy b off name n) off name' n ≡ true) ↔ (name ≡ name')
strneq-strncpy n b off name name' p q l l' =
    (eq_of_strneq n b off name name' p q l l', λ e. rw (← e) (strneq_self n b off name))

-- Bytes that are taken for two names are those of one name.
pub strneq-injective :
    (n : ℕ) (b : Block) (off : ℕ) (xs ys : Name)
    → IsName xs
    → IsName ys
    → length xs ≤ n
    → length ys ≤ n
    → strneq b off xs n ≡ true
    → strneq b off ys n ≡ true
    → xs ≡ ys
unfolding strneq
strneq-injective n b off [] [] px py lx ly p q = refl
strneq-injective zero b off [] (y ∷ ys) px py lx ly p q = absurd (omega arith)
strneq-injective zero b off (x ∷ xs) ys px py lx ly p q = absurd (omega arith)
strneq-injective (suc n) b off [] (y ∷ ys) px py lx ly p q = absurd (ground (arith, py))
strneq-injective (suc n) b off (x ∷ xs) [] px py lx ly p q = absurd (ground (arith, px))
strneq-injective (suc n) b off (x ∷ xs) (y ∷ ys) px py lx ly p q =
    let heads : x ≡ y = ground arith in
    let tail_x : strneq b (off + 1) xs n ≡ true = ground arith in
    let tail_y : strneq b (off + 1) ys n ≡ true = ground arith in
    ap₂ (λ c cs. c ∷ cs) heads
      (strneq-injective n b (off + 1) xs ys px.1 py.1 (omega arith) (omega arith) tail_x tail_y)
