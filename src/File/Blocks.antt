-- ===== src/File/Blocks.antt =====
-- The array `i_block` of a file: its used entries are a prefix.
use yaf.Base.{
  ℕ, zero, suc, ◌≡◌, refl, List, [], ◌∷◌, ◌==◌, ◌≤◌, ◌<◌, ◌≢◌, arith, length, get_elem?, set, some,
  ap, Bool-cases, inl, inr, ==→eq, ne→==, get_elem?-set_ne, replicate,
}
use yaf.Bitmap.{reserved_dno}
use yaf.File.{count_used}

-- No entry behind the first unused one is used.
abbrev pub NoHoles : List ℕ → Type 0
NoHoles bs = (i d : ℕ) → count_used bs ≤ i → get_elem? bs i ≡ some d → d ≡ reserved_dno

pub count_used-le-length : (bs : List ℕ) → count_used bs ≤ length bs
unfolding count_used
count_used-le-length [] = omega arith
count_used-le-length (b ∷ bs) = ground (arith, count_used-le-length bs)

-- The entries in front of it are all used.
pub get_elem?-lt_count_used :
    (bs : List ℕ) (i : ℕ)
    → i < count_used bs
    → (d : ℕ) × (get_elem? bs i ≡ some d) × (d ≢ reserved_dno)
unfolding count_used
get_elem?-lt_count_used [] i h = absurd (omega arith)
get_elem?-lt_count_used (b ∷ bs) zero h = (b, refl, ground arith)
get_elem?-lt_count_used (b ∷ bs) (suc i) h = get_elem?-lt_count_used bs i (ground arith)

head_reserved : (bs : List ℕ) → NoHoles (reserved_dno ∷ bs) → count_used bs ≡ 0
unfolding count_used
head_reserved [] h = refl
head_reserved (c ∷ bs) h = rw (h 1 c (omega arith) refl)

NoHoles-tail : (b : ℕ) (bs : List ℕ) → b ≢ reserved_dno → NoHoles (b ∷ bs) → NoHoles bs
unfolding count_used
NoHoles-tail b bs ne h i d le e = h (suc i) d (rw (ne→== b reserved_dno ne) (omega arith)) e

-- Filling the first unused entry makes the prefix one longer.
pub count_used-set :
    (bs : List ℕ) (d : ℕ)
    → d ≢ reserved_dno
    → NoHoles bs
    → count_used bs < length bs
    → count_used (set bs (count_used bs) d) ≡ suc (count_used bs)
unfolding count_used
count_used-set [] d ne h lt = absurd (omega arith)
count_used-set (b ∷ bs) d ne h lt = elim (Bool-cases (b == reserved_dno)) [
  | inl free ↦
      rw (free, ne→== d reserved_dno ne)
        (ap suc (head_reserved bs (rw (==→eq b reserved_dno free) at h)))
  | inr used ↦
      let nb : b ≢ reserved_dno = ground arith in
      rw (used, used) (ap suc (count_used-set bs d ne (NoHoles-tail b bs nb h) (ground arith)))
]

pub NoHoles-set :
    (bs : List ℕ) (d : ℕ)
    → d ≢ reserved_dno
    → NoHoles bs
    → count_used bs < length bs
    → NoHoles (set bs (count_used bs) d)
NoHoles-set bs d ne h lt i e le at =
    let more : count_used bs < i = omega (arith, count_used-set bs d ne h lt) in
    h i e (omega arith)
      (rw (← (get_elem?-set_ne bs {i = count_used bs} {j = i} d (omega arith))) at)

get_elem?-replicate : (n i a d : ℕ) → get_elem? (replicate n a) i ≡ some d → d ≡ a
get_elem?-replicate zero i a d e = cc
get_elem?-replicate (suc n) zero a d e = cc
get_elem?-replicate (suc n) (suc i) a d e = get_elem?-replicate n i a d e

-- The array of a new inode.
pub NoHoles-replicate : (n : ℕ) → NoHoles (replicate n reserved_dno)
NoHoles-replicate n i d le e = get_elem?-replicate n i reserved_dno d e
