-- ===== src/Super/Magic.antt =====
-- What `yaf_fill_super` reads of the superblock that `mkfs` writes.
use yaf.Base.{ℕ, zero, suc, ◌+◌, ◌≤◌, ◌<◌, ◌≡◌, ◌∙◌, refl, inl, inr, true, arith}
use yaf.Layout.{SbInfo, IsInfo}
use yaf.Base.Word.{IsWord}
use yaf.Machine.{Block}
use yaf.Machine.Bytes.{Outside, get32, put32, get32-put32, get32-put32_apart, get32-cong}
use yaf.Mkfs.{put_magic, fill_magic, superblock, magic_count}
use yaf.Super.{is_magic, check_magic, load_info}

put_magic-Outside : (b : Block) (off o : ℕ) → Outside off (off + 4) o → put_magic b off o ≡ b o
unfolding put_magic
put_magic-Outside b off o (inl h) = ground arith
put_magic-Outside b off o (inr h) = ground arith

fill_magic-below : (n : ℕ) (b : Block) (off o : ℕ) → o < off → fill_magic b off n o ≡ b o
unfolding fill_magic
fill_magic-below zero b off o h = refl
fill_magic-below (suc n) b off o h =
    fill_magic-below n (put_magic b off) (off + 4) o (omega arith)
    ∙ put_magic-Outside b off o (inl h)

is_magic-cong :
    (b c : Block) (off : ℕ)
    → ((o : ℕ) → off ≤ o → o < off + 4 → b o ≡ c o)
    → is_magic b off ≡ is_magic c off
unfolding is_magic
is_magic-cong b c off same =
    rw
      (
        same off (omega arith) (omega arith),
        same (off + 1) (omega arith) (omega arith),
        same (off + 2) (omega arith) (omega arith),
        same (off + 3) (omega arith) (omega arith),
      )
      refl

is_magic-put_magic : (b : Block) (off : ℕ) → is_magic (put_magic b off) off ≡ true
unfolding is_magic put_magic
is_magic-put_magic b off = ground arith

-- The check finds the strings that were written.
check_magic-fill_magic :
    (n : ℕ) (b : Block) (off : ℕ) → check_magic (fill_magic b off n) off n ≡ true
unfolding check_magic fill_magic
check_magic-fill_magic zero b off = refl
check_magic-fill_magic (suc n) b off =
    rw
      (
        is_magic-cong (fill_magic (put_magic b off) (off + 4) n) (put_magic b off) off
            (λ o lo hi. fill_magic-below n (put_magic b off) (off + 4) o hi),
        is_magic-put_magic b off,
      )
      (check_magic-fill_magic n (put_magic b off) (off + 4))

below_magic : SbInfo → Block
below_magic i = put32 (put32 (put32 (put32 (λ o. 0) 0 i.nr_ibp) 4 i.nr_dbp) 8 i.nr_i) 12 i.nr_d

field : (i : SbInfo) (off : ℕ) → off + 4 ≤ 16 → get32 (superblock i) off ≡ get32 (below_magic i) off
unfolding superblock below_magic
field i off h = get32-cong _ _ off (λ o lo hi. fill_magic-below magic_count _ 16 o (omega arith))

stored : (b : Block) (off v : ℕ) → IsWord v → get32 (put32 b off v) off ≡ v
stored b off v w = get32-put32 b off v ∙ omega arith

sb_fields :
    (i : SbInfo)
    → IsInfo i
    → (get32 (below_magic i) 0 ≡ i.nr_ibp)
      × (get32 (below_magic i) 4 ≡ i.nr_dbp)
      × (get32 (below_magic i) 8 ≡ i.nr_i)
      × (get32 (below_magic i) 12 ≡ i.nr_d)
unfolding below_magic
sb_fields i w = (
  get32-put32_apart _ 12 0 _ (inl (omega arith))
      ∙ get32-put32_apart _ 8 0 _ (inl (omega arith))
      ∙ get32-put32_apart _ 4 0 _ (inl (omega arith))
      ∙ stored _ 0 _ w.ibp_word,
  get32-put32_apart _ 12 4 _ (inl (omega arith))
      ∙ get32-put32_apart _ 8 4 _ (inl (omega arith))
      ∙ stored _ 4 _ w.dbp_word,
  get32-put32_apart _ 12 8 _ (inl (omega arith)) ∙ stored _ 8 _ w.i_word,
  stored _ 12 _ w.d_word,
)

-- `yaf_fill_super` accepts the magic strings of a superblock that `mkfs` made, and reads the sizes
-- back that `mkfs` stored, if they are 32-bit numbers.
pub load_info-superblock :
    (i : SbInfo)
    → IsInfo i
    → (check_magic (superblock i) 16 magic_count ≡ true) × (load_info (superblock i) ≡ i)
unfolding load_info
load_info-superblock i w = (
  checked,
  rw
      (
        field i 0 (omega arith),
        field i 4 (omega arith),
        field i 8 (omega arith),
        field i 12 (omega arith),
        (sb_fields i w).0,
        (sb_fields i w).1,
        (sb_fields i w).2,
        (sb_fields i w).3,
      )
      refl,
)
  where
    checked : check_magic (superblock i) 16 magic_count ≡ true
    checked = unfold superblock in check_magic-fill_magic magic_count _ 16
