-- ===== src/Dentry/Entry.antt =====
-- One directory entry: what `_yaf_create` writes, `_yaf_lookup` and `yaf_get_free_dentry` find.
use yaf.Base.{
  ℕ, ◌+◌, ◌≤◌, ◌<◌, ◌≡◌, ◌≢◌, ◌∙◌, refl, ◌⊎◌, ◌↔◌, inl, inr, true, false, arith, length, ne→==,
}
use yaf.Base.Word.{IsWord}
use yaf.Machine.{Block}
use yaf.Machine.Bytes.{put32, Outside, get32-cong, get32-put32, get32-put32_apart, put32-Outside}
use yaf.Bitmap.{reserved_ino}
use yaf.Dentry.{Name, dentry_name_len, d_ino, is_unused, has_name, strneq, write_dentry}
use yaf.Dentry.Name.{IsName, strncpy-Outside, strneq-cong, strneq-strncpy, strneq-injective}

-- A store of an entry changes its own 32 bytes only.
pub write_dentry-Outside :
    (b : Block) (off ino : ℕ) (name : Name) (len o : ℕ)
    → Outside off (off + 32) o
    → write_dentry b off ino name len o ≡ b o
unfolding write_dentry
write_dentry-Outside b off ino name len o (inl h) =
    strncpy-Outside 24 _ (off + 8) name o (inl (omega arith))
    ∙ put32-Outside _ (off + 4) len o (inl (omega arith))
    ∙ put32-Outside b off ino o (inl h)
write_dentry-Outside b off ino name len o (inr h) =
    strncpy-Outside 24 _ (off + 8) name o (inr (omega arith))
    ∙ put32-Outside _ (off + 4) len o (inr (omega arith))
    ∙ put32-Outside b off ino o (inr (omega arith))

-- The inode number reads back.
pub d_ino-write_dentry :
    (b : Block) (off ino : ℕ) (name : Name) (len : ℕ)
    → IsWord ino
    → d_ino (write_dentry b off ino name len) off ≡ ino
unfolding write_dentry
d_ino-write_dentry b off ino name len w =
    get32-cong _ (put32 (put32 b off ino) (off + 4) len) off
      (λ o lo hi. strncpy-Outside 24 _ (off + 8) name o (inl (omega arith)))
    ∙ get32-put32_apart (put32 b off ino) (off + 4) off len (inl (omega arith))
    ∙ get32-put32 b off ino
    ∙ omega arith

-- An entry written with an inode number that is not RESERVED_INO is in use, and `_yaf_lookup` takes
-- it for exactly the name that was written, where names have no zero byte and at most 24 bytes.
pub has_name-write_dentry :
    (b : Block) (off ino : ℕ) (name name' : Name) (len : ℕ)
    → IsWord ino
    → ino ≢ reserved_ino
    → IsName name
    → IsName name'
    → length name ≤ dentry_name_len
    → length name' ≤ dentry_name_len
    → (is_unused (write_dentry b off ino name len) off ≡ false)
      × ((has_name name' (write_dentry b off ino name len) off ≡ true) ↔ (name ≡ name'))
unfolding has_name is_unused
has_name-write_dentry b off ino name name' len w ne p q l l' =
    rw (d_ino-write_dentry b off ino name len w, ne→== ino 0 ne) (refl, field)
  where
    field : (strneq (write_dentry b off ino name len) (off + 8) name' 24 ≡ true) ↔ (name ≡ name')
    field =
        unfold write_dentry in
        strneq-strncpy 24 (put32 (put32 b off ino) (off + 4) len) (off + 8) name name' p q l l'

-- Two blocks that agree on the bytes of an entry agree on the tests of it.
module _ (b c : Block) (off : ℕ) where
  pub is_unused-cong :
      ((o : ℕ) → off ≤ o → o < off + 32 → b o ≡ c o) → is_unused b off ≡ is_unused c off
  unfolding is_unused
  is_unused-cong same = rw (get32-cong b c off (λ o lo hi. same o lo (omega arith))) refl

  pub has_name-cong :
      (name : Name)
      → ((o : ℕ) → off ≤ o → o < off + 32 → b o ≡ c o)
      → has_name name b off ≡ has_name name c off
  unfolding has_name
  has_name-cong name same =
      rw
        (
          get32-cong b c off (λ o lo hi. same o lo (omega arith)),
          strneq-cong 24 b c (off + 8) name (λ o lo hi. same o (omega arith) (omega arith)),
        )
        refl

-- Every other entry of the block is as it was, for a search for a free entry and for a name.
has_name-write_dentry_other :
    (b : Block) (off other ino : ℕ) (name name' : Name) (len : ℕ)
    → (other + 32 ≤ off) ⊎ (off + 32 ≤ other)
    → (is_unused (write_dentry b off ino name len) other ≡ is_unused b other)
      × (has_name name' (write_dentry b off ino name len) other ≡ has_name name' b other)
has_name-write_dentry_other b off other ino name name' len apart = (
  is_unused-cong (write_dentry b off ino name len) b other kept,
  has_name-cong (write_dentry b off ino name len) b other name' kept,
)
  where
    kept : (o : ℕ) → other ≤ o → o < other + 32 → write_dentry b off ino name len o ≡ b o
    kept o lo hi = write_dentry-Outside b off ino name len o (omega arith)

-- An entry has one name.
pub has_name-injective :
    (b : Block) (off : ℕ) (xs ys : Name)
    → IsName xs
    → IsName ys
    → length xs ≤ dentry_name_len
    → length ys ≤ dentry_name_len
    → has_name xs b off ≡ true
    → has_name ys b off ≡ true
    → xs ≡ ys
unfolding has_name
has_name-injective b off xs ys px py lx ly p q =
    strneq-injective dentry_name_len b (off + 8) xs ys px py lx ly (ground arith) (ground arith)
