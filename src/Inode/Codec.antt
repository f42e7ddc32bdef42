-- ===== src/Inode/Codec.antt =====
-- The on-disk form of an inode: what `yaf_write_inode` stores, `yaf_iget` loads.
use yaf.Base.{
  ℕ, ◌+◌, ◌%◌, ◌^◌, ◌≤◌, ◌<◌, ◌≡◌, ◌∙◌, ap₂, refl, inl, inr, List, [], ◌∷◌, map, length, arith,
}
use yaf.Base.Word.{IsWord}
use yaf.Machine.{Block, Inode}
use yaf.Machine.Bytes.{
  get32, put32, read_words, Outside, put32-Outside, write_words-Outside, get32-cong,
  read_words-cong, read_words-write_words, get32-put32, get32-put32_apart,
}
use yaf.Inode.{yaf_iblocks, install_ops, load_inode, store_inode}

abbrev pub Words : List ℕ → Type 0
Words [] = Unit
Words (w ∷ ws) = IsWord w × Words ws

-- The members of `Yaf_Inode`, in their order.
abbrev pub persisted : Inode → List ℕ
persisted i =
    i.i_mode ∷ i.i_uid ∷ i.i_gid ∷ i.i_nlink ∷ i.i_size ∷ i.i_atime ∷ i.i_mtime ∷ i.i_ctime
    ∷ i.i_block

-- An inode that the on-disk form can hold: eight block numbers, all values of 32 bits, and a mode
-- of 16 bits.
pub record IsStorable (i : Inode) : Type 0 where
  pub mode : i.i_mode < 2 ^ 16
  pub uid : IsWord i.i_uid
  pub gid : IsWord i.i_gid
  pub nlink : IsWord i.i_nlink
  pub size : IsWord i.i_size
  pub atime : IsWord i.i_atime
  pub mtime : IsWord i.i_mtime
  pub ctime : IsWord i.i_ctime
  pub blocks : length i.i_block ≡ yaf_iblocks
  pub block_words : Words i.i_block

pub persisted-install_ops : (i : Inode) → persisted (install_ops i) ≡ persisted i
unfolding install_ops
persisted-install_ops i = ground arith

map-Words : (ws : List ℕ) → Words ws → map (λ w. w % 4294967296) ws ≡ ws
map-Words [] h = refl
map-Words (w ∷ ws) h = ap₂ ◌∷◌ (omega arith) (map-Words ws h.1)

-- The block before the array `i_block` is written.
store_head : Inode → Block → ℕ → Block
store_head i b off =
    put32
      (put32
        (put32
          (put32
            (put32 (put32 (put32 (put32 b off i.i_mode) (off + 4) i.i_uid) (off + 8) i.i_gid)
              (off + 12) i.i_nlink)
            (off + 20) i.i_atime)
          (off + 24) i.i_mtime)
        (off + 28) i.i_ctime)
      (off + 16) i.i_size

store_head-Outside :
    (i : Inode) (b : Block) (off n : ℕ) → Outside off (off + 32) n → store_head i b off n ≡ b n
unfolding store_head
store_head-Outside i b off n (inl h) = grind (arith, put32-Outside)
store_head-Outside i b off n (inr h) = grind (arith, put32-Outside)

module _ (i : Inode) (b : Block) (off : ℕ) where
  head-mode : get32 (store_head i b off) off ≡ i.i_mode % 4294967296
  unfolding store_head
  head-mode = grind (arith, get32-put32_apart, get32-put32)

  head-uid : get32 (store_head i b off) (off + 4) ≡ i.i_uid % 4294967296
  unfolding store_head
  head-uid = grind (arith, get32-put32_apart, get32-put32)

  head-gid : get32 (store_head i b off) (off + 8) ≡ i.i_gid % 4294967296
  unfolding store_head
  head-gid = grind (arith, get32-put32_apart, get32-put32)

  head-nlink : get32 (store_head i b off) (off + 12) ≡ i.i_nlink % 4294967296
  unfolding store_head
  head-nlink = grind (arith, get32-put32_apart, get32-put32)

  head-size : get32 (store_head i b off) (off + 16) ≡ i.i_size % 4294967296
  unfolding store_head
  head-size = grind (arith, get32-put32_apart, get32-put32)

  head-atime : get32 (store_head i b off) (off + 20) ≡ i.i_atime % 4294967296
  unfolding store_head
  head-atime = grind (arith, get32-put32_apart, get32-put32)

  head-mtime : get32 (store_head i b off) (off + 24) ≡ i.i_mtime % 4294967296
  unfolding store_head
  head-mtime = grind (arith, get32-put32_apart, get32-put32)

  head-ctime : get32 (store_head i b off) (off + 28) ≡ i.i_ctime % 4294967296
  unfolding store_head
  head-ctime = grind (arith, get32-put32_apart, get32-put32)

  -- The array is written behind the other members.
  head-kept :
      (j : ℕ) → j + 4 ≤ off + 32 → get32 (store_inode i b off) j ≡ get32 (store_head i b off) j
  unfolding store_inode store_head
  head-kept j h =
      get32-cong _ _ j λ n lo hi. write_words-Outside i.i_block _ (off + 32) n (inl (omega arith))

  blocks-kept :
      length i.i_block ≡ yaf_iblocks
      → read_words (store_inode i b off) (off + 32) yaf_iblocks
        ≡ map (λ w. w % 4294967296) i.i_block
  unfolding store_inode
  blocks-kept len = rw (← len) (read_words-write_words i.i_block _ (off + 32))

  -- A store of an inode changes its own 64 bytes only.
  pub store_inode-Outside :
      (n : ℕ)
      → length i.i_block ≡ yaf_iblocks
      → Outside off (off + 64) n
      → store_inode i b off n ≡ b n
  unfolding store_inode store_head
  store_inode-Outside n len (inl h) =
      write_words-Outside i.i_block _ (off + 32) n (inl (omega arith))
      ∙ store_head-Outside i b off n (inl h)
  store_inode-Outside n len (inr h) =
      write_words-Outside i.i_block _ (off + 32) n (inr (omega arith))
      ∙ store_head-Outside i b off n (inr (omega arith))

  -- What `yaf_write_inode` stores of a storable inode is what `yaf_iget` loads, whatever the
  -- in-memory inode that it is loaded into held before.
  pub load-store :
      (j : Inode) → IsStorable i → persisted (load_inode (store_inode i b off) off j) ≡ persisted i
  unfolding load_inode
  load-store j st =
      rw
        (
          persisted-install_ops,
          head-kept off (omega arith),
          head-kept (off + 4) (omega arith),
          head-kept (off + 8) (omega arith),
          head-kept (off + 12) (omega arith),
          head-kept (off + 16) (omega arith),
          head-kept (off + 20) (omega arith),
          head-kept (off + 24) (omega arith),
          head-kept (off + 28) (omega arith),
          head-mode,
          head-uid,
          head-gid,
          head-nlink,
          head-size,
          head-atime,
          head-mtime,
          head-ctime,
          blocks-kept st.blocks,
          map-Words i.i_block st.block_words,
        )
        (ground arith)

-- The load reads the 64 bytes of its inode only.
pub load_inode-cong :
    (b c : Block) (off : ℕ) (j : Inode)
    → ((n : ℕ) → off ≤ n → n < off + 64 → b n ≡ c n)
    → load_inode b off j ≡ load_inode c off j
unfolding load_inode
load_inode-cong b c off j h = rw (
  get32-cong b c off (λ n lo hi. h n lo (omega arith)),
  get32-cong b c (off + 4) (λ n lo hi. h n (omega arith) (omega arith)),
  get32-cong b c (off + 8) (λ n lo hi. h n (omega arith) (omega arith)),
  get32-cong b c (off + 12) (λ n lo hi. h n (omega arith) (omega arith)),
  get32-cong b c (off + 16) (λ n lo hi. h n (omega arith) (omega arith)),
  get32-cong b c (off + 20) (λ n lo hi. h n (omega arith) (omega arith)),
  get32-cong b c (off + 24) (λ n lo hi. h n (omega arith) (omega arith)),
  get32-cong b c (off + 28) (λ n lo hi. h n (omega arith) (omega arith)),
  read_words-cong yaf_iblocks b c (off + 32) (λ n lo hi. h n (omega arith) (omega arith)),
)
