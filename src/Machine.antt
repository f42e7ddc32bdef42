-- ===== src/Machine.antt =====
-- What the driver runs on: the kernel's services, which are not code of this repository and so are
-- parameters, the state that they share with the driver, and commands over that state.
pub mod Bits
pub mod Bytes
pub mod Rules
pub mod Example
use Prim.Native.Nat.{ℕ, ◌+◌}
use mathlib.Core.Bool.{Bool, true}
use mathlib.Core.Option.{Option, none, some}
use mathlib.Core.List.{List}
use yaf.Base.{if◌then◌else◌, ◌==◌}
use yaf.Layout.{SbInfo}

-- The bytes of a block, by offset.
abbrev pub Block : Type 0
Block = ℕ → ℕ

-- `inode->i_fop`: the driver's two tables, or what the kernel left there.
pub data Fops : Type 0 where
  no_fops yaf_dir_ops yaf_file_ops : Fops

-- `Yaf_Inode_Info`: `i_block` and the fields of the embedded `struct inode` that the driver uses.
-- `i_op` and `a_ops` say whether the driver has installed its `yaf_inode_ops` and `yaf_as_ops`;
-- `i_uid` and `i_gid` are the values that `i_uid_read` and `i_gid_read` return, the times are in
-- seconds.
pub record Inode : Type 0 where
  pub i_mode : ℕ
  pub i_uid : ℕ
  pub i_gid : ℕ
  pub i_nlink : ℕ
  pub i_size : ℕ
  pub i_atime : ℕ
  pub i_mtime : ℕ
  pub i_ctime : ℕ
  pub i_op : Bool
  pub i_fop : Fops
  pub a_ops : Bool
  pub i_block : List ℕ

-- The mounted file system: `YAF_SB(sb)`, the contents of each block in the buffer cache, the
-- in-memory inode of each number, which buffers and inodes are marked dirty, and the number of
-- kernel calls so far whose outcome the environment chooses.
pub record Sb : Type 0 where
  pub info : SbInfo
  pub buffer : ℕ → Block
  pub buffer_dirty : ℕ → Bool
  pub inode : ℕ → Inode
  pub inode_dirty : ℕ → Bool
  pub calls : ℕ

-- The kernel. The first argument of a service that can fail is the number of the call: `sb_bread`
-- says whether the block can be read, `stays_cached` whether a clean buffer that was just released is
-- still in the cache, `iget_locked` whether there is memory for the inode, `current_time` gives the
-- seconds. `inode_init_owner` is given the inode, its directory and the mode.
pub record Kernel : Type 0 where
  pub test_and_set_bit : ℕ → Block → Bool × Block
  pub test_and_clear_bit : ℕ → Block → Bool × Block
  pub sb_bread : ℕ → ℕ → Bool
  pub stays_cached : ℕ → ℕ → Bool
  pub iget_locked : ℕ → ℕ → Bool
  pub current_time : ℕ → ℕ
  pub inc_nlink : ℕ → ℕ
  pub drop_nlink : ℕ → ℕ
  pub inode_init_owner : Inode → Inode → ℕ → Inode

-- A result of the driver: a value, or the errno of a negative return value or an `ERR_PTR`.
pub data Result {ℓ} (A : Type ℓ) : Type ℓ where
  ok : A → Result A
  err : ℕ → Result A

-- A run ends with a value, in a panic (a failed `assert`, or an access outside an array), or has
-- used up the rounds that its loop was given.
pub data Run {ℓ} (A : Type ℓ) : Type ℓ where
  done : A → Sb → Run A
  panic : Run A
  out_of_fuel : Run A

abbrev pub Cmd : Type 0 → Type 0
Cmd A = Sb → Run A

abbrev pub pure : {A : Type 0} → A → Cmd A
pure = done

abbrev pub and_then : {A B : Type 0} → Run A → (A → Cmd B) → Run B
and_then (done a s) f = f a s
and_then panic f = panic
and_then out_of_fuel f = out_of_fuel

-- Total correctness of a run: it ends with a value and a state for which `P` holds.
abbrev pub Returns : {A : Type 0} → (A → Sb → Type 0) → Run A → Type 0
Returns P (done a s) = P a s
Returns P panic = ⊥
Returns P out_of_fuel = ⊥

infixl 5 ◌>>=◌ ◌>>◌
abbrev pub ◌>>=◌ : {A B : Type 0} → Cmd A → (A → Cmd B) → Cmd B
◌>>=◌ m f s = and_then (m s) f

abbrev pub ◌>>◌ : {A B : Type 0} → Cmd A → Cmd B → Cmd B
◌>>◌ m n s = and_then (m s) (λ _. n)

abbrev pub get : Cmd Sb
get s = done s s

abbrev pub assert : Bool → Cmd (Unit {0})
assert b s = if b then done tt s else panic

-- A change of one entry of a table.
abbrev pub update {ℓ} : {A : Type ℓ} → (ℕ → A) → ℕ → A → ℕ → A
update f k v n = if n == k then v else f n

abbrev pub set_buffer : ℕ → Block → Cmd (Unit {0})
set_buffer bid b s = done tt (record s { buffer = update s.buffer bid b })

abbrev pub set_inode : ℕ → Inode → Cmd (Unit {0})
set_inode ino i s = done tt (record s { inode = update s.inode ino i })

abbrev pub mark_buffer_dirty : ℕ → Cmd (Unit {0})
mark_buffer_dirty bid s = done tt (record s { buffer_dirty = update s.buffer_dirty bid true })

abbrev pub mark_inode_dirty : ℕ → Cmd (Unit {0})
mark_inode_dirty ino s = done tt (record s { inode_dirty = update s.inode_dirty ino true })

module _ (k : Kernel) where
  -- `sb_bread`: the number stands for the buffer, whose bytes are shared by all who hold it.
  abbrev pub bread : ℕ → Cmd (Option ℕ)
  bread bid s =
      done (if k.sb_bread s.calls bid then some bid else none) (record s { calls = s.calls + 1 })

  abbrev pub now : Cmd ℕ
  now s = done (k.current_time s.calls) (record s { calls = s.calls + 1 })

  abbrev pub iget : ℕ → Cmd Bool
  iget ino s = done (k.iget_locked s.calls ino) (record s { calls = s.calls + 1 })
