-- ===== src/Dir/Sample.antt =====
-- A small file system for tests whose directory 1 has one entry, and a freshly made one that is ready.
use yaf.Base.{
  ℕ, zero, suc, ◌*◌, ◌≡◌, ◌≢◌, ◌<◌, ◌≤◌, refl, ◌∙◌, sym, true, false, arith, some, none, [], ◌∷◌,
  get_elem?, replicate, if◌then◌else◌, ◌==◌, ◌&&◌, Bool, ap, ◌↔◌, true-false, ==→eq,
}
use yaf.Layout.{
  block_size, dno2bid, inodes_per_block, idxd2bid, idxi2bid, bid_ibp_min, bid_dbp_min, bid_d_min,
}
use yaf.Machine.Bytes.{get32, put32}
use yaf.Machine.{Block, Sb}
use yaf.Machine.Bits.{test_bit, bit_of}
use yaf.Machine.Example.{plain, plain-IsBitops, small-IsLayout, mounted, empty_dir}
use yaf.Bitmap.{reserved_dno}
use yaf.Bitmap.Used.{inode_used, data_used}
use yaf.Inode.{yaf_iblocks}
use yaf.Dentry.{Name, strncpy, strneq, has_name, write_dentry, d_ino}
use yaf.Dentry.Scan.{passes}
use yaf.Dir.View.{HasBlocks, IsDir, IsEntryName, binds}
use yaf.Dir.Ready.{Ready, SpareBlock}
use yaf.Dir.Empty.{none-some, get_elem?-replicate}
use yaf.Dir.Refine.{Dict, Refines}
use yaf.Dir.Release.{Holds}
use yaf.Dir.Drop.{Droppable}
use yaf.Dir.Delete.{Deletable}

abbrev pub ab : Name
ab = 97 ∷ 98 ∷ []

pub ab-IsEntryName : IsEntryName ab
ab-IsEntryName = omega arith

pub mounted-Ready : Ready plain mounted 1
unfolding inode_used test_bit bit_of idxi2bid bid_ibp_min
mounted-Ready = record {
  laws = plain-IsBitops;
  read = λ c b. refl;
  memory = λ c i. refl;
  layout = small-IsLayout;
  bits = omega arith;
  spare_ino = 2;
  spare_bit = omega arith;
  spare_in_range = omega arith;
  spare_free = refl;
  reserved = refl;
  dir_used = refl;
  dir_bit = omega arith;
  dir_word = omega arith;
}

pub mounted-SpareBlock : SpareBlock plain mounted
unfolding data_used test_bit bit_of idxd2bid bid_dbp_min
mounted-SpareBlock = record {
  dno = 0;
  bit = omega arith;
  in_range = omega arith;
  free = refl;
  stays = λ c. refl;
}

-- One entry, `ab`, in data block 3; inode 5, to which it refers, has its bytes in data block 11.
abbrev pub entries : Block
entries = write_dentry (λ off. 0) 0 5 ab 2

abbrev pub single : Sb
single = record mounted {
  inode = λ ino.
      if ino == 1
      then record empty_dir { i_size = 32; i_block = 3 ∷ replicate 7 reserved_dno }
      else record empty_dir {
        i_mode = 0o100644;
        i_size = 10;
        i_block = 11 ∷ replicate 7 reserved_dno;
      };
  buffer = λ bid. if bid == 1 then (λ off. 255) else (if bid == 2 then (λ off. 8) else entries);
}

abbrev pub one : Dict
one name = if has_name name entries 0 then some 5 else none

three_used : data_used single 3 ≡ true
unfolding data_used test_bit bit_of idxd2bid bid_dbp_min
three_used = refl

spare_after :
    (i : ℕ)
    → 32 ≤ i * block_size
    → i < yaf_iblocks
    → get_elem? (single.inode 1).i_block i ≡ some reserved_dno
spare_after zero le lt = absurd (omega arith)
spare_after (suc i) le lt = get_elem?-replicate 7 i (omega arith)

first_block : (i dno : ℕ) → i * block_size < 32 → i ≡ 0
first_block i dno lt = omega arith

backed_single :
    (i : ℕ)
    → i * block_size < 32
    → (dno : ℕ) × (get_elem? (single.inode 1).i_block i ≡ some dno)
      × (dno < 60)
      × (data_used single dno ≡ true)
backed_single zero lt = (3, refl, omega arith, three_used)
backed_single (suc i) lt = absurd (omega arith)

single-HasBlocks : HasBlocks single 1
single-HasBlocks = record {
  eight = refl;
  sized = omega arith;
  backed = backed_single;
  distinct = λ i j dno li lj at1 at2. omega arith;
  spare = spare_after;
}

pub single-IsDir : IsDir single 1
single-IsDir = record {
  blocks = single-HasBlocks;
  whole = refl;
  unique = λ name d e n ld le md me pd pe. omega arith;
}

d_ino-entries : d_ino entries 0 ≡ 5
unfolding write_dentry strncpy get32 put32
d_ino-entries = refl

passes-single :
    (name : Name) (ino : ℕ)
    → passes single 1 (binds name ino) 0 ≡ (has_name name entries 0 && d_ino entries 0 == ino)
unfolding passes binds dno2bid bid_d_min
passes-single name ino = refl

some-5 : (a : Bool) (ino : ℕ) → (a && 5 == ino ≡ true) ↔ ((if a then some 5 else none) ≡ some ino)
some-5 true ino = (λ e. ap some (==→eq 5 ino e), λ e. let same : 5 ≡ ino = cc e in rw (← same) refl)
some-5 false ino = (λ e. absurd (true-false (sym e)), λ e. absurd (none-some ino e))

pub single-Refines : Refines one single 1
single-Refines name n ino =
    let both = some-5 (has_name name entries 0) ino in
    let at_zero : passes single 1 (binds name ino) 0 ≡ (has_name name entries 0 && 5 == ino) =
      rw (passes-single name ino, d_ino-entries) refl in
    (
      λ (d, lt, md, e).
          let start : d ≡ 0 = omega arith in
          both.0 (sym at_zero ∙ sym (ap (passes single 1 (binds name ino)) start) ∙ e),
      λ e. (0, omega arith, refl, at_zero ∙ both.1 e),
    )

pub five : (ino : ℕ) → one ab ≡ some ino → (ino < 1 * inodes_per_block) × (ino ≢ 1)
unfolding has_name strneq write_dentry strncpy get32 put32
five ino e = let same : 5 ≡ ino = cc e in omega (arith, same)

eleven_used : data_used single 11 ≡ true
unfolding data_used test_bit bit_of idxd2bid bid_dbp_min
eleven_used = refl

five_used : inode_used single 5 ≡ true
unfolding inode_used test_bit bit_of idxi2bid bid_ibp_min
five_used = refl

backed_five :
    (i : ℕ)
    → 0 ≤ i * block_size
    → i * block_size < 10
    → (dno : ℕ) × (get_elem? (single.inode 5).i_block i ≡ some dno)
      × (dno < 60)
      × (data_used single dno ≡ true)
backed_five zero lo lt = (11, refl, omega arith, eleven_used)
backed_five (suc i) lo lt = absurd (omega arith)

five-Droppable : Droppable plain single 5
five-Droppable = record {
  laws = plain-IsBitops;
  read = λ c b. refl;
  layout = small-IsLayout;
  bits = omega arith;
  owned = record { backed = backed_five; distinct = λ i j dno li lj at1 at2. omega arith };
  in_use = five_used;
  bit = omega arith;
  word = omega arith;
}

unshared_five : (q : ℕ) → Holds single 1 0 q → Holds single 5 0 q → ⊥
unshared_five q (zero, lo, hi, at) (zero, lo', hi', at') =
    let three : 3 ≡ q = cc at in let eleven : 11 ≡ q = cc at' in omega (arith, three, eleven)
unshared_five q (suc i, lo, hi, at) held = absurd (omega arith)
unshared_five q (zero, lo, hi, at) (suc i, lo', hi', at') = absurd (omega arith)

pub five-Deletable : Deletable plain single 1 5
five-Deletable = record {
  droppable = five-Droppable;
  other = omega arith;
  unshared = unshared_five;
}

pub one-ab : one ab ≡ some 5
unfolding has_name strneq write_dentry strncpy get32 put32
one-ab = refl
