-- ===== src/Dir/Tests.antt =====
-- Tests of directory entries and of the directory operations, and their theorems at a small file
-- system.
use yaf.Base.{
  ℕ, zero, suc, ◌≡◌, ◌<◌, ◌/◌, ◌%◌, ◌↔◌, refl, ◌∙◌, true, false, arith, some, [], ◌∷◌, get_elem?,
  replicate,
}
use yaf.Layout.{block_size, dno2bid}
use yaf.Machine.{Block, Sb, panic, Returns}
use yaf.Machine.Bytes.{get32, put32}
use yaf.Machine.Example.{plain, mounted, empty_dir, full}
use yaf.Dentry.{Name, is_unused, has_name, strncpy, strneq, write_dentry}
use yaf.Dentry.Name.{IsName}
use yaf.Dentry.Entry.{has_name-write_dentry}
use yaf.Dentry.Scan.{AllFail, passes, passes-some, after_calls}
use yaf.Dir.{lookup_offset, get_free_dentry, create_entry}
use yaf.Dir.Lookup.{FirstNamed, FirstUnused, lookup_offset-FirstNamed, get_free_dentry-FirstUnused}
use yaf.Dir.Full.{FailsAt, create_entry-full}

abbrev ab : Name
ab = 97 ∷ 98 ∷ []

abbrev abc : Name
abc = 97 ∷ 98 ∷ 99 ∷ []

abbrev zeros : Block
zeros = λ off. 0

-- A directory of three entries, the second of which is in use.
abbrev listed : Sb
listed = record mounted {
  inode = λ ino. record empty_dir { i_size = 96; i_block = 3 ∷ replicate 7 0xffff_ffff };
  buffer = λ bid. write_dentry zeros 32 5 ab 2;
}

second_used : passes listed 1 (has_name ab) 32 ≡ true
unfolding passes has_name strneq strncpy write_dentry get32 put32 dno2bid
second_used = refl

third_unused : passes listed 1 is_unused 64 ≡ true
unfolding passes is_unused strncpy write_dentry get32 put32 dno2bid
third_unused = refl

ab-IsName : IsName ab
ab-IsName = omega arith

has_name-write_dentry_example :
    (is_unused (write_dentry zeros 32 5 ab 2) 32 ≡ false)
    × ((has_name ab (write_dentry zeros 32 5 ab 2) 32 ≡ true) ↔ (ab ≡ ab))
has_name-write_dentry_example =
    has_name-write_dentry zeros 32 5 ab ab 2 (omega arith) (omega arith) ab-IsName ab-IsName
      (omega arith) (omega arith)

lookup_offset-FirstNamed_example :
    Returns
      (λ r s'. FirstNamed listed 1 ab r × ((c : ℕ) × (s' ≡ after_calls listed c)))
      (lookup_offset plain 1 ab listed)
lookup_offset-FirstNamed_example =
    lookup_offset-FirstNamed plain 1 listed ab (λ c b. refl) (omega arith) (omega arith)

get_free_dentry-FirstUnused_example :
    Returns
      (λ d s'. FirstUnused listed 1 d × ((c : ℕ) × (s' ≡ after_calls listed c)))
      (get_free_dentry plain 1 listed)
get_free_dentry-FirstUnused_example =
    get_free_dentry-FirstUnused plain 1 listed 64 (λ c b. refl) (omega arith) (omega arith) refl
      third_unused

-- Eight blocks of entries that are all in use.
abbrev crowded : Sb
crowded = record full {
  inode = λ ino. record empty_dir { i_size = 32768; i_block = replicate 8 0 };
}

get_elem?-replicate : (n i : ℕ) → i < n → get_elem? {A = ℕ} (replicate n 0) i ≡ some 0
get_elem?-replicate zero i h = absurd (omega arith)
get_elem?-replicate (suc n) zero h = refl
get_elem?-replicate (suc n) (suc i) h = get_elem?-replicate n i (omega arith)

in_use : (off : ℕ) → is_unused (λ o. 255) off ≡ false
unfolding is_unused get32
in_use off = refl

crowded-AllFail : AllFail (passes crowded 1 is_unused) 0 32768
crowded-AllFail e lo hi m =
    passes-some crowded 1 is_unused e 0 (get_elem?-replicate 8 (e / block_size) (omega arith))
    ∙ in_use (e % block_size)

create_entry-full_example :
    Returns (FailsAt crowded 1) (get_free_dentry plain 1 crowded)
    × (create_entry plain 1 ab 0o755 crowded ≡ panic)
create_entry-full_example =
    create_entry-full plain 1 crowded ab 0o755 (λ c b. refl) refl refl crowded-AllFail (omega arith)
