-- ===== src/Dir/MapTests.antt =====
-- The directory operations as those of a map, at a small file system: a name is made in an empty
-- directory and found in one of one entry.
use yaf.Base.{ℕ, ◌≡◌, refl, arith, inl}
use yaf.Machine.{ok, Returns}
use yaf.Machine.Example.{plain, small-IsLayout, mounted}
use yaf.Dir.{create_entry, lookup, delete}
use yaf.Dir.Fill.{Created}
use yaf.Dir.Create.{create_entry-Created}
use yaf.Dir.Find.{Finds, lookup-Finds}
use yaf.Dir.Empty.{nothing, empty-IsDir, empty-Refines}
use yaf.Dir.Sample.{
  ab, ab-IsEntryName, mounted-Ready, mounted-SpareBlock, single, one, single-IsDir, single-Refines,
  five, five-Deletable, one-ab,
}
use yaf.Dir.Delete.{Removed, delete-Removed}

create_entry-Created_example :
    Returns
      (λ r s'. (ino : ℕ) × (r ≡ ok ino) × Created nothing mounted 1 ab ino s')
      (create_entry plain 1 ab 0o100644 mounted)
create_entry-Created_example =
    create_entry-Created mounted-Ready (empty-IsDir mounted 1 refl refl) nothing
      (empty-Refines mounted 1 refl) ab 0o100644 ab-IsEntryName refl
      (inl (omega arith, mounted-SpareBlock))

lookup-Finds_example : Returns (Finds one single 1 ab) (lookup plain 1 ab single)
lookup-Finds_example =
    lookup-Finds small-IsLayout single-IsDir single-Refines plain ab (λ c b. refl) (λ c i. refl)
      ab-IsEntryName five

delete-Removed_example : Returns (Removed plain single 1 5 one ab) (delete plain 1 ab 5 single)
delete-Removed_example =
    delete-Removed plain single 1 5 one ab five-Deletable single-IsDir single-Refines ab-IsEntryName
      one-ab
