-- ===== src/Super/RunTests.antt =====
-- A name is made and deleted in a new file system of 64 blocks.
use yaf.Base.{ℕ, [], ◌∷◌, ◌≡◌, ◌∙◌, ap, refl, arith, true, some}
use yaf.Machine.{Sb, Run, Result, done, panic, out_of_fuel, ok, Returns}
use yaf.Machine.Example.{plain, plain-IsBitops, mounted}
use yaf.Dentry.{Name}
use yaf.Dir.{create_entry, delete}
use yaf.Dir.Refine.{insert, remove, name_eq}
use yaf.Dir.Empty.{nothing}
use yaf.Dir.Tree.{IsTree, Serves, SpareInode}
use yaf.Dir.Slots.{HasRoom}
use yaf.Dir.Ready.{Stays}
use yaf.Dir.Tree.Create.{create_entry-IsTree}
use yaf.Dir.Tree.Delete.{delete-IsTree}
use yaf.Mkfs.{Disk, mkfs, root_ino}
use yaf.Mkfs.Image.{mkfs-image}
use yaf.Super.{fill_super}
use yaf.Super.Run.{Reachable, created, mounted-IsTree, Reachable-IsTree}

plain-Serves : Serves plain
plain-Serves = record { laws = plain-IsBitops; read = λ c b. refl; memory = λ c i. refl }

-- The end of a run that returns.
end_of :
    {A : Type 0} (P : A → Sb → Type 0) (r : Run A)
    → Returns P r
    → (a : A) × (u : Sb) × (r ≡ done a u) × P a u
end_of P (done a u) p = (a, u, refl, p)
end_of P panic p = absurd p
end_of P out_of_fuel p = absurd p

abbrev blank : Disk
blank = λ bid. λ off. 0

abbrev formatted : Sb
formatted = record mounted {
  buffer = (mkfs-image blank 64 1000 100 (omega arith) (omega arith) (omega arith) (omega arith)).0;
}

made : mkfs blank 64 1000 100 ≡ some formatted.buffer
made = (mkfs-image blank 64 1000 100 (omega arith) (omega arith) (omega arith) (omega arith)).1

abbrev first_name : Name
first_name = 97 ∷ 98 ∷ []

-- The mounted file system, and the state in which the name is made.
abbrev Mounted : Result (Unit {0}) → Sb → Type 0
Mounted r t =
    (r ≡ ok tt)
    × IsTree nothing t root_ino
    × SpareInode t
    × (Stays plain → HasRoom plain t root_ino)

new_root :
    (r : Result (Unit {0})) × (t : Sb) × (fill_super plain true true formatted ≡ done r t)
    × Mounted r t
new_root = end_of Mounted (fill_super plain true true formatted) (
    mounted-IsTree plain blank 64 1000 100 formatted plain-Serves (omega arith) (omega arith)
      (omega arith) (omega arith) made)

abbrev root : Sb
root = new_root.1

root-Reachable : Reachable plain nothing root
root-Reachable =
    Reachable.mounted blank 64 1000 100 formatted root (omega arith) (omega arith) (omega arith)
      (omega arith) made (new_root.2 ∙ ap (λ r. done r root) new_root.3.0)

abbrev Named : Result ℕ → Sb → Type 0
Named r u = (ino : ℕ) × (r ≡ ok ino) × IsTree (insert first_name ino nothing) u root_ino

create_entry-IsTree_example : Returns Named (create_entry plain root_ino first_name 0o100644 root)
create_entry-IsTree_example =
    create_entry-IsTree plain nothing root root_ino first_name 0o100644 plain-Serves new_root.3.1
      new_root.3.2 (new_root.3.3 λ c b. refl) (omega arith) refl

named :
    (r : Result ℕ) × (u : Sb) × (create_entry plain root_ino first_name 0o100644 root ≡ done r u)
    × Named r u
named = end_of Named (create_entry plain root_ino first_name 0o100644 root) (
    create_entry-IsTree plain nothing root root_ino first_name 0o100644 plain-Serves new_root.3.1
      new_root.3.2 (new_root.3.3 λ c b. refl) (omega arith) refl)

abbrev first_ino : ℕ
first_ino = named.3.0

there : insert first_name first_ino nothing first_name ≡ some first_ino
unfolding name_eq
there = refl

delete-IsTree_example :
    Returns
      (λ r u.
        (r ≡ ok tt) × IsTree (remove first_name (insert first_name first_ino nothing)) u root_ino)
      (delete plain root_ino first_name first_ino named.1)
delete-IsTree_example =
    delete-IsTree plain (insert first_name first_ino nothing) named.1 root_ino first_ino first_name
      plain-Serves named.3.2 (omega arith) there

named-Reachable : Reachable plain (insert first_name first_ino nothing) named.1
named-Reachable =
    created first_name 0o100644 first_ino named.1 root-Reachable new_root.3.2
      (new_root.3.3 λ c b. refl) (omega arith) refl (named.2 ∙ ap (λ r. done r named.1) named.3.1)

Reachable-IsTree_example : IsTree (insert first_name first_ino nothing) named.1 root_ino
Reachable-IsTree_example =
    Reachable-IsTree plain (insert first_name first_ino nothing) named.1 plain-Serves
      named-Reachable
