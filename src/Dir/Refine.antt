-- ===== src/Dir/Refine.antt =====
-- The abstract directory, a partial map from names to inode numbers, and what it is for the entries
-- of a directory to implement it.
use yaf.Base.{
  ℕ, ◌/◌, ◌%◌, ◌≡◌, ◌↔◌, ◌∙◌, sym, inl, inr, refl, Bool, true, false, ◌==◌, ◌&&◌, arith, Bool-cases,
  get_elem?, some, none, Option, true-false, [], ◌∷◌, if◌then◌else◌,
}
use yaf.Layout.{block_size, dno2bid}
use yaf.Machine.{Block, Sb}
use yaf.Dentry.{Name, d_ino, is_unused, has_name}
use yaf.Dentry.Scan.{AllFail, passes, passes-some}
use yaf.Dir.View.{binds, IsEntryName, Maps}

abbrev pub Dict : Type 0
Dict = Name → Option ℕ

unfoldable pub name_eq : Name → Name → Bool
name_eq [] [] = true
name_eq [] (d ∷ ds) = false
name_eq (c ∷ cs) [] = false
name_eq (c ∷ cs) (d ∷ ds) = c == d && name_eq cs ds

pub name_eq_refl : (n : Name) → name_eq n n ≡ true
unfolding name_eq
name_eq_refl [] = refl
name_eq_refl (c ∷ cs) = ground (arith, name_eq_refl cs)

pub eq_of_name_eq : (m n : Name) → name_eq m n ≡ true → m ≡ n
unfolding name_eq
eq_of_name_eq [] [] h = refl
eq_of_name_eq [] (d ∷ ds) h = cc
eq_of_name_eq (c ∷ cs) [] h = cc
eq_of_name_eq (c ∷ cs) (d ∷ ds) h = ground (arith, eq_of_name_eq cs ds)

abbrev pub insert : Name → ℕ → Dict → Dict
insert name ino m n = if name_eq n name then some ino else m n

abbrev pub remove : Name → Dict → Dict
remove name m n = if name_eq n name then none else m n

-- The directory's entries make exactly the map.
abbrev pub Refines : Dict → Sb → ℕ → Type 0
Refines m s dir =
    (name : Name) → IsEntryName name → (ino : ℕ) → Maps s dir name ino ↔ (m name ≡ some ino)

-- The block of an entry that passes a test.
pub passes-inv :
    (s : Sb) (dir : ℕ) (t : Block → ℕ → Bool) (d : ℕ)
    → passes s dir t d ≡ true
    → (dno : ℕ) × (get_elem? (s.inode dir).i_block (d / block_size) ≡ some dno)
      × (t (s.buffer (dno2bid s.info dno)) (d % block_size) ≡ true)
unfolding passes
passes-inv s dir t d h = by_cases (get_elem? (s.inode dir).i_block (d / block_size)) refl h
  where
    by_cases :
        (o : Option ℕ)
        → get_elem? (s.inode dir).i_block (d / block_size) ≡ o
        → (elim o as (λ x. Bool) [
          | none ↦ false
          | some dno ↦ t (s.buffer (dno2bid s.info dno)) (d % block_size)
        ])
          ≡ true
        → (dno : ℕ) × (get_elem? (s.inode dir).i_block (d / block_size) ≡ some dno)
          × (t (s.buffer (dno2bid s.info dno)) (d % block_size) ≡ true)
    by_cases none at e = absurd (true-false (sym e))
    by_cases (some dno) at e = (dno, at, e)

pub binds_parts :
    (name : Name) (ino : ℕ) (b : Block) (off : ℕ)
    → (binds name ino b off ≡ true) ↔ ((has_name name b off ≡ true) × (d_ino b off ≡ ino))
unfolding binds
binds_parts name ino b off = ground arith

pub binds-has_name :
    (s : Sb) (dir : ℕ) (name : Name) (ino d : ℕ)
    → passes s dir (binds name ino) d ≡ true
    → passes s dir (has_name name) d ≡ true
binds-has_name s dir name ino d h =
    let (dno, at, e) = passes-inv s dir (binds name ino) d h in
    passes-some s dir (has_name name) d dno at ∙ ((binds_parts name ino _ (d % block_size)).0 e).0

-- An entry with a name refers to some inode.
pub has_name-binds :
    (s : Sb) (dir : ℕ) (name : Name) (d : ℕ)
    → passes s dir (has_name name) d ≡ true
    → (ino : ℕ) × (passes s dir (binds name ino) d ≡ true)
has_name-binds s dir name d named =
    let (dno, at, e) = passes-inv s dir (has_name name) d named in
    (
      d_ino (s.buffer (dno2bid s.info dno)) (d % block_size),
      passes-some s dir (binds name _) d dno at
          ∙ (binds_parts name _ (s.buffer (dno2bid s.info dno)) (d % block_size)).1 (e, refl),
    )

-- A name that the map does not have stands in no entry.
pub Refines-absent :
    (m : Dict) (s : Sb) (dir : ℕ) (name : Name)
    → Refines m s dir
    → IsEntryName name
    → m name ≡ none
    → AllFail (passes s dir (has_name name)) 0 (s.inode dir).i_size
Refines-absent m s dir name r n gone e lo lt me =
    elim (Bool-cases (passes s dir (has_name name) e)) [
      | inr absent ↦ absent
      | inl present ↦
          let (ino, bound) = has_name-binds s dir name e present in
          cc ((r name n ino).0 (e, lt, me, bound), gone)
    ]

apart :
    (name : Name) (b : Block) (off : ℕ) → is_unused b off ≡ true → has_name name b off ≡ true → ⊥
unfolding is_unused has_name
apart name b off = ground arith

-- An unused entry has no name.
pub is_unused-has_name :
    (s : Sb) (dir : ℕ) (name : Name) (d : ℕ)
    → passes s dir is_unused d ≡ true
    → passes s dir (has_name name) d ≡ true
    → ⊥
is_unused-has_name s dir name d free named =
    let (dno, at, e) = passes-inv s dir is_unused d free in
    apart name (s.buffer (dno2bid s.info dno)) (d % block_size) e
      (sym (passes-some s dir (has_name name) d dno at) ∙ named)
