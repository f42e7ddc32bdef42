-- ===== src/Dir/Insert.antt =====
-- A new entry in a free slot of a directory inserts its name into the abstract map.
use yaf.Base.{
  ℕ, ◌%◌, ◌<◌, ◌≡◌, ◌≢◌, ◌↔◌, ◌∙◌, sym, ap, inl, inr, true, false, ◌==◌, arith, Bool-cases, ==→eq,
  some, none, true-false,
}
use yaf.Base.Word.{IsWord}
use yaf.Layout.{IsInfo, block_size}
use yaf.Machine.{Block, Sb}
use yaf.Bitmap.{reserved_ino}
use yaf.Bitmap.Used.{data_used}
use yaf.Dentry.{Name, dentry_size, d_ino, is_unused, has_name, write_dentry}
use yaf.Dentry.Entry.{d_ino-write_dentry, has_name-write_dentry}
use yaf.Dentry.Scan.{AllFail, passes}
use yaf.Dir.View.{
  binds, binds-Local, IsDir, IsEntryName, Rewrote, Rewrote-here, Rewrote-other, has_name-Local,
  HasBlocks-kept,
}
use yaf.Dir.Refine.{
  Dict, name_eq, eq_of_name_eq, name_eq_refl, insert, Refines, Refines-absent, binds_parts,
  binds-has_name, is_unused-has_name,
}

module _ {s s' : Sb} {dir d dno ino : ℕ} (len : ℕ) (b : Block) {name : Name} {m : Dict}
    (w : IsInfo s.info) (h : IsDir s dir)
    (r : Rewrote s dir d dno (write_dentry b (d % block_size) ino name len) s')
    (ld : d < (s.inode dir).i_size) (md : d % dentry_size ≡ 0)
    (free : passes s dir is_unused d ≡ true) (wi : IsWord ino) (ne : ino ≢ reserved_ino)
    (n : IsEntryName name) (refines : Refines m s dir) (gone : m name ≡ none) where
  -- What stands in the new entry.
  written :
      (name' : Name)
      → IsEntryName name'
      → (is_unused (write_dentry b (d % block_size) ino name len) (d % block_size) ≡ false)
        × ((has_name name' (write_dentry b (d % block_size) ino name len) (d % block_size) ≡ true)
            ↔ (name ≡ name'))
  written name' n' =
      has_name-write_dentry b (d % block_size) ino name name' len wi ne n.0 n'.0 n.1 n'.1

  number : d_ino (write_dentry b (d % block_size) ino name len) (d % block_size) ≡ ino
  number = d_ino-write_dentry b (d % block_size) ino name len wi

  named-here :
      (name' : Name)
      → IsEntryName name'
      → (passes s' dir (has_name name') d ≡ true) ↔ (name ≡ name')
  named-here name' n' = rw (Rewrote-here w h.blocks r (has_name name')) ((written name' n').1)

  binds-here :
      (name' : Name) (ino' : ℕ)
      → IsEntryName name'
      → (passes s' dir (binds name' ino') d ≡ true) ↔ ((name ≡ name') × (ino ≡ ino'))
  binds-here name' ino' n' = (
    λ p.
        let parts =
          (binds_parts name' ino' _ (d % block_size)).0
            (sym (Rewrote-here w h.blocks r (binds name' ino')) ∙ p) in
        ((written name' n').1.0 parts.0, sym number ∙ parts.1),
    λ (same, same_ino).
        Rewrote-here w h.blocks r (binds name' ino')
        ∙ (binds_parts name' ino' _ (d % block_size)).1
            ((written name' n').1.1 same, number ∙ same_ino),
  )

  binds-there :
      (name' : Name) (ino' e : ℕ)
      → e < (s.inode dir).i_size
      → e % dentry_size ≡ 0
      → e ≢ d
      → passes s' dir (binds name' ino') e ≡ passes s dir (binds name' ino') e
  binds-there name' ino' e le me =
      Rewrote-other w h.blocks r (binds name' ino') e (binds-Local name' ino') ld le md me

  old_name-ne : (name' : Name) (ino' e : ℕ) → passes s dir (binds name' ino') e ≡ true → e ≢ d
  old_name-ne name' ino' e p same =
      is_unused-has_name s dir name' d free
        (ap (λ x. passes s dir (has_name name') x) (sym same) ∙ binds-has_name s dir name' ino' e p)

  absent : AllFail (passes s dir (has_name name)) 0 (s.inode dir).i_size
  absent = Refines-absent m s dir name refines n gone

  pub insert-Refines : Refines (insert name ino m) s' dir
  insert-Refines name' n' ino' = elim (Bool-cases (name_eq name' name)) [
    | inl same ↦
        rw (same, r.same_size)
          (
            to_new (eq_of_name_eq name' name same),
            λ e. (
              d,
              ld,
              md,
              (binds-here name' ino' n').1 (sym (eq_of_name_eq name' name same), cc e),
            ),
          )
    | inr other ↦
        rw (other, r.same_size)
          (
            (λ (e, le, me, p).
                (refines name' n' ino').0
                  (e, le, me, sym (binds-there name' ino' e le me (elsewhere other e p)) ∙ p)),
            λ q.
                let (e, le, me, p) = (refines name' n' ino').1 q in
                (e, le, me, binds-there name' ino' e le me (old_name-ne name' ino' e p) ∙ p),
          )
  ]
    where
      to_new :
          name' ≡ name
          → (e : ℕ) × (e < (s.inode dir).i_size)
            × (e % dentry_size ≡ 0)
            × (passes s' dir (binds name' ino') e ≡ true)
          → some ino ≡ some ino'
      to_new same (e, le, me, p) = elim (Bool-cases (e == d)) [
        | inl here ↦
            ap some
              ((binds-here name' ino' n').0
                (ap (λ x. passes s' dir (binds name' ino') x) (sym (==→eq e d here)) ∙ p)).1
        | inr there ↦
            let p' = sym (binds-there name' ino' e le me (ground arith)) ∙ p in
            absurd (
              true-false (
                sym (binds-has_name s dir name' ino' e p')
                ∙ rw same (absent e (omega arith) le me)))
      ]

      elsewhere :
          name_eq name' name ≡ false → (e : ℕ) → passes s' dir (binds name' ino') e ≡ true → e ≢ d
      elsewhere other e p same =
          let same_name =
            ((binds-here name' ino' n').0
              (ap (λ x. passes s' dir (binds name' ino') x) (sym same) ∙ p)).0 in
          true-false (sym (name_eq_refl name') ∙ ap (name_eq name') (sym same_name) ∙ other)

  name-there :
      (name' : Name) (e : ℕ)
      → e < (s.inode dir).i_size
      → e % dentry_size ≡ 0
      → e ≢ d
      → passes s' dir (has_name name') e ≡ passes s dir (has_name name') e
  name-there name' e le me =
      Rewrote-other w h.blocks r (has_name name') e (has_name-Local name') ld le md me

  -- The new name stands in no other entry.
  name-once :
      (name' : Name) (e : ℕ)
      → IsEntryName name'
      → e < (s.inode dir).i_size
      → e % dentry_size ≡ 0
      → passes s' dir (has_name name') d ≡ true
      → passes s' dir (has_name name') e ≡ true
      → e ≡ d
  name-once name' e n' le me p q = elim (Bool-cases (e == d)) [
    | inl here ↦ ==→eq e d here
    | inr there ↦
        let same : name ≡ name' = (named-here name' n').0 p in
        absurd (
          true-false (
            sym q
            ∙ name-there name' e le me (ground arith)
            ∙ rw (← same) (absent e (omega arith) le me)))
  ]

  insert_unique :
      (name' : Name) (e f : ℕ)
      → IsEntryName name'
      → e < (s.inode dir).i_size
      → f < (s.inode dir).i_size
      → e % dentry_size ≡ 0
      → f % dentry_size ≡ 0
      → passes s' dir (has_name name') e ≡ true
      → passes s' dir (has_name name') f ≡ true
      → e ≡ f
  insert_unique name' e f n' le lf me mf p q = elim (Bool-cases (e == d)) [
    | inl here ↦
        let at : e ≡ d = ==→eq e d here in
        at
        ∙ sym
            (name-once name' f n' lf mf (ap (λ x. passes s' dir (has_name name') x) (sym at) ∙ p) q)
    | inr there ↦ elim (Bool-cases (f == d)) [
      | inl here ↦
          let at : f ≡ d = ==→eq f d here in
          name-once name' e n' le me (ap (λ x. passes s' dir (has_name name') x) (sym at) ∙ q) p
          ∙ sym at
      | inr apart ↦
          h.unique name' e f n' le lf me mf (sym (name-there name' e le me (ground arith)) ∙ p)
            (sym (name-there name' f lf mf (ground arith)) ∙ q)
    ]
  ]

  pub insert-IsDir :
      ((n : ℕ) → n < s.info.nr_d → data_used s n ≡ true → data_used s' n ≡ true) → IsDir s' dir
  insert-IsDir used = record {
    blocks =
        HasBlocks-kept dir r.same_info r.same_blocks r.same_size
          (λ i n lt e small u. used n small u) h.blocks;
    whole = rw r.same_size h.whole;
    unique = rw r.same_size insert_unique;
  }
