-- ===== src/Dir/Remove.antt =====
-- An entry of a directory that is marked as unused removes its name from the abstract map.
use yaf.Base.{
  ℕ, ◌%◌, ◌<◌, ◌≡◌, ◌≢◌, ◌∙◌, sym, ap, inl, inr, refl, true, false, Bool-cases, true-false,
}
use yaf.Layout.{IsInfo, block_size, dno2bid}
use yaf.Machine.{Block, Sb}
use yaf.Machine.Bytes.{put32, get32-put32}
use yaf.Bitmap.{reserved_ino}
use yaf.Bitmap.Used.{data_used}
use yaf.Dentry.{Name, dentry_size, has_name}
use yaf.Dentry.Entry.{has_name-injective}
use yaf.Dentry.Scan.{passes, passes-some}
use yaf.Dir.View.{
  binds, binds-Local, IsDir, IsEntryName, Rewrote, Rewrote-here, Rewrote-other, has_name-Local,
  HasBlocks-kept,
}
use yaf.Dir.Refine.{
  Dict, name_eq, eq_of_name_eq, name_eq_refl, remove, Refines, binds-has_name, passes-inv,
}

module _ {s s' : Sb} {dir d dno : ℕ} (b : Block) (name : Name) (m : Dict) (w : IsInfo s.info)
    (h : IsDir s dir) (r : Rewrote s dir d dno (put32 b (d % block_size) reserved_ino) s')
    (ld : d < (s.inode dir).i_size) (md : d % dentry_size ≡ 0)
    (named : passes s dir (has_name name) d ≡ true) (n : IsEntryName name)
    (refines : Refines m s dir) where
  nameless-here : (name' : Name) → passes s' dir (has_name name') d ≡ false
  unfolding has_name
  nameless-here name' =
      Rewrote-here w h.blocks r (has_name name')
      ∙ rw (get32-put32 b (d % block_size) reserved_ino) refl

  -- A name that an entry of the new directory has stands in another entry.
  elsewhere : (name' : Name) (e : ℕ) → passes s' dir (has_name name') e ≡ true → e ≢ d
  elsewhere name' e p same =
      true-false (sym p ∙ ap (passes s' dir (has_name name')) same ∙ nameless-here name')

  name-there :
      (name' : Name) (e : ℕ)
      → e < (s.inode dir).i_size
      → e % dentry_size ≡ 0
      → e ≢ d
      → passes s' dir (has_name name') e ≡ passes s dir (has_name name') e
  name-there name' e le me =
      Rewrote-other w h.blocks r (has_name name') e (has_name-Local name') ld le md me

  binds-there :
      (name' : Name) (ino' e : ℕ)
      → e < (s.inode dir).i_size
      → e % dentry_size ≡ 0
      → e ≢ d
      → passes s' dir (binds name' ino') e ≡ passes s dir (binds name' ino') e
  binds-there name' ino' e le me =
      Rewrote-other w h.blocks r (binds name' ino') e (binds-Local name' ino') ld le md me

  -- An entry of another name is another entry.
  apart :
      (name' : Name) (e : ℕ)
      → name_eq name' name ≡ false
      → IsEntryName name'
      → passes s dir (has_name name') e ≡ true
      → e ≢ d
  apart name' e other n' p same =
      let (dno', at, here) = passes-inv s dir (has_name name) d named in
      let there =
        sym (passes-some s dir (has_name name') d dno' at)
        ∙ ap (passes s dir (has_name name')) (sym same)
        ∙ p in
      let one_name : name' ≡ name =
        has_name-injective (s.buffer (dno2bid s.info dno')) (d % block_size) name' name n'.0 n.0
          n'.1 n.1 there here in
      true-false (sym (name_eq_refl name) ∙ ap (λ x. name_eq x name) (sym one_name) ∙ other)

  pub remove-Refines : Refines (remove name m) s' dir
  remove-Refines name' n' ino' = elim (Bool-cases (name_eq name' name)) [
    | inl same ↦
        rw (same, r.same_size)
          (
            (λ (e, le, me, p).
                let there = binds-has_name s' dir name' ino' e p in
                let ne = elsewhere name' e there in
                let old = sym (name-there name' e le me ne) ∙ there in
                absurd (
                  ne (
                    h.unique name e d n le ld me md (rw (← eq_of_name_eq name' name same) old)
                      named))),
            λ q. cc q,
          )
    | inr other ↦
        rw (other, r.same_size)
          (
            (λ (e, le, me, p).
                let ne = elsewhere name' e (binds-has_name s' dir name' ino' e p) in
                (refines name' n' ino').0 (e, le, me, sym (binds-there name' ino' e le me ne) ∙ p)),
            λ q.
                let (e, le, me, p) = (refines name' n' ino').1 q in
                (
                  e,
                  le,
                  me,
                  binds-there name' ino' e le me
                        (apart name' e other n' (binds-has_name s dir name' ino' e p))
                      ∙ p,
                ),
          )
  ]

  pub remove-IsDir :
      ((q : ℕ) → q < s.info.nr_d → data_used s q ≡ true → data_used s' q ≡ true) → IsDir s' dir
  remove-IsDir used = record {
    blocks =
        HasBlocks-kept dir r.same_info r.same_blocks r.same_size
          (λ i q lt e small u. used q small u) h.blocks;
    whole = rw r.same_size h.whole;
    unique = rw r.same_size (λ name' e f n' le lf me mf p q.
        h.unique name' e f n' le lf me mf (sym (name-there name' e le me (elsewhere name' e p)) ∙ p)
          (sym (name-there name' f lf mf (elsewhere name' f q)) ∙ q));
  }
