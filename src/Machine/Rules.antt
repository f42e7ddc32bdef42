-- ===== src/Machine/Rules.antt =====
-- Rules for runs that end with a value.
use yaf.Base.{ℕ, ◌≡◌, ◌≢◌, subst, ==-refl, ne→==}
use yaf.Machine.{Sb, update, Run, done, panic, out_of_fuel, Cmd, and_then, Returns}

module _ {A : Type 0} where
  pub Returns-bind :
      {B : Type 0} {P : A → Sb → Type 0} (Q : B → Sb → Type 0) (r : Run A) (f : A → Cmd B)
      → Returns P r
      → ((a : A) (s : Sb) → P a s → Returns Q (f a s))
      → Returns Q (and_then r f)
  Returns-bind Q (done a s) f p next = next a s p
  Returns-bind Q panic f p next = p
  Returns-bind Q out_of_fuel f p next = p

  pub Returns-mono :
      {P : A → Sb → Type 0} (Q : A → Sb → Type 0) (r : Run A)
      → Returns P r
      → ((a : A) (s : Sb) → P a s → Q a s)
      → Returns Q r
  Returns-mono Q (done a s) p weaken = weaken a s p
  Returns-mono Q panic p weaken = p
  Returns-mono Q out_of_fuel p weaken = p

  -- What follows a run that ends can still panic.
  pub Returns-panic :
      {B : Type 0} {P : A → Sb → Type 0} (r : Run A) (f : A → Cmd B)
      → Returns P r
      → ((a : A) (s : Sb) → P a s → f a s ≡ panic)
      → and_then r f ≡ panic
  Returns-panic (done a s) f p next = next a s p
  Returns-panic panic f p next = absurd p
  Returns-panic out_of_fuel f p next = absurd p

  -- What a run returned satisfies its postcondition.
  pub Returns-done :
      (P : A → Sb → Type 0) (r : Run A) {a : A} {s : Sb} → Returns P r → r ≡ done a s → P a s
  Returns-done P r p e = subst (Returns P) e p

-- The changed entry of a table.
pub update_self : {A : Type 0} (f : ℕ → A) (n : ℕ) (v : A) → update f n v n ≡ v
update_self f n v = rw (==-refl n)

pub update_ne : {A : Type 0} (f : ℕ → A) (n m : ℕ) (v : A) → m ≢ n → update f n v m ≡ f m
update_ne f n m v ne = rw (ne→== m n ne)
